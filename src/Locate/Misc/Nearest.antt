-- ===== src/Locate/Misc/Nearest.antt =====
-- blockframe.c: what find_pc_misc_function finds in a vector in the order of addresses.
use g.Base.{
  ℕ, zero, suc, ◌+◌, ◌-◌, ◌/◌, ◌^◌, ◌≤◌, ◌<◌, ◌≡◌, ◌⊎◌, inl, inr, refl, sym, subst, true, false,
  Option, some, List, [], ◌∷◌, ◌||◌, ◌==◌, ltb, if◌then◌else◌, length, arith,
}
use g.Base.Int.{pos, negsuc}
use g.Locate.Misc.Distance.{next_cases, lower_cases, distance-Sign}
use g.Locate.Misc.{MiscFunction, address_at, distance, is_positive, bisect, find_pc_misc_function}

-- The vector is in the order of addresses, which are less than 2^31 apart.
pub record IsSorted (vector : List MiscFunction) : Type 0 where
  pub ordered : (i j : ℕ) → i ≤ j → j < length vector → address_at vector i ≤ address_at vector j
  pub near : (i : ℕ) → i < length vector → address_at vector i < address_at vector 0 + 2 ^ 31
  pub word : (i : ℕ) → i < length vector → address_at vector i < 2 ^ 32

-- The entry starts at the address, or before it where the next one starts behind it or is the last
-- and starts there.
abbrev pub Nearest : List MiscFunction → ℕ → ℕ → Type 0
Nearest vector pc k =
    (k < length vector)
    × ((address_at vector k ≡ pc)
        ⊎ ((address_at vector k < pc)
            × ((pc < address_at vector (k + 1))
                ⊎ ((k + 1 + 1 ≡ length vector) × (pc ≡ address_at vector (k + 1))))))

module _ (vector : List MiscFunction) (v : IsSorted vector) (pc : ℕ) where
  -- `hi` starts behind the address, or it is the last.
  abbrev Above : ℕ → Type 0
  Above hi = (pc < address_at vector hi) ⊎ ((hi + 1 ≡ length vector) × (pc ≡ address_at vector hi))

  abbrev Ends : Option ℕ → Type 0
  Ends r = (k : ℕ) × (r ≡ some k) × Nearest vector pc k

  -- The end of a round: the lower bound is the answer where the bounds are next to each other.
  round-Ends :
      (lo hi : ℕ) (rest : Option ℕ)
      → lo < hi
      → hi < length vector
      → address_at vector lo < pc ⊎ (address_at vector lo ≡ pc)
      → Above hi
      → (lo + 1 < hi → Ends rest)
      → Ends (if hi == lo + 1 then some lo else rest)
  round-Ends lo hi rest h1 h2 ha hh hr = elim (next_cases lo hi h1) [
    | inl e ↦ (
      lo,
      ground (arith, e),
      (
        omega arith,
        elim ha [
          | inl l ↦ inr (
            l,
            subst
                (λ k.
                  (pc < address_at vector k)
                  ⊎ ((k + 1 ≡ length vector) × (pc ≡ address_at vector k)))
                e hh,
          )
          | inr q ↦ inl q
        ],
      ),
    )
    | inr m ↦ subst Ends (ground (arith, m)) (hr m)
  ]

  middle-between : (lo hi : ℕ) → lo < hi → (lo ≤ (lo + hi) / 2) × ((lo + hi) / 2 < hi)
  middle-between lo hi h = (omega arith, omega arith)

  -- A round of the loop, once the comparison is known.
  bisect-exact :
      (fuel lo hi : ℕ)
      → (distance (address_at vector ((lo + hi) / 2)) pc == 0) ≡ true
      → bisect (suc fuel) vector pc lo hi ≡ some ((lo + hi) / 2)
  unfolding bisect
  bisect-exact fuel lo hi z = rw z refl

  bisect-lower :
      (fuel lo hi : ℕ)
      → (distance (address_at vector ((lo + hi) / 2)) pc == 0) ≡ false
      → is_positive (distance (address_at vector ((lo + hi) / 2)) pc) ≡ true
      → bisect (suc fuel) vector pc lo hi ≡ (
          let new = (lo + hi) / 2 in
          if new == lo + 1 then some lo else bisect fuel vector pc lo new)
  unfolding bisect
  bisect-lower fuel lo hi z p = rw (z, p) refl

  bisect-upper :
      (fuel lo hi : ℕ)
      → (distance (address_at vector ((lo + hi) / 2)) pc == 0) ≡ false
      → is_positive (distance (address_at vector ((lo + hi) / 2)) pc) ≡ false
      → bisect (suc fuel) vector pc lo hi ≡ (
          let new = (lo + hi) / 2 in
          if hi == new + 1 then some new else bisect fuel vector pc new hi)
  unfolding bisect
  bisect-upper fuel lo hi z p = rw (z, p) refl

  middle-above :
      (lo new : ℕ) → lo ≤ new → address_at vector lo ≤ pc → pc < address_at vector new → lo < new
  middle-above lo new h ha hl = elim (lower_cases lo new h) [
    | inl e ↦ absurd (omega (arith, subst (λ k. pc < address_at vector k) (sym e) hl, ha))
    | inr l ↦ l
  ]

  at_or_below : (a : ℕ) → a ≤ pc → (a < pc) ⊎ (a ≡ pc)
  at_or_below a h = omega arith

  bisect-Nearest :
      (fuel lo hi : ℕ)
      → lo < hi
      → hi < length vector
      → hi ≤ lo + fuel
      → pc < 2 ^ 32
      → pc < address_at vector 0 + 2 ^ 31
      → address_at vector lo ≤ pc
      → Above hi
      → Ends (bisect fuel vector pc lo hi)
  bisect-Nearest zero lo hi h1 h2 h3 hp hq ha hh = absurd (omega arith)
  bisect-Nearest (suc fuel) lo hi h1 h2 h3 hp hq ha hh =
      let new = (lo + hi) / 2 in
      let (between, under) = middle-between lo hi h1 in
      let low = v.ordered 0 lo (omega arith) (omega arith) in
      elim (distance-Sign (address_at vector new) pc (address_at vector 0)
        (v.ordered 0 new (omega arith) (omega arith)) (v.near new (omega arith)) (omega arith) hq
        (v.word new (omega arith)) hp) [
          | inl (e, z) ↦ (new, bisect-exact fuel lo hi z, (omega arith, inl e))
          | inr s ↦ elim s [
            | inl (l, z, p) ↦ subst Ends (sym (bisect-lower fuel lo hi z p)) (
                round-Ends lo new (bisect fuel vector pc lo new) (middle-above lo new between ha l)
                  (omega arith) (at_or_below (address_at vector lo) ha) (inl l)
                  (λ m.
                    bisect-Nearest fuel lo new (omega arith) (omega arith) (omega arith) hp hq ha
                      (inl l)))
            | inr (g, z, p) ↦ subst Ends (sym (bisect-upper fuel lo hi z p)) (
                round-Ends new hi (bisect fuel vector pc new hi) under h2 (inl g) hh
                  (λ m. bisect-Nearest fuel new hi under h2 (omega arith) hp hq (omega arith) hh))
          ]
        ]

range_cases : (n pc a z : ℕ) → (n ≡ 0) ⊎ ((0 < n) × (((pc < a) ⊎ (z < pc)) ⊎ ((a ≤ pc) × (pc ≤ z))))
range_cases n pc a z = omega arith

one_or_more : (n : ℕ) → 0 < n → (n ≡ 1) ⊎ (1 < n)
one_or_more n h = omega arith

last_cases : (a b : ℕ) → a ≤ b → (a < b) ⊎ (b ≡ a)
last_cases a b h = omega arith

single-Ends :
    (vector : List MiscFunction) (pc : ℕ)
    → length vector ≡ 1
    → pc < 2 ^ 32
    → address_at vector 0 ≤ pc
    → pc ≤ address_at vector (length vector - 1)
    → (k : ℕ) × (bisect (length vector) vector pc 0 (length vector - 1) ≡ some k)
      × Nearest vector pc k
unfolding bisect
single-Ends (f ∷ []) pc e hp a z =
    let same : f.address ≡ pc = omega arith in
    let zero_distance : (distance f.address pc == 0) ≡ true = ground (arith, same, hp) in
    (0, rw zero_distance refl, (omega arith, inl same))
single-Ends [] pc e hp a z = absurd (omega arith)
single-Ends (f ∷ g ∷ fs) pc e hp a z = absurd (omega arith)

-- The loop over the whole of a vector that has the address in its range.
whole-Ends :
    (vector : List MiscFunction) (v : IsSorted vector) (pc : ℕ)
    → 0 < length vector
    → pc < 2 ^ 32
    → address_at vector 0 ≤ pc
    → pc ≤ address_at vector (length vector - 1)
    → (k : ℕ) × (bisect (length vector) vector pc 0 (length vector - 1) ≡ some k)
      × Nearest vector pc k
whole-Ends vector v pc n hp a z =
    let near = v.near (length vector - 1) (omega arith) in
    elim (one_or_more (length vector) n) [
      | inl e ↦ single-Ends vector pc e hp a z
      | inr m ↦
          bisect-Nearest vector v pc (length vector) 0 (length vector - 1) (omega arith)
            (omega arith) (omega arith) hp (omega arith) a
            (elim (last_cases pc (address_at vector (length vector - 1)) z) [
              | inl l ↦ inl l
              | inr q ↦ inr (omega arith, sym q)
            ])
    ]

-- For a vector in the order of addresses that are less than 2^31 apart: find_pc_misc_function finds
-- nothing exactly where the address is before the first entry or behind the last one, or there are
-- no entries; and else the entry that starts at the address, or the one that starts before it such
-- that the next one starts behind it or is the last one and starts there.
pub find_pc_misc_function-Nearest :
    (vector : List MiscFunction) (pc : ℕ)
    → IsSorted vector
    → pc < 2 ^ 32
    → (((length vector ≡ 0)
          ⊎ ((pc < address_at vector 0) ⊎ (address_at vector (length vector - 1) < pc)))
        × (find_pc_misc_function vector pc ≡ some (negsuc 0)))
      ⊎ ((k : ℕ) × (find_pc_misc_function vector pc ≡ some (pos k)) × Nearest vector pc k)
unfolding find_pc_misc_function
find_pc_misc_function-Nearest vector pc v hp =
    elim (range_cases (length vector) pc (address_at vector 0)
      (address_at vector (length vector - 1))) [
        | inl z ↦
            let empty : (length vector == 0) ≡ true = ground (arith, z) in
            inl (inl z, rw empty refl)
        | inr (n, r) ↦
            let filled : (length vector == 0) ≡ false = ground (arith, n) in
            elim r [
              | inl out ↦
                  let outside : (ltb pc (address_at vector 0)
                        || ltb (address_at vector (length vector - 1)) pc)
                      ≡ true =
                    ground (arith, out) in
                  inl (inr out, rw (filled, outside) refl)
              | inr (a, z) ↦
                  let (k, e, h) = whole-Ends vector v pc n hp a z in
                  let inside : (ltb pc (address_at vector 0)
                        || ltb (address_at vector (length vector - 1)) pc)
                      ≡ false =
                    ground (arith, a, z) in
                  inr (k, rw (filled, inside, e) refl, h)
            ]
      ]
