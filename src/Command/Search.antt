-- ===== src/Command/Search.antt =====
-- command.c: the search of lookup_cmd_1 in one list, against its description: an exact name, or else
-- the only command that the word abbreviates.
use g.Base.{
  ℕ, ◌+◌, ◌≤◌, ◌≡◌, inl, inr, refl, sym, ap, ◌∙◌, Bool, true, Option, none, some, List, [], ◌∷◌,
  ◌==◌, ◌&&◌, if◌then◌else◌, length, arith, Bool-cases,
}
use g.Command.{Text, Cmd}
use g.Command.Lookup.{is_prefix, matches, search, Verdict, verdict}

module _ (ign : Bool) (w : Text) where
  -- The first command whose name is the whole word.
  unfoldable pub first_exact : List Cmd → Option Cmd
  first_exact [] = none
  first_exact (c ∷ cs) =
      let rest = first_exact cs in
      if matches ign w c && length c.name == length w then some c else rest

  -- The commands that the word abbreviates.
  unfoldable pub matching : List Cmd → List Cmd
  matching [] = []
  matching (c ∷ cs) = let rest = matching cs in if matches ign w c then c ∷ rest else rest

  abbrev pub by_count : List Cmd → Verdict
  by_count [] = Verdict.nothing
  by_count (c ∷ []) = Verdict.one c
  by_count (c ∷ d ∷ cs) = Verdict.ambiguous

  abbrev pub choice : Option Cmd → List Cmd → Verdict
  choice (some c) cs = Verdict.one c
  choice none cs = by_count cs

  abbrev pub choose : List Cmd → Verdict
  choose cs = choice (first_exact cs) (matching cs)

  abbrev last_or : Option Cmd → List Cmd → Option Cmd
  last_or found [] = found
  last_or found (c ∷ cs) = last_or (some c) cs

  abbrev ends : Option Cmd → Option Cmd → ℕ → List Cmd → Option Cmd × ℕ
  ends (some c) found n cs = (some c, 1)
  ends none found n cs = (last_or found cs, n + length cs)

  ends_more :
      (o found : Option Cmd) (c : Cmd) (n : ℕ) (cs : List Cmd)
      → ends o (some c) (n + 1) cs ≡ ends o found n (c ∷ cs)
  ends_more (some d) found c n cs = refl
  ends_more none found c n cs = ap (λ k. (last_or (some c) cs, k)) (omega arith)

  search-ends :
      (cs : List Cmd) (found : Option Cmd) (n : ℕ)
      → search ign w cs found n ≡ ends (first_exact cs) found n (matching cs)
  unfolding search first_exact matching
  search-ends [] found n = ap (λ k. (found, k)) (omega arith)
  search-ends (c ∷ cs) found n = elim (Bool-cases (matches ign w c)) [
    | inr e ↦ rw e (search-ends cs found n)
    | inl e ↦ rw e (elim (Bool-cases (length c.name == length w)) [
      | inl f ↦ rw f
      | inr f ↦
          rw f
            (search-ends cs (some c) (n + 1) ∙ ends_more (first_exact cs) found c n (matching cs))
    ])
  ]

  last_or-some : (d : Cmd) (cs : List Cmd) → (x : Cmd) × (last_or (some d) cs ≡ some x)
  last_or-some d [] = (d, refl)
  last_or-some d (c ∷ cs) = last_or-some c cs

  verdict-ends : (o : Option Cmd) (cs : List Cmd) → verdict (ends o none 0 cs) ≡ choice o cs
  verdict-ends (some c) cs = refl
  verdict-ends none [] = refl
  verdict-ends none (c ∷ []) = refl
  verdict-ends none (c ∷ d ∷ cs) = let (x, e) = last_or-some d cs in rw e (ground arith)

  -- The loop of lookup_cmd_1 comes to the first command whose name is the whole word, if there is
  -- one; or else to the only one that the word abbreviates, or to none or too many.
  pub search-choose : (cs : List Cmd) → verdict (search ign w cs none 0) ≡ choose cs
  search-choose cs = rw (search-ends cs none 0) (verdict-ends (first_exact cs) (matching cs))

  first_exact-matching : (cs : List Cmd) → first_exact cs ≡ first_exact (matching cs)
  unfolding first_exact matching
  first_exact-matching [] = refl
  first_exact-matching (c ∷ cs) = elim (Bool-cases (matches ign w c)) [
    | inl e ↦ let ih = first_exact-matching cs in ground (arith, e, ih)
    | inr e ↦ rw e (first_exact-matching cs)
  ]

is_prefix_trans :
    (s t u : Text) → is_prefix s t ≡ true → is_prefix t u ≡ true → is_prefix s u ≡ true
unfolding is_prefix
is_prefix_trans [] t u h k = refl
is_prefix_trans (c ∷ s) [] u h k = absurd (ground arith)
is_prefix_trans (c ∷ s) (d ∷ t) [] h k = absurd (ground arith)
is_prefix_trans (c ∷ s) (d ∷ t) (e ∷ u) h k =
    let i = is_prefix_trans s t u (ground arith) (ground arith) in ground arith

-- A word that a longer one extends matches what that one does.
matches-longer :
    (ign : Bool) (w v : Text) (c : Cmd)
    → is_prefix w v ≡ true
    → matches ign v c ≡ true
    → matches ign w c ≡ true
matches-longer ign w v c h m = let i = is_prefix_trans w v c.name h (ground arith) in ground arith

matching-longer :
    (ign : Bool) (w v : Text) (cs : List Cmd)
    → is_prefix w v ≡ true
    → matching ign v cs ≡ matching ign v (matching ign w cs)
unfolding matching
matching-longer ign w v [] h = refl
matching-longer ign w v (c ∷ cs) h = elim (Bool-cases (matches ign w c)) [
  | inl e ↦ rw e (rw (matching-longer ign w v cs h) refl)
  | inr e ↦ elim (Bool-cases (matches ign v c)) [
    | inl f ↦ absurd (ground (arith, matches-longer ign w v c h f))
    | inr f ↦ rw (e, f) (matching-longer ign w v cs h)
  ]
]

same_word : (w v : Text) → is_prefix w v ≡ true → length v ≡ length w → w ≡ v
unfolding is_prefix
same_word [] [] h e = refl
same_word [] (d ∷ v) h e = absurd (omega arith)
same_word (c ∷ w) [] h e = absurd (omega arith)
same_word (c ∷ w) (d ∷ v) h e =
    let i = same_word w v (ground arith) (omega arith) in let j : c ≡ d = ground arith in cc

prefix_length : (w v : Text) → is_prefix w v ≡ true → length w ≤ length v
unfolding is_prefix
prefix_length [] v h = omega arith
prefix_length (c ∷ w) [] h = absurd (ground arith)
prefix_length (c ∷ w) (d ∷ v) h = omega (arith, prefix_length w v (ground arith))

only_one :
    (ign : Bool) (w : Text) (cs : List Cmd) (c : Cmd)
    → by_count ign w cs ≡ Verdict.one c
    → cs ≡ c ∷ []
only_one ign w [] c e = absurd (ground arith)
only_one ign w (d ∷ []) c e = ground arith
only_one ign w (d ∷ d' ∷ cs) c e = absurd (ground arith)

first_exact-exact :
    (ign : Bool) (w : Text) (cs : List Cmd) (c : Cmd)
    → first_exact ign w cs ≡ some c
    → (is_prefix w c.name ≡ true) × (length c.name ≡ length w)
unfolding first_exact
first_exact-exact ign w [] c e = absurd (ground arith)
first_exact-exact ign w (d ∷ cs) c e =
    elim (Bool-cases (matches ign w d && length d.name == length w)) [
      | inl f ↦ let g : d ≡ c = ground (arith, f, e) in rw (← g) (ground arith)
      | inr f ↦ first_exact-exact ign w cs c (ground (arith, f, e))
    ]

alone :
    (ign : Bool) (v : Text) (c : Cmd)
    → matches ign v c ≡ true
    → choose ign v (c ∷ []) ≡ Verdict.one c
unfolding first_exact matching
alone ign v c h = ground (arith, h)

-- The choice depends only on the commands that the word abbreviates.
choose-matching :
    (ign : Bool) (v : Text) (cs ds : List Cmd)
    → matching ign v cs ≡ matching ign v ds
    → choose ign v cs ≡ choose ign v ds
choose-matching ign v cs ds h =
    ap (λ o. choice ign v o (matching ign v cs)) (first_exact-matching ign v cs)
    ∙ ap (λ l. choice ign v (first_exact ign v l) l) h
    ∙ sym (ap (λ o. choice ign v o (matching ign v ds)) (first_exact-matching ign v ds))

matching-matches :
    (ign : Bool) (w : Text) (cs ds : List Cmd) (c : Cmd)
    → matching ign w cs ≡ c ∷ ds
    → matches ign w c ≡ true
unfolding matching
matching-matches ign w [] ds c h = absurd (ground arith)
matching-matches ign w (d ∷ cs) ds c h = elim (Bool-cases (matches ign w d)) [
  | inl f ↦ let g : d ≡ c = ground (arith, f, h) in rw (← g) f
  | inr f ↦ matching-matches ign w cs ds c (ground (arith, f, h))
]

choose-longer :
    (ign : Bool) (w v : Text) (cs : List Cmd) (c : Cmd) (o : Option Cmd)
    → first_exact ign w cs ≡ o
    → choose ign w cs ≡ Verdict.one c
    → is_prefix w v ≡ true
    → is_prefix v c.name ≡ true
    → choose ign v cs ≡ Verdict.one c
choose-longer ign w v cs c (some d) e h p q =
    let g : d ≡ c = ground (arith, e, h) in
    let x = first_exact-exact ign w cs c (e ∙ ap some g) in
    let l = prefix_length v c.name q in
    let k = prefix_length w v p in
    let i : w ≡ v = same_word w v p (omega (arith, x.1)) in rw (← i) h
choose-longer ign w v cs c none e h p q =
    let o = only_one ign w (matching ign w cs) c (ground (arith, e, h)) in
    let m = matching-matches ign w cs [] c o in
    choose-matching ign v cs (c ∷ []) (matching-longer ign w v cs p ∙ ap (matching ign v) o)
    ∙ alone ign v c (ground arith)

-- Where a word finds one command of the list, so does each longer beginning of its name.
pub search-longer :
    (ign : Bool) (w v : Text) (cs : List Cmd) (c : Cmd)
    → verdict (search ign w cs none 0) ≡ Verdict.one c
    → is_prefix w v ≡ true
    → is_prefix v c.name ≡ true
    → verdict (search ign v cs none 0) ≡ Verdict.one c
search-longer ign w v cs c h p q =
    search-choose ign v cs
    ∙ choose-longer ign w v cs c (first_exact ign w cs) refl (sym (search-choose ign w cs) ∙ h) p q
