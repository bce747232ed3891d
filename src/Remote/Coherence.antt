-- ===== src/Remote/Coherence.antt =====
-- remmem.c: the cache agrees with the memory of the target.
use g.Base.{
  ℕ, ◌+◌, ◌%◌, ◌<◌, ◌≤◌, ◌≡◌, inl, inr, refl, sym, ap, ◌∙◌, Bool, true, false, Option, none, some,
  List, [], ◌∷◌, ◌==◌, leb, ltb, ◌&&◌, not, arith, Bool-cases, Option-cases,
}
use g.Remote.{
  Monitor, Line, Remote, in_rom, in_sram, assemble, line_of, holds, find_line, with_value, byte_of,
  forced_read_remote, read_line, read_remote, is_size,
}

module _ (mon : Monitor) where
  -- The line is what an upload of its block gives.
  pub record IsFresh (s : mon.State) (m : Line) : Type 0 where
    pub aligned : m.addr % 128 ≡ 0
    pub block : ℕ → ℕ
    pub uploaded : mon.upload s m.usmode m.addr 128 ≡ some block
    pub same : (i : ℕ) → i < 128 → block i ≡ m.values i

  abbrev pub IsCoherent : mon.State → List Line → Type 0
  IsCoherent s [] = Unit
  IsCoherent s (m ∷ ms) = IsFresh s m × (find_line m.addr m.usmode ms ≡ none) × IsCoherent s ms

  find_line-IsFresh :
      (s : mon.State) (addr usmode : ℕ) (ms : List Line) (m : Line)
      → IsCoherent s ms
      → find_line addr usmode ms ≡ some m
      → IsFresh s m × (holds addr usmode m ≡ true)
  unfolding find_line
  find_line-IsFresh s addr usmode [] m c h = absurd (ground arith)
  find_line-IsFresh s addr usmode (l ∷ ms) m c h = elim (Bool-cases (holds addr usmode l)) [
    | inl e ↦ let g : l ≡ m = ground (arith, e, h) in rw (← g) (c.0, e)
    | inr e ↦ find_line-IsFresh s addr usmode ms m c.2 (ground (arith, e, h))
  ]

  assemble_same :
      (size : ℕ) (p q : ℕ → ℕ)
      → ((i : ℕ) → i < size → p i ≡ q i)
      → assemble size p ≡ assemble size q
  assemble_same size p q h = elim (Bool-cases (size == 1)) [
    | inl e ↦ rw e (ap some (h 0 (ground arith)))
    | inr e ↦ rw e (elim (Bool-cases (size == 2)) [
      | inl f ↦ rw f (ap some (omega (arith, h 0 (ground arith), h 1 (ground arith))))
      | inr f ↦ rw f (elim (Bool-cases (size == 4)) [
        | inl k ↦ rw k (
            ap some (
              omega (
                arith,
                h 0 (ground arith),
                h 1 (ground arith),
                h 2 (ground arith),
                h 3 (ground arith),
              )))
        | inr k ↦ rw k refl
      ])
    ])
  ]

  -- The value and the error flag of a read.
  abbrev pub seen : Option (ℕ × Remote mon.State) → Option (ℕ × Bool)
  seen none = none
  seen (some (w, r)) = some (w, r.remote_errno)

  -- The target is as it was, and the cache agrees with it.
  abbrev pub Keeps : mon.State → Option (ℕ × Remote mon.State) → Type 0
  Keeps s none = Unit
  Keeps s (some (w, r)) = (r.target ≡ s) × IsCoherent s r.mem_cache

  with_value-seen :
      (r r' : Remote mon.State) (o : Option ℕ)
      → r'.remote_errno ≡ r.remote_errno
      → seen (with_value r' o) ≡ seen (with_value r o)
  with_value-seen r r' none e = refl
  with_value-seen r r' (some w) e = ap (λ x. some (w, x)) e

  with_value-Keeps :
      (s : mon.State) (r : Remote mon.State) (o : Option ℕ)
      → r.target ≡ s
      → IsCoherent s r.mem_cache
      → Keeps s (with_value r o)
  with_value-Keeps s r none e c = tt
  with_value-Keeps s r (some w) e c = (e, c)

  pub fits_line : (addr size : ℕ) → is_size size ≡ true → addr % size ≡ 0 → addr % 128 + size ≤ 128
  fits_line addr size h a = elim (Bool-cases (size == 1)) [
    | inl e ↦ ground arith
    | inr e ↦ elim (Bool-cases (size == 2)) [
      | inl f ↦ let g : size ≡ 2 = ground arith in let k : addr % 2 ≡ 0 = rw (← g) a in omega arith
      | inr f ↦ let g : size ≡ 4 = ground arith in let k : addr % 4 ≡ 0 = rw (← g) a in omega arith
    ]
  ]

  -- A fresh line gives what an upload of the bytes themselves does.
  read_line-seen :
      (heap : ℕ → ℕ) (addr size usmode : ℕ) (m : Line) (r : Remote mon.State) (cache : List Line)
      → is_size size ≡ true
      → addr % size ≡ 0
      → IsFresh r.target m
      → m.addr ≡ line_of addr
      → m.usmode ≡ usmode
      → seen (read_line mon heap addr size m (record r { mem_cache = cache }))
        ≡ seen (forced_read_remote mon addr size usmode r)
  unfolding read_line forced_read_remote
  read_line-seen heap addr size usmode m r cache hs ha fresh ea em =
      let part =
        mon.upload-part r.target m.usmode m.addr 128 (addr % 128) size fresh.block fresh.uploaded
          (fits_line addr size hs ha) in
      let x : m.addr + addr % 128 ≡ addr = omega arith in
      let y : (addr % size == 0) ≡ true = ground arith in
      let up : mon.upload r.target usmode addr size ≡ some part.0 = rw (← em, ← x) part.1 in
      let same : assemble size (λ i. byte_of heap m (addr % 128 + i)) ≡ assemble size part.0 =
        assemble_same size (λ i. byte_of heap m (addr % 128 + i)) part.0
          (λ i h.
            let z : ltb (addr % 128 + i) 128 ≡ true =
              ground (arith, h, fits_line addr size hs ha) in
            rw z (
              sym (
                part.2 i h
                ∙ fresh.same (addr % 128 + i) (omega (arith, h, fits_line addr size hs ha))))) in
      rw (y, up, same)
        (with_value-seen (record r { remote_errno = false }) _ (assemble size part.0) refl)

  forced_read_remote-Keeps :
      (addr size usmode : ℕ) (r : Remote mon.State)
      → IsCoherent r.target r.mem_cache
      → Keeps r.target (forced_read_remote mon addr size usmode r)
  unfolding forced_read_remote
  forced_read_remote-Keeps addr size usmode r c = elim (Bool-cases (addr % size == 0)) [
    | inr e ↦ rw e tt
    | inl e ↦ rw e (elim (Option-cases (mon.upload r.target usmode addr size)) [
      | inl f ↦ rw f (refl, c)
      | inr (b, f) ↦
          rw f
            (with_value-Keeps r.target (record r { remote_errno = false }) (assemble size b) refl c)
    ])
  ]

  pub holds-eq :
      (addr usmode : ℕ) (m : Line)
      → holds addr usmode m ≡ true
      → (m.addr ≡ line_of addr) × (m.usmode ≡ usmode)
  holds-eq addr usmode m h = (ground (arith, h), ground (arith, h))

  read_line-Keeps :
      {s : mon.State} (heap : ℕ → ℕ) (addr size : ℕ) (m : Line) (r : Remote mon.State)
      → r.target ≡ s
      → IsCoherent s r.mem_cache
      → Keeps s (read_line mon heap addr size m r)
  unfolding read_line
  read_line-Keeps {s} heap addr size m r e c =
      with_value-Keeps s (record r { remote_errno = false })
        (assemble size (λ i. byte_of heap m (addr % 128 + i))) e c

  pub find_line-line :
      (addr usmode : ℕ) (ms : List Line)
      → find_line (line_of addr) usmode ms ≡ find_line addr usmode ms
  unfolding find_line
  find_line-line addr usmode [] = refl
  find_line-line addr usmode (m ∷ ms) =
      let e : line_of (line_of addr) ≡ line_of addr = omega arith in
      rw (e, find_line-line addr usmode ms)

  -- Where the cache agrees with the target, an aligned read through it gives the value and the error
  -- flag of a read that goes to the target, whether the line is cached, is filled first or cannot be
  -- read or cached; and the cache still agrees with the target, which is as it was.
  pub read_remote-seen :
      (motomode : Bool) (heap : ℕ → ℕ) (addr size usmode : ℕ) (r : Remote mon.State)
      → is_size size ≡ true
      → addr % size ≡ 0
      → IsCoherent r.target r.mem_cache
      → let read = read_remote mon motomode heap addr size usmode r in
        (seen read ≡ seen (forced_read_remote mon addr size usmode r)) × Keeps r.target read
  unfolding read_remote
  read_remote-seen motomode heap addr size usmode r hs ha c =
      elim (Bool-cases
        (leb 0x80000000 addr && not (in_rom motomode addr) && not (in_sram motomode addr))) [
          | inl e ↦ rw e (refl, forced_read_remote-Keeps addr size usmode r c)
          | inr e ↦ rw e (elim (Option-cases (find_line addr usmode r.mem_cache)) [
            | inr (m, f) ↦
                let v = find_line-IsFresh r.target addr usmode r.mem_cache m c f in
                let q = holds-eq addr usmode m v.1 in
                rw f (
                  read_line-seen heap addr size usmode m r r.mem_cache hs ha v.0 q.0 q.1,
                  read_line-Keeps heap addr size m r refl c,
                )
            | inl f ↦ rw f (elim (Option-cases (mon.upload r.target usmode (line_of addr) 128)) [
              | inl g ↦ rw g (refl, forced_read_remote-Keeps addr size usmode r c)
              | inr (b, g) ↦
                  let m : Line = record { usmode = usmode; addr = line_of addr; values = b } in
                  let fresh : IsFresh r.target m = record {
                    aligned = omega arith;
                    block = b;
                    uploaded = g;
                    same = λ i h. refl;
                  } in
                  rw g (
                    read_line-seen heap addr size usmode m r (m ∷ r.mem_cache) hs ha fresh refl
                        refl,
                    read_line-Keeps heap addr size m (record r { mem_cache = m ∷ r.mem_cache }) refl
                        (fresh, find_line-line addr usmode r.mem_cache ∙ f, c),
                  )
            ])
          ])
        ]
