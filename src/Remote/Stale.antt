-- ===== src/Remote/Stale.antt =====
-- remmem.c: write_remote and the cache: where the cache still agrees with the target afterwards.
use g.Base.{
  ℕ, ◌+◌, ◌-◌, ◌%◌, ◌^◌, ◌<◌, ◌≤◌, ◌≡◌, ◌≢◌, inl, inr, refl, sym, ap, ◌∙◌, Bool, true, false, none,
  some, List, [], ◌∷◌, ◌==◌, leb, ltb, ◌&&◌, if◌then◌else◌, arith, Bool-cases, Option-cases,
}
use g.Remote.{
  sent_byte, Monitor, Line, Remote, line_of, holds, find_line, store, write_thru_mem_cache, Written,
  is_size, mode_of, write_remote, read_remote, read_line, assemble, byte_of, with_value,
}
use g.Remote.Coherence.{IsFresh, IsCoherent, fits_line, holds-eq, find_line-line, seen}

find_line-write_thru :
    (big : Bool) (addr w size mode b u : ℕ) (ms : List Line)
    → find_line b u ms ≡ none
    → find_line b u (write_thru_mem_cache big addr w size mode ms) ≡ none
unfolding find_line write_thru_mem_cache
find_line-write_thru big addr w size mode b u [] h = refl
find_line-write_thru big addr w size mode b u (m ∷ ms) h = elim (Bool-cases (holds b u m)) [
  | inl e ↦ absurd (ground (arith, e, h))
  | inr e ↦ elim (Bool-cases (holds addr mode m)) [
    | inl f ↦ rw f (ground (arith, e, h))
    | inr f ↦ rw (f, e) (find_line-write_thru big addr w size mode b u ms (ground (arith, e, h)))
  ]
]

-- An aligned access does not reach into another line.
outside :
    (addr size b i : ℕ)
    → addr % 128 + size ≤ 128
    → b % 128 ≡ 0
    → i < 128
    → b ≢ line_of addr
    → (leb addr (b + i) && ltb (b + i) (addr + size)) ≡ false
outside addr size b i f g hi ne = ground arith

in_line :
    (addr size w b i x y : ℕ)
    → b ≡ line_of addr
    → x ≡ y
    → (if leb addr (b + i) && ltb (b + i) (addr + size) then sent_byte size w (b + i - addr) else x)
      ≡ (if leb (addr % 128) i && ltb i (addr % 128 + size)
          then sent_byte size w (i - addr % 128)
          else y)
in_line addr size w b i x y e h =
    let p : leb addr (b + i) ≡ leb (addr % 128) i = ground arith in
    let q : ltb (b + i) (addr + size) ≡ ltb i (addr % 128 + size) = ground arith in
    let r : b + i - addr ≡ i - addr % 128 = omega arith in rw (p, q, r, h)

module _ (mon : Monitor) (s s' : mon.State) (mode addr size w : ℕ)
    (ok : mon.download s mode addr size w ≡ some s') (hs : is_size size ≡ true)
    (ha : addr % size ≡ 0)
    (apart : (u b n : ℕ) → u ≢ mode → mon.upload s' u b n ≡ mon.upload s u b n) where
  IsFresh-other : (m : Line) → holds addr mode m ≡ false → IsFresh mon s m → IsFresh mon s' m
  IsFresh-other m h fresh = elim (Bool-cases (m.usmode == mode)) [
    | inr e ↦ record {
      aligned = fresh.aligned;
      block = fresh.block;
      uploaded = apart m.usmode m.addr 128 (ground (arith, e)) ∙ fresh.uploaded;
      same = fresh.same;
    }
    | inl e ↦
        let em : m.usmode ≡ mode = ground (arith, e) in
        let ne : m.addr ≢ line_of addr = ground (arith, e, h) in
        let law =
          mon.download-upload s s' mode addr size w m.addr 128 fresh.block ok
            (rw (← em) fresh.uploaded) in
        record {
          aligned = fresh.aligned;
          block = law.0;
          uploaded = rw em law.1;
          same = λ i hi.
              let f = fits_line mon addr size hs ha in
              let g = fresh.aligned in
              let out : (leb addr (m.addr + i) && ltb (m.addr + i) (addr + size)) ≡ false =
                outside addr size m.addr i f g hi ne in
              law.2 i ∙ rw out (fresh.same i hi);
        }
  ]

  IsFresh-written :
      (m : Line)
      → holds addr mode m ≡ true
      → IsFresh mon s m
      → IsFresh mon s' (record m { values = store true (addr % 128) size w m.values })
  IsFresh-written m h fresh =
      let q = holds-eq mon addr mode m h in
      let law =
        mon.download-upload s s' mode addr size w m.addr 128 fresh.block ok
          (rw (← q.1) fresh.uploaded) in
      record {
        aligned = fresh.aligned;
        block = law.0;
        uploaded = rw q.1 law.1;
        same = λ i hi.
            law.2 i
            ∙ in_line addr size w m.addr i (fresh.block i) (m.values i) q.0 (fresh.same i hi);
      }

  others-IsCoherent :
      (ms : List Line) → find_line addr mode ms ≡ none → IsCoherent mon s ms → IsCoherent mon s' ms
  unfolding find_line
  others-IsCoherent [] h c = tt
  others-IsCoherent (m ∷ ms) h c = elim (Bool-cases (holds addr mode m)) [
    | inl e ↦ absurd (ground (arith, e, h))
    | inr e ↦ (IsFresh-other m e c.0, c.1, others-IsCoherent ms (ground (arith, e, h)) c.2)
  ]

  write_thru-IsCoherent :
      (ms : List Line)
      → IsCoherent mon s ms
      → IsCoherent mon s' (write_thru_mem_cache true addr w size mode ms)
  unfolding write_thru_mem_cache
  write_thru-IsCoherent [] c = tt
  write_thru-IsCoherent (m ∷ ms) c = elim (Bool-cases (holds addr mode m)) [
    | inl e ↦
        let q = holds-eq mon addr mode m e in
        rw e (
          IsFresh-written m e c.0,
          c.1,
          others-IsCoherent ms
              (sym (find_line-line mon addr mode ms)
                ∙ ap (λ a. find_line a mode ms) (sym q.0)
                ∙ ap (λ u. find_line m.addr u ms) (sym q.1)
                ∙ c.1)
              c.2,
        )
    | inr e ↦ rw e (
      IsFresh-other m e c.0,
      find_line-write_thru true addr w size mode m.addr m.usmode ms c.1,
      write_thru-IsCoherent ms c.2,
    )
  ]

-- Where write_remote returns, the cache agrees with the target.
abbrev pub Agrees : (mon : Monitor) → Written mon.State → Type 0
Agrees mon (Written.returns r) = IsCoherent mon r.target r.mem_cache
Agrees mon (Written.raises r) = Unit

-- On a big-endian host, where the cache agrees with the target before an aligned write, and a
-- download in one mode does not change what the other modes read, the cache agrees with the target
-- after a write_remote that returns.
pub write_remote-Agrees :
    (mon : Monitor) (psr_mode addr w size usmode : ℕ) (r : Remote mon.State)
    → addr % size ≡ 0
    → IsCoherent mon r.target r.mem_cache
    → ((s' : mon.State) (u b n : ℕ)
        → mon.download r.target (mode_of psr_mode usmode) addr size w ≡ some s'
        → u ≢ mode_of psr_mode usmode
        → mon.upload s' u b n ≡ mon.upload r.target u b n)
    → Agrees mon (write_remote mon true psr_mode addr w size usmode r)
unfolding write_remote
write_remote-Agrees mon psr_mode addr w size usmode r ha c apart =
    let mode = mode_of psr_mode usmode in
    elim (Bool-cases (is_size size)) [
      | inr e ↦ rw e tt
      | inl e ↦ rw e (elim (Option-cases (mon.download r.target mode addr size w)) [
        | inl f ↦ rw f tt
        | inr (s', f) ↦ rw f (
            write_thru-IsCoherent mon r.target s' mode addr size w f e ha
              (λ u b n ne. apart s' u b n f ne) r.mem_cache c)
      ])
    ]

find_line-written :
    (big : Bool) (addr w size mode : ℕ) (ms : List Line) (m : Line)
    → find_line addr mode ms ≡ some m
    → find_line addr mode (write_thru_mem_cache big addr w size mode ms)
      ≡ some (record m { values = store big (addr % 128) size w m.values })
unfolding find_line write_thru_mem_cache
find_line-written big addr w size mode [] m h = absurd (ground arith)
find_line-written big addr w size mode (l ∷ ms) m h = elim (Bool-cases (holds addr mode l)) [
  | inl e ↦ let g : l ≡ m = ground (arith, e, h) in rw (← g) (rw e (rw e refl))
  | inr e ↦ rw e (rw e (find_line-written big addr w size mode ms m (ground (arith, e, h))))
]

byte_of-stored :
    (heap : ℕ → ℕ) (m : Line) (o w i : ℕ)
    → o + 4 ≤ 128
    → i < 4
    → byte_of heap (record m { values = store true o 4 w m.values }) (o + i) ≡ sent_byte 4 w i
byte_of-stored heap m o w i h hi =
    let a : ltb (o + i) 128 ≡ true = ground arith in
    let b : (leb o (o + i) && ltb (o + i) (o + 4)) ≡ true = ground arith in
    let c : o + i - o ≡ i = omega arith in rw (a, b, c)

assemble-stored :
    (heap : ℕ → ℕ) (m : Line) (o w : ℕ)
    → o + 4 ≤ 128
    → w < 2 ^ 32
    → assemble 4 (λ i. byte_of heap (record m { values = store true o 4 w m.values }) (o + i))
      ≡ some w
assemble-stored heap m o w h hw =
    let b0 = byte_of-stored heap m o w 0 h (omega arith) in
    let b1 = byte_of-stored heap m o w 1 h (omega arith) in
    let b2 = byte_of-stored heap m o w 2 h (omega arith) in
    let b3 = byte_of-stored heap m o w 3 h (omega arith) in ap some (omega (arith, b0, b1, b2, b3))

-- A word of 4 bytes that the target refuses to store, at an aligned address below 0x80000000 in a
-- line that is cached, where the host is big-endian: write_remote ends in an error and the target is
-- as it was, but read_remote of the address then gives the refused word, with no error.
pub write_remote-stale :
    (mon : Monitor) (motomode : Bool) (heap : ℕ → ℕ) (psr_mode addr w usmode : ℕ)
    (r : Remote mon.State) (m : Line)
    → let mode = mode_of psr_mode usmode in
      addr < 0x80000000
      → addr % 4 ≡ 0
      → w < 2 ^ 32
      → find_line addr mode r.mem_cache ≡ some m
      → mon.download r.target mode addr 4 w ≡ none
      → (r' : Remote mon.State) × (write_remote mon true psr_mode addr w 4 usmode r
          ≡ Written.raises r')
        × (r'.target ≡ r.target)
        × (seen mon (read_remote mon motomode heap addr 4 mode r') ≡ some (w, false))
unfolding write_remote read_remote read_line
write_remote-stale mon motomode heap psr_mode addr w usmode r m hlo ha hw hm hd =
    let mode = mode_of psr_mode usmode in
    let cache = write_thru_mem_cache true addr w 4 mode r.mem_cache in
    let b : leb 0x80000000 addr ≡ false = ground arith in
    (
      record r { mem_cache = cache; remote_errno = true },
      rw hd,
      refl,
      rw (b, find_line-written true addr w 4 mode r.mem_cache m hm)
          (ap (λ o. seen mon (with_value (record r { mem_cache = cache; remote_errno = false }) o))
            (assemble-stored heap m (addr % 128) w (omega arith) hw)),
    )
