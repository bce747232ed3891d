-- ===== src/History/Refine.antt =====
-- values.c: the chunks are a list of values.
use g.Base.{
  ℕ, zero, suc, ◌+◌, ◌-◌, ◌/◌, ◌%◌, ◌<◌, ◌≡◌, ◌≢◌, inl, inr, refl, sym, ap, ◌∙◌, Bool, true, false,
  Option, none, some, List, [], ◌∷◌, ◌++◌, ◌==◌, if◌then◌else◌, length, length-append, arith,
  Bool-cases,
}
use g.Base.Int.{pos}
use g.History.{
  Chunk, History, store_first, new_chunk, record_latest_value, Accessed, chunk_at, value_in,
  value_at,
}

module _ {V : Type 0} where
  abbrev pub item : ℕ → List V → Option V
  item k [] = none
  item zero (v ∷ vs) = some v
  item (suc k) (v ∷ vs) = item k vs

  -- The history holds the values of a list, the oldest first.
  pub record Represents (h : History V) (vs : List V) : Type 0 where
    pub counted : h.count ≡ length vs
    pub chunks : length h.chain ≡ (h.count + 59) / 60
    pub holds : (k : ℕ) → k < h.count → value_at k h ≡ Accessed.found (item k vs)

  pub item-append :
      (k : ℕ) (vs : List V) (v : V) → k < length vs → item k (vs ++ v ∷ []) ≡ item k vs
  item-append k [] v h = absurd (omega arith)
  item-append zero (w ∷ vs) v h = refl
  item-append (suc k) (w ∷ vs) v h = item-append k vs v (omega arith)

  pub item-last : (vs : List V) (v : V) → item (length vs) (vs ++ v ∷ []) ≡ some v
  item-last [] v = refl
  item-last (w ∷ vs) v = item-last vs v

  -- A chunk that is not the first is as it was.
  chunk_at-store_first :
      (i d : ℕ) (v : V) (cs : List (Chunk V))
      → chunk_at (suc d) (store_first i v cs) ≡ chunk_at (suc d) cs
  chunk_at-store_first i d v [] = refl
  chunk_at-store_first i d v (c ∷ cs) = refl

  first_chunk :
      (i j : ℕ) (v : V) (cs : List (Chunk V))
      → 0 < length cs
      → value_in j (chunk_at 0 (store_first i v cs))
        ≡ (if i == j then Accessed.found (some v) else value_in j (chunk_at 0 cs))
  first_chunk i j v [] h = absurd (omega arith)
  first_chunk i j v (c ∷ cs) h = ground arith

  -- The history once a value is stored in the slot behind the last one.
  abbrev stored : V → History V → History V
  stored v h = record {
    chain =
        store_first (h.count % 60) v (if h.count % 60 == 0 then new_chunk ∷ h.chain else h.chain);
    count = h.count + 1;
  }

  stored_new_chunk :
      (v : V) (h : History V) (k : ℕ)
      → h.count % 60 ≡ 0
      → k < h.count + 1
      → value_at k (stored v h) ≡ (if h.count == k then Accessed.found (some v) else value_at k h)
  unfolding value_at
  stored_new_chunk v h k z hk =
      let y : (h.count % 60 == 0) ≡ true = ground arith in
      elim (Bool-cases (h.count == k)) [
        | inl e ↦
            let p : (h.count + 1 - 1) / 60 - k / 60 ≡ 0 = ground arith in
            let q : (h.count % 60 == k % 60) ≡ true = ground arith in rw (y, e, p, q)
        | inr e ↦
            let n : h.count ≢ k = ground arith in
            let p : (h.count + 1 - 1) / 60 - k / 60 ≡ suc ((h.count - 1) / 60 - k / 60) =
              omega arith in
            rw (y, e, p)
      ]

  stored_same_chunk :
      (v : V) (h : History V) (k : ℕ)
      → h.count % 60 ≢ 0
      → 0 < length h.chain
      → k < h.count + 1
      → value_at k (stored v h) ≡ (if h.count == k then Accessed.found (some v) else value_at k h)
  unfolding value_at
  stored_same_chunk v h k z l hk =
      let y : (h.count % 60 == 0) ≡ false = ground arith in
      let p : (h.count + 1 - 1) / 60 - k / 60 ≡ (h.count - 1) / 60 - k / 60 = omega arith in
      elim (Bool-cases ((h.count - 1) / 60 - k / 60 == 0)) [
        | inl e ↦
            let o : (h.count - 1) / 60 - k / 60 ≡ 0 = ground arith in
            let q : (h.count % 60 == k % 60) ≡ (h.count == k) = ground arith in
            rw (y, p, o) (first_chunk (h.count % 60) (k % 60) v h.chain l ∙ rw q refl)
        | inr e ↦
            let o : (h.count - 1) / 60 - k / 60 ≡ suc ((h.count - 1) / 60 - k / 60 - 1) =
              ground arith in
            let q : (h.count == k) ≡ false = ground arith in
            rw (y, p, q, o)
              (ap (value_in (k % 60))
                (chunk_at-store_first (h.count % 60) ((h.count - 1) / 60 - k / 60 - 1) v h.chain))
      ]

  length-store_first :
      (i : ℕ) (v : V) (cs : List (Chunk V)) → length (store_first i v cs) ≡ length cs
  length-store_first i v [] = refl
  length-store_first i v (c ∷ cs) = refl

  length-stored :
      (v : V) (h : History V)
      → length h.chain ≡ (h.count + 59) / 60
      → length (stored v h).chain ≡ (h.count + 60) / 60
  length-stored v h e = elim (Bool-cases (h.count % 60 == 0)) [
    | inl z ↦
        let y : h.count % 60 ≡ 0 = ground arith in
        rw z (length-store_first (h.count % 60) v (new_chunk ∷ h.chain) ∙ omega (arith, e, y))
    | inr z ↦
        let y : h.count % 60 ≢ 0 = ground arith in
        rw z (length-store_first (h.count % 60) v h.chain ∙ omega (arith, e, y))
  ]

  stored-value_at :
      (v : V) (h : History V) (k : ℕ)
      → length h.chain ≡ (h.count + 59) / 60
      → k < h.count + 1
      → value_at k (stored v h) ≡ (if h.count == k then Accessed.found (some v) else value_at k h)
  stored-value_at v h k e hk = elim (Bool-cases (h.count % 60 == 0)) [
    | inl z ↦ stored_new_chunk v h k (ground arith) hk
    | inr z ↦
        let y : h.count % 60 ≢ 0 = ground arith in
        stored_same_chunk v h k y (omega (arith, e, y)) hk
  ]

  held :
      (v : V) (h : History V) (vs : List V) (k : ℕ)
      → Represents h vs
      → k < h.count + 1
      → (if h.count == k then Accessed.found (some v) else value_at k h)
        ≡ Accessed.found (item k (vs ++ v ∷ []))
  held v h vs k r hk = elim (Bool-cases (h.count == k)) [
    | inl e ↦
        let p : k ≡ length vs = ground (arith, e, r.counted) in
        rw (e, p) (ap Accessed.found (sym (item-last vs v)))
    | inr e ↦
        let p : k < h.count = ground (arith, e) in
        rw e
          (r.holds k p ∙ ap Accessed.found (sym (item-append k vs v (omega (arith, p, r.counted)))))
  ]

  -- Where the history holds a list of values, record_latest_value of a value that is valid makes it
  -- hold the list with the value at its end, and returns the new number of values.
  pub record_latest_value-Represents :
      (invalid : V → Bool) (v : V) (h : History V) (vs : List V)
      → invalid v ≡ false
      → Represents h vs
      → let (n, h') = record_latest_value invalid v h in
        (n ≡ pos (length vs + 1)) × Represents h' (vs ++ v ∷ [])
  unfolding record_latest_value
  record_latest_value-Represents invalid v h vs i r = rw i (
    ap (λ n. pos (n + 1)) r.counted,
    record {
      counted = omega (arith, r.counted, length-append vs (v ∷ []));
      chunks = length-stored v h r.chunks ∙ omega arith;
      holds = λ k hk. stored-value_at v h k r.chunks hk ∙ held v h vs k r hk;
    },
  )
