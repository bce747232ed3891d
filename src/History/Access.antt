-- ===== src/History/Access.antt =====
-- values.c: what access_value_history gives, over the chunks read from the oldest on.
use mathlib.Core.List.{reverse, reverse-cons}
use g.Base.{
  ℕ, zero, suc, ◌+◌, ◌-◌, ◌/◌, ◌%◌, ◌≤◌, ◌<◌, ◌≡◌, inl, inr, refl, sym, ap, ◌∙◌, false, Option,
  none, some, List, [], ◌∷◌, ◌++◌, ◌==◌, ltb, length, length-append, arith, Bool-cases,
}
use g.Base.Int.{ℤ, pos, negsuc}
use g.History.{
  Chunk, History, HistoryError, Accessed, absolute, chunk_at, value_at, access_value_history,
}
use g.History.Refine.{item, item-append, item-last, Represents}

length-reverse : {A : Type 0} (xs : List A) → length (reverse xs) ≡ length xs
length-reverse [] = refl
length-reverse (x ∷ xs) =
    ap length (reverse-cons x xs)
    ∙ length-append (reverse xs) (x ∷ [])
    ∙ omega (arith, length-reverse xs)

-- The item that has as many behind it.
item-reverse :
    {A : Type 0} (xs : List A) (k d : ℕ) → k + d + 1 ≡ length xs → item k (reverse xs) ≡ item d xs
item-reverse [] k d h = absurd (omega arith)
item-reverse (x ∷ xs) k zero h =
    let last : k ≡ length (reverse xs) = omega (arith, length-reverse xs) in
    ap (item k) (reverse-cons x xs)
    ∙ ap (λ j. item j (reverse xs ++ x ∷ [])) last
    ∙ item-last (reverse xs) x
item-reverse (x ∷ xs) k (suc d) h =
    ap (item k) (reverse-cons x xs)
    ∙ item-append k (reverse xs) x (omega (arith, length-reverse xs))
    ∙ item-reverse xs k d (omega arith)

item-some : {A : Type 0} (k : ℕ) (xs : List A) → k < length xs → (x : A) × (item k xs ≡ some x)
item-some k [] h = absurd (omega arith)
item-some zero (x ∷ xs) h = (x, refl)
item-some (suc k) (x ∷ xs) h = item-some k xs (omega arith)

item-none : {A : Type 0} (k : ℕ) (xs : List A) → length xs ≤ k → item k xs ≡ none
item-none k [] h = refl
item-none zero (x ∷ xs) h = absurd (omega arith)
item-none (suc k) (x ∷ xs) h = item-none k xs (omega arith)

module _ {V : Type 0} where
  -- A slot of a chunk, if there is a chunk.
  abbrev pub slot : Option (Chunk V) → ℕ → Option V
  slot none i = none
  slot (some c) i = c i

  -- Value `k`, from 0 on, is in slot `k % 60` of chunk `k / 60`, where the chunks are counted from the
  -- oldest; the chain has no chunk beside those.
  pub record IsLaidOut (h : History V) (vs : List V) : Type 0 where
    pub counted : h.count ≡ length vs
    pub chunks : length h.chain ≡ (h.count + 59) / 60
    pub slots : (k : ℕ) → k < h.count → slot (item (k / 60) (reverse h.chain)) (k % 60) ≡ item k vs

  chunk_at-item : (k : ℕ) (cs : List (Chunk V)) → chunk_at k cs ≡ item k cs
  chunk_at-item k [] = refl
  chunk_at-item zero (c ∷ cs) = refl
  chunk_at-item (suc k) (c ∷ cs) = chunk_at-item k cs

  value_at-slot :
      (h : History V) (k : ℕ)
      → length h.chain ≡ (h.count + 59) / 60
      → k < h.count
      → value_at k h ≡ Accessed.found (slot (item (k / 60) (reverse h.chain)) (k % 60))
  unfolding value_at
  value_at-slot h k e hk =
      let d = (h.count - 1) / 60 - k / 60 in
      let place : item (k / 60) (reverse h.chain) ≡ item d h.chain =
        item-reverse h.chain (k / 60) d (omega (arith, e, hk)) in
      let (c, f) = item-some d h.chain (omega (arith, e, hk)) in
      rw (chunk_at-item d h.chain, place, f) refl

  -- The two ways to say what a history holds agree.
  pub Represents-IsLaidOut : (h : History V) (vs : List V) → Represents h vs → IsLaidOut h vs
  Represents-IsLaidOut h vs r = record {
    counted = r.counted;
    chunks = r.chunks;
    slots = λ k hk.
        ap (λ a. elim a [ Accessed.found o ↦ o | _ ↦ none ])
          (sym (value_at-slot h k r.chunks hk) ∙ r.holds k hk);
  }

  at_slot :
      (h : History V) (vs : List V) (k : ℕ)
      → IsLaidOut h vs
      → k < h.count
      → value_at k h ≡ Accessed.found (item k vs)
  at_slot h vs k l hk = value_at-slot h k l.chunks hk ∙ ap Accessed.found (l.slots k hk)

  -- The value of a list at a place, or an error.
  abbrev pub value_or : HistoryError → Option V → Accessed V
  value_or e none = Accessed.raises e
  value_or e (some v) = Accessed.found (some v)

  -- What a number means for the values, oldest first: 0 is the latest, a positive number counts from
  -- the oldest, which is 1, and a negative one back from the latest.
  abbrev pub look : ℤ → List V → Accessed V
  look (pos zero) vs = value_or HistoryError.empty (item 0 (reverse vs))
  look (pos (suc n)) vs = value_or HistoryError.not_reached (item n vs)
  look (negsuc n) vs = value_or HistoryError.too_far (item (n + 1) (reverse vs))

  value_at-or :
      (e : HistoryError) (h : History V) (vs : List V) (k : ℕ) (o : Option V)
      → IsLaidOut h vs
      → k < h.count
      → o ≡ item k vs
      → value_at k h ≡ value_or e o
  value_at-or e h vs k o l hk p =
      let (v, f) = item-some k vs (omega (arith, hk, l.counted)) in
      at_slot h vs k l hk ∙ ap Accessed.found f ∙ sym (ap (value_or e) (p ∙ f))

  no_value :
      (e : HistoryError) (xs : List V) (k : ℕ)
      → length xs ≤ k
      → Accessed.raises e ≡ value_or e (item k xs)
  no_value e xs k h = sym (ap (value_or e) (item-none k xs h))

  -- Where value `k` of the history is in its slot, access_value_history of any number gives the value
  -- that the number means for the list, or its error: of the empty history for 0, of a number that is
  -- not reached for a positive one, and of going back too far for a negative one.
  pub access_value_history-look :
      (num : ℤ) (h : History V) (vs : List V)
      → IsLaidOut h vs
      → access_value_history num h ≡ look num vs
  unfolding access_value_history absolute
  access_value_history-look (pos zero) h vs l = elim (Bool-cases (h.count == 0)) [
    | inl e ↦
        rw (access_value_history, e)
          (no_value HistoryError.empty (reverse vs) 0
            (ground (arith, e, l.counted, length-reverse vs)))
    | inr e ↦
        let some_value : 0 < h.count = ground (arith, e) in
        let reached : ltb h.count h.count ≡ false = ground arith in
        rw (access_value_history, e, reached)
          (value_at-or HistoryError.empty h vs (h.count - 1) _ l (omega arith)
            (item-reverse vs 0 (h.count - 1) (omega (arith, some_value, l.counted))))
  ]
  access_value_history-look (pos (suc n)) h vs l = elim (Bool-cases (ltb h.count (suc n))) [
    | inl e ↦
        rw (access_value_history, e)
          (no_value HistoryError.not_reached vs n (ground (arith, e, l.counted)))
    | inr e ↦
        let reached : n < h.count = ground (arith, e) in
        let same : suc n - 1 ≡ n = omega arith in
        rw (access_value_history, e, same)
          (value_at-or HistoryError.not_reached h vs n _ l reached refl)
  ]
  access_value_history-look (negsuc n) h vs l = elim (Bool-cases (ltb (n + 1) h.count)) [
    | inl e ↦
        let within : n + 1 < h.count = ground (arith, e) in
        let reached : ltb h.count (h.count - (n + 1)) ≡ false = ground arith in
        rw (access_value_history, e, reached)
          (value_at-or HistoryError.too_far h vs (h.count - (n + 1) - 1) _ l (omega arith)
            (item-reverse vs (n + 1) (h.count - (n + 1) - 1) (omega (arith, within, l.counted))))
    | inr e ↦
        rw (access_value_history, e)
          (no_value HistoryError.too_far (reverse vs) (n + 1)
            (ground (arith, e, l.counted, length-reverse vs)))
  ]
