-- ===== src/Bitfield/Places.antt =====
-- values.c: the bits of a word that modify_field changes.
use Prim.Native.Nat.{bit_and}
use native.Mathlib.Nat.{pow-le-pow_right}
use g.Base.{
  ℕ, ◌+◌, ◌-◌, ◌*◌, ◌^◌, ◌≤◌, ◌<◌, ◌≡◌, ◌⊎◌, inl, inr, refl, sym, ap, ◌∙◌, Bool, true, false, ltb,
  leb, not, ◌&&◌, ◌||◌, if◌then◌else◌, arith,
}
use g.Base.Words.{shift_left}
use g.Base.Digits.{
  test, test-and, test-or, test-zero, test-shift_left, test-remainder, test-complement, test-ones,
}
use g.Bitfield.{bits_mask, complement, put_field}

pub mask-below : (k : ℕ) → k < 32 → 2 ^ k - 1 < 2 ^ 32
mask-below k h =
    let below : 2 ^ k ≤ 2 ^ 32 = pow-le-pow_right (omega arith) {j = 32} (omega arith) in
    omega arith

first_clear : (a b : Bool) → a && b ≡ false → b ≡ true → a ≡ false
first_clear false b e h = refl
first_clear true b e h = sym h ∙ e

-- A value that is not rejected has no bits above the field.
pub fits-test :
    (v n j : ℕ)
    → n < 32
    → j < 32
    → n ≤ j
    → bit_and v (complement (bits_mask n)) ≡ 0
    → test j v ≡ false
fits-test v n j h hj k e =
    let none_here : test j (bit_and v (complement (bits_mask n))) ≡ false =
      ap (test j) e ∙ test-zero j in
    let split = test-and j v (complement (bits_mask n)) in
    let outside = test-complement 32 j (bits_mask n) (mask-below n h) hj in
    let ones = test-ones n j in
    let above : ltb j n ≡ false = ground arith in
    let open_bit : test j (complement (bits_mask n)) ≡ true = outside ∙ ap not (ones ∙ above) in
    first_clear (test j v) _ (sym split ∙ none_here) open_bit

places : (s n j : ℕ) → (j < s) ⊎ (((s ≤ j) × (j < s + n)) ⊎ (s + n ≤ j))
places s n j = omega arith

-- A bit of the field's mask in its place.
mask-test :
    (s n j : ℕ) → test j (shift_left (bits_mask n) s) ≡ ltb j 32 && (leb s j && ltb (j - s) n)
mask-test s n j =
    test-remainder 32 j (bits_mask n * 2 ^ s)
    ∙ ap (λ x. ltb j 32 && x)
        (test-shift_left s j (bits_mask n) ∙ ap (λ x. leb s j && x) (test-ones n (j - s)))

value-test : (s v j : ℕ) → test j (shift_left v s) ≡ ltb j 32 && (leb s j && test (j - s) v)
value-test s v j = test-remainder 32 j (v * 2 ^ s) ∙ ap (λ x. ltb j 32 && x) (test-shift_left s j v)

put_field-bits :
    (w v s n j : ℕ)
    → j < 32
    → test j (put_field w v s n)
      ≡ test j w && not (ltb j 32 && (leb s j && ltb (j - s) n))
        || ltb j 32 && (leb s j && test (j - s) v)
put_field-bits w v s n j h =
    let m = shift_left (bits_mask n) s in
    test-or j (bit_and w (complement m)) (shift_left v s)
    ∙ ap (λ x. x || test j (shift_left v s)) (test-and j w (complement m))
    ∙ ap (λ x. test j w && x || test j (shift_left v s)) (test-complement 32 j m (omega arith) h)
    ∙ ap (λ x. test j w && not x || test j (shift_left v s)) (mask-test s n j)
    ∙ ap (λ x. test j w && not (ltb j 32 && (leb s j && ltb (j - s) n)) || x) (value-test s v j)

-- A bit of the changed word is a bit of the value, in the field, and of the old word elsewhere.
pub put_field-test :
    (w v s n j : ℕ)
    → n < 32
    → s + n ≤ 32
    → j < 32
    → bit_and v (complement (bits_mask n)) ≡ 0
    → test j (put_field w v s n) ≡ (if leb s j && ltb j (s + n) then test (j - s) v else test j w)
put_field-test w v s n j h hs hj e = put_field-bits w v s n j hj ∙ elim (places s n j) [
  | inl below ↦ ground arith
  | inr (inl inside) ↦ ground arith
  | inr (inr above) ↦
      let clear = fits-test v n (j - s) h (omega arith) (omega arith) e in ground (arith, clear)
]
