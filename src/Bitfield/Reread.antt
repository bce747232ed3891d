-- ===== src/Bitfield/Reread.antt =====
-- values.c: the field that modify_field sets, as unpack_field_as_long reads it, and the bits around it.
use Prim.Native.Nat.{bit_and}
use native.Mathlib.Nat.{pow-suc, one-le-pow}
use g.Base.{
  ℕ, zero, suc, ◌+◌, ◌-◌, ◌*◌, ◌/◌, ◌%◌, ◌^◌, ◌≤◌, ◌<◌, ◌≡◌, inl, inr, refl, sym, ap, subst, ◌∙◌,
  Bool, true, false, none, some, ◌==◌, ltb, leb, ◌&&◌, ◌||◌, if◌then◌else◌, arith, Bool-cases,
}
use g.Base.Bits.{and_mask}
use g.Base.Digits.{
  test, test-and, test-or, test-shift_right, test-shift_left, test-remainder, test-ones,
}
use g.Bitfield.Places.{fits-test, put_field-test, mask-below}
use g.Bitfield.{
  Buffer, load, store, bits_mask, complement, shift_right, put_field, unpack_field_as_long,
  modify_field,
}

-- Numbers of some bits that have the same bits.
same_bits : (k a b : ℕ) → a < 2 ^ k → b < 2 ^ k → ((j : ℕ) → j < k → test j a ≡ test j b) → a ≡ b
unfolding test
same_bits zero a b p q f = omega arith
same_bits (suc k) a b p q f =
    let low : (a % 2 == 1) ≡ (b % 2 == 1) = f 0 (omega arith) in
    let parity : a % 2 ≡ b % 2 = ground (arith, low) in
    let half : a / 2 ≡ b / 2 =
      same_bits k (a / 2) (b / 2) (omega (arith, pow-suc 2 k)) (omega (arith, pow-suc 2 k))
        (λ j h. f (suc j) (omega arith)) in
    omega arith

load-store : (big : Bool) (w : ℕ) (m : Buffer) (a : ℕ) → load big (store big w m a) a ≡ w % 2 ^ 32
load-store true w m a = ground arith
load-store false w m a = ground arith

or_clear : (a b : Bool) → b ≡ false → a || b ≡ a
or_clear false b e = e
or_clear true b e = refl

and_open : (a b : Bool) → b ≡ true → a && b ≡ a
and_open false b e = refl
and_open true b e = e

and_shut : (a b : Bool) → b ≡ false → a && b ≡ false
and_shut false b e = refl
and_shut true b e = e

-- A bit of a shifted word that the sign does not reach.
shift_right-test : (w k j : ℕ) → k ≤ 32 → j < 32 - k → test j (shift_right w k) ≡ test (k + j) w
shift_right-test w k j hk h = elim (Bool-cases (w / 2 ^ 31 == 0)) [
  | inl e ↦ rw e (test-shift_right k j w)
  | inr e ↦
      let below : leb (32 - k) j ≡ false = ground arith in
      rw e (
        test-or j (w / 2 ^ k) ((2 ^ k - 1) * 2 ^ (32 - k))
        ∙ or_clear (test j (w / 2 ^ k)) _ (
            test-shift_left (32 - k) j (2 ^ k - 1)
            ∙ ap (λ x. x && test (j - (32 - k)) (2 ^ k - 1)) below)
        ∙ test-shift_right k j w)
]

-- A word that was stored and loaded.
stored-test :
    (w v k n j : ℕ)
    → n < 32
    → k + n ≤ 32
    → j < 32
    → bit_and v (complement (bits_mask n)) ≡ 0
    → test j (put_field w v k n % 2 ^ 32)
      ≡ (if leb k j && ltb j (k + n) then test (j - k) v else test j w)
stored-test w v k n j h hs hj e =
    let inside : ltb j 32 ≡ true = ground arith in
    test-remainder 32 j (put_field w v k n)
    ∙ ap (λ x. x && test j (put_field w v k n)) inside
    ∙ put_field-test w v k n j h hs hj e

field-test :
    (w v k n j : ℕ)
    → n < 32
    → k + n ≤ 32
    → j < 32
    → bit_and v (complement (bits_mask n)) ≡ 0
    → test j (bit_and (shift_right (put_field w v k n % 2 ^ 32) k) (bits_mask n)) ≡ test j v
field-test w v k n j h hs hj e =
    let word = put_field w v k n % 2 ^ 32 in
    test-and j (shift_right word k) (bits_mask n)
    ∙ ap (λ x. test j (shift_right word k) && x) (test-ones n j)
    ∙ elim (Bool-cases (ltb j n)) [
      | inl t ↦
          let below : j < n = ground (arith, t) in
          let same : k + j - k ≡ j = omega arith in
          let placed = stored-test w v k n (k + j) h hs (omega arith) e in
          let chosen : (if leb k (k + j) && ltb (k + j) (k + n)
                then test (k + j - k) v
                else test (k + j) w)
              ≡ test (k + j - k) v =
            ground (arith, below) in
          and_open _ _ t
          ∙ shift_right-test word k j (omega arith) (omega arith)
          ∙ placed
          ∙ chosen
          ∙ ap (λ i. test i v) same
      | inr t ↦ let clear = fits-test v n j h hj (ground (arith, t)) e in and_shut _ _ t ∙ sym clear
    ]

field-value :
    (w v k n : ℕ)
    → n < 32
    → k + n ≤ 32
    → v < 2 ^ 32
    → bit_and v (complement (bits_mask n)) ≡ 0
    → bit_and (shift_right (put_field w v k n % 2 ^ 32) k) (bits_mask n) ≡ v
field-value w v k n h hs hv e =
    let x = shift_right (put_field w v k n % 2 ^ 32) k in
    let mask = mask-below n h in
    let low : bit_and x (bits_mask n) < 2 ^ 32 =
      subst (λ y. y < 2 ^ 32) (sym (and_mask n x)) (omega (arith, one-le-pow n 2)) in
    same_bits 32 (bit_and x (bits_mask n)) v low hv (λ j hj. field-test w v k n j h hs hj e)

taken : (g : Bool) (m m' : Buffer) → (if g then some m else none) ≡ some m' → (g ≡ true) × (m ≡ m')
taken false m m' e = absurd (cc)
taken true m m' e = (refl, ap (λ o. elim o [ some b ↦ b | none ↦ m' ]) e)

-- A field that does not pass the end of a long is read as the value that modify_field set it to,
-- where modify_field accepts the value; a bit of the long is a bit of the value in the field, and as it was elsewhere.
pub modify_field-unpack_field_as_long :
    (big : Bool) (negative_shift : ℕ → ℕ) (m m' : Buffer) (bitpos bitsize fieldval j : ℕ)
    → bitsize < 32
    → bitpos % 8 + bitsize ≤ 32
    → fieldval < 2 ^ 32
    → j < 32
    → modify_field big negative_shift m (bitpos / 8) fieldval (bitpos % 8) bitsize ≡ some m'
    → let k = 32 - bitpos % 8 - bitsize in
      (unpack_field_as_long big negative_shift m' bitpos bitsize ≡ fieldval)
      × (test j (load big m' (bitpos / 8)) ≡ (
          if leb k j && ltb j (k + bitsize)
          then test (j - k) fieldval
          else test j (load big m (bitpos / 8))))
unfolding modify_field unpack_field_as_long
modify_field-unpack_field_as_long big negative_shift m m' bitpos bitsize fieldval j h hs hv hj e =
    let a = bitpos / 8 in
    let k = 32 - bitpos % 8 - bitsize in
    let old = load big m a in
    let within : ltb 32 (bitpos % 8 + bitsize) ≡ false = ground arith in
    let (g, q) = taken _ _ m' e in
    let fits : bit_and fieldval (complement (bits_mask bitsize)) ≡ 0 = ground (arith, g) in
    let new = put_field old fieldval k bitsize in
    let stored : load big m' a ≡ new % 2 ^ 32 =
      ap (λ b. load big b a) (sym q)
      ∙ ap (λ x. load big (store big (if x then negative_shift old else new) m a) a) within
      ∙ load-store big new m a in
    (
      ap
            (λ x.
              bit_and (if x then negative_shift (load big m' a) else shift_right (load big m' a) k)
                (bits_mask bitsize))
            within
          ∙ ap (λ x. bit_and (shift_right x k) (bits_mask bitsize)) stored
          ∙ field-value old fieldval k bitsize h (omega arith) hv fits,
      ap (test j) stored ∙ stored-test old fieldval k bitsize j h (omega arith) hj fits,
    )
