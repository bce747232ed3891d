-- ===== src/Sim/Execute/Arith/Compare.antt =====
-- sim/execute.c: the word of `cmp` against the ten relations of the 88100.
use g.Base.{ℕ, ◌+◌, ◌*◌, ◌^◌, ◌≡◌, Bool, ltb, leb, not, if◌then◌else◌, arith}
use g.Base.Int.{ltb_ℤ, eq_ℤ}
use g.Base.Words.{IsWord, to_int}
use g.Sim.Execute.Arith.{compare_word}

abbrev pub digit : Bool → ℕ
digit b = if b then 1 else 0

-- eq, ne, gt, le, lt and ge of the operands as `int`, and hi, ls, lo and hs of them as `unsigned`,
-- from bit 2 to bit 11, with the other bits zero.
abbrev pub relations : ℕ → ℕ → ℕ
relations x y =
    let a = to_int x in
    let b = to_int y in
    digit (eq_ℤ a b) * 2 ^ 2
    + digit (not (eq_ℤ a b)) * 2 ^ 3
    + digit (ltb_ℤ b a) * 2 ^ 4
    + digit (not (ltb_ℤ b a)) * 2 ^ 5
    + digit (ltb_ℤ a b) * 2 ^ 6
    + digit (not (ltb_ℤ a b)) * 2 ^ 7
    + digit (ltb y x) * 2 ^ 8
    + digit (leb x y) * 2 ^ 9
    + digit (ltb x y) * 2 ^ 10
    + digit (leb y x) * 2 ^ 11

-- The word that cmp makes of two words is the sum of the bits of the ten relations that hold
-- between them.
pub compare_word-relations : (x y : ℕ) → IsWord x → IsWord y → compare_word x y ≡ relations x y
unfolding compare_word
compare_word-relations x y hx hy = ground arith
