-- ===== src/Sim/Execute/Arith.antt =====
-- sim/execute.c: the additions, subtractions and comparisons of the 88100.
pub mod Sums
pub mod Differences
pub mod Compare
use Prim.Native.Nat.{bit_and, bit_or}
use g.Base.{
  ℕ, ◌+◌, ◌-◌, ◌*◌, ◌/◌, ◌%◌, ◌^◌, Bool, true, false, ◌==◌, ltb, leb, ◌&&◌, ◌||◌, not,
  if◌then◌else◌,
}
use g.Base.Int.{ltb_ℤ}
use g.Base.Words.{u32, sub32, to_int, truth}
use g.Sim.Execute.{
  Decoded, Cpu, Ending, dispatch_next, gen_exception, src1, src2, set_dst, carry_bit, set_carry,
  zero_carry, check_stack,
}

-- The Booleans of the add instructions. A shift of an `int` to the right keeps the sign, so the
-- results are 0 and -1, or 0 and 1, of which the code tests only whether they are 0.
abbrev pub both_neg : ℕ → ℕ → Bool
both_neg s1 s2 = truth (bit_and s1 s2 / 2 ^ 31)

abbrev pub both_pos : ℕ → ℕ → Bool
both_pos s1 s2 = not (truth (bit_or s1 s2 / 2 ^ 31))

-- `res_neg`, and `s1_neg` and `s2_neg` of the subtractions.
abbrev pub neg : ℕ → Bool
neg w = truth (w / 2 ^ 31)

-- The `if` with SET_CARRY and ZERO_CARRY in the additions.
abbrev pub add_carry : ℕ → ℕ → ℕ → Cpu → Cpu
add_carry s1 s2 d c =
    if both_neg s1 s2 || not (neg d) && not (both_pos s1 s2) then set_carry c else zero_carry c

-- The test before `goto iov` in the additions.
abbrev pub add_overflows : ℕ → ℕ → ℕ → Bool
add_overflows s1 s2 d = both_neg s1 s2 && not (neg d) || both_pos s1 s2 && neg d

-- E_IOV, which the label `iov` raises.
abbrev pub e_iov : ℕ
e_iov = 9

unfoldable pub add : Decoded → Cpu → Ending × Cpu
add p c =
    let s1 = src1 p c in
    let s2 = src2 p c in
    let d = u32 (s1 + s2) in
    let c1 = set_dst p d c in
    if add_overflows s1 s2 d then (gen_exception e_iov, c1) else (check_stack c1, c1)

unfoldable pub add_co : Decoded → Cpu → Ending × Cpu
add_co p c =
    let s1 = src1 p c in
    let s2 = src2 p c in
    let d = u32 (s1 + s2) in
    let c1 = set_dst p d c in
    let c2 = add_carry s1 s2 d c1 in
    if add_overflows s1 s2 d then (gen_exception e_iov, c2) else (dispatch_next, c2)

unfoldable pub add_ci : Decoded → Cpu → Ending × Cpu
add_ci p c =
    let s1 = src1 p c in
    let s2 = src2 p c in
    let d = u32 (s1 + s2 + carry_bit c) in
    let c1 = set_dst p d c in
    if add_overflows s1 s2 d then (gen_exception e_iov, c1) else (dispatch_next, c1)

unfoldable pub add_cio : Decoded → Cpu → Ending × Cpu
add_cio p c =
    let s1 = src1 p c in
    let s2 = src2 p c in
    let d = u32 (s1 + s2 + carry_bit c) in
    let c1 = set_dst p d c in
    let c2 = add_carry s1 s2 d c1 in
    if add_overflows s1 s2 d then (gen_exception e_iov, c2) else (dispatch_next, c2)

unfoldable pub addu : Decoded → Cpu → Ending × Cpu
addu p c =
    let s1 = src1 p c in
    let s2 = src2 p c in let d = u32 (s1 + s2) in let c1 = set_dst p d c in (check_stack c1, c1)

unfoldable pub addu_co : Decoded → Cpu → Ending × Cpu
addu_co p c =
    let s1 = src1 p c in
    let s2 = src2 p c in
    let d = u32 (s1 + s2) in
    let c1 = set_dst p d c in let c2 = add_carry s1 s2 d c1 in (dispatch_next, c2)

unfoldable pub addu_ci : Decoded → Cpu → Ending × Cpu
addu_ci p c =
    let s1 = src1 p c in
    let s2 = src2 p c in
    let d = u32 (s1 + s2 + carry_bit c) in let c1 = set_dst p d c in (dispatch_next, c1)

unfoldable pub addu_cio : Decoded → Cpu → Ending × Cpu
addu_cio p c =
    let s1 = src1 p c in
    let s2 = src2 p c in
    let d = u32 (s1 + s2 + carry_bit c) in
    let c1 = set_dst p d c in let c2 = add_carry s1 s2 d c1 in (dispatch_next, c2)

-- The `if` with SET_CARRY and ZERO_CARRY in the subtractions, with `s1_neg` twice as it is there.
abbrev pub sub_carry : ℕ → ℕ → ℕ → Cpu → Cpu
sub_carry s1 s2 d c =
    if neg s1 && neg s1 || neg d && (not (neg s1) || not (neg s2))
    then set_carry c
    else zero_carry c

-- The test before `goto iov` in the subtractions.
abbrev pub sub_overflows : ℕ → ℕ → ℕ → Bool
sub_overflows s1 s2 d = neg s1 && not (neg s2) && not (neg d) || not (neg s1) && neg s2 && neg d

unfoldable pub sub : Decoded → Cpu → Ending × Cpu
sub p c =
    let s1 = src1 p c in
    let s2 = src2 p c in
    let d = sub32 s1 s2 in
    let c1 = set_dst p d c in
    if sub_overflows s1 s2 d then (gen_exception e_iov, c1) else (check_stack c1, c1)

unfoldable pub sub_bo : Decoded → Cpu → Ending × Cpu
sub_bo p c =
    let s1 = src1 p c in
    let s2 = src2 p c in
    let d = sub32 s1 s2 in
    let c1 = set_dst p d c in
    let c2 = sub_carry s1 s2 d c1 in
    if sub_overflows s1 s2 d then (gen_exception e_iov, c2) else (dispatch_next, c2)

unfoldable pub sub_bi : Decoded → Cpu → Ending × Cpu
sub_bi p c =
    let s1 = src1 p c in
    let s2 = src2 p c in
    let d = u32 (sub32 s1 s2 + carry_bit c) in
    let c1 = set_dst p d c in
    if sub_overflows s1 s2 d then (gen_exception e_iov, c1) else (dispatch_next, c1)

unfoldable pub sub_bio : Decoded → Cpu → Ending × Cpu
sub_bio p c =
    let s1 = src1 p c in
    let s2 = src2 p c in
    let d = u32 (sub32 s1 s2 + carry_bit c) in
    let c1 = set_dst p d c in
    let c2 = sub_carry s1 s2 d c1 in
    if sub_overflows s1 s2 d then (gen_exception e_iov, c2) else (dispatch_next, c2)

unfoldable pub subu : Decoded → Cpu → Ending × Cpu
subu p c =
    let s1 = src1 p c in
    let s2 = src2 p c in let d = sub32 s1 s2 in let c1 = set_dst p d c in (check_stack c1, c1)

unfoldable pub subu_bo : Decoded → Cpu → Ending × Cpu
subu_bo p c =
    let s1 = src1 p c in
    let s2 = src2 p c in
    let d = sub32 s1 s2 in
    let c1 = set_dst p d c in let c2 = sub_carry s1 s2 d c1 in (dispatch_next, c2)

unfoldable pub subu_bi : Decoded → Cpu → Ending × Cpu
subu_bi p c =
    let s1 = src1 p c in
    let s2 = src2 p c in
    let d = u32 (sub32 s1 s2 + carry_bit c) in let c1 = set_dst p d c in (dispatch_next, c1)

unfoldable pub subu_bio : Decoded → Cpu → Ending × Cpu
subu_bio p c =
    let s1 = src1 p c in
    let s2 = src2 p c in
    let d = u32 (sub32 s1 s2 + carry_bit c) in
    let c1 = set_dst p d c in let c2 = sub_carry s1 s2 d c1 in (dispatch_next, c2)

-- The word that `cmp` makes of two words.
unfoldable pub compare_word : ℕ → ℕ → ℕ
compare_word s1 s2 =
    if s1 == s2
    then 0xaa4
    else bit_or (if ltb s2 s1 then 0x908 else 0x608)
        (if ltb_ℤ (to_int s2) (to_int s1) then 0x90 else 0x60)

unfoldable pub cmp : Decoded → Cpu → Ending × Cpu
cmp p c = (dispatch_next, set_dst p (compare_word (src1 p c) (src2 p c)) c)
