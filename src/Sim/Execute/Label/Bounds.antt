-- ===== src/Sim/Execute/Label/Bounds.antt =====
-- sim/execute.c: the registers stay words, and r0 stays 0.
use Prim.Native.Nat.{bit_and, bit_or, bit_xor}
use g.Base.{
  ℕ, ◌/◌, ◌^◌, ◌<◌, ◌≡◌, refl, ◌∙◌, Bool, true, false, ◌==◌, if◌then◌else◌, arith, Bool-cases, inl,
  inr,
}
use g.Base.Bits.{and-div, or-div, xor-div, no_bits}
use g.Base.Words.{IsWord, shift_left}
use g.Sim.Execute.Logic.{scoreboard, regnum, fp_precise_single, integer_divide_error}
use g.Sim.Execute.{
  Operand, reg, sfu0, sfu1, lit, num, code, dummy_r0, Decoded, Cpu, Ending, put, fetch, assign,
  set_dst, src1, src2, psr, sbr, set_carry, zero_carry,
}

-- Every register is a word, and r0 is 0.
pub record IsCpu (c : Cpu) : Type 0 where
  pub regs_word : (n : ℕ) → IsWord (c.regs n)
  pub sfu0_word : (n : ℕ) → IsWord (c.sfu0_regs n)
  pub sfu1_word : (n : ℕ) → IsWord (c.sfu1_regs n)
  pub dummy_word : IsWord c.dummy
  pub r0_zero : c.regs 0 ≡ 0

-- An operand that the decoder makes: a literal is a word.
abbrev pub IsSource : Operand → Type 0
IsSource (lit w) = IsWord w
IsSource _ = 0 < 1

-- A destination that the decoder makes, of the 32 registers: r0 is replaced by the dummy, and no literal is one.
abbrev pub IsDestination : Operand → Type 0
IsDestination (reg n) = (0 < n) × (n < 32)
IsDestination (lit w) = 1 < 1
IsDestination _ = 0 < 1

pub record IsDecoded (p : Decoded) : Type 0 where
  pub destination : IsDestination p.dest
  pub first : IsSource p.s1
  pub second : IsSource p.s2

pub and-IsWord : (x y : ℕ) → IsWord y → IsWord (bit_and x y)
and-IsWord x y h = ground (arith, and-div 32 x y, no_bits (x / 2 ^ 32) (y / 2 ^ 32))

or_none : (x y : ℕ) → x ≡ 0 → y ≡ 0 → bit_or x y ≡ 0
or_none x y hx hy = rw (hx, hy) refl

xor_none : (x y : ℕ) → x ≡ 0 → y ≡ 0 → bit_xor x y ≡ 0
xor_none x y hx hy = rw (hx, hy) refl

pub or-IsWord : (x y : ℕ) → IsWord x → IsWord y → IsWord (bit_or x y)
or-IsWord x y hx hy = ground (arith, or-div 32 x y, or_none (x / 2 ^ 32) (y / 2 ^ 32))

pub xor-IsWord : (x y : ℕ) → IsWord x → IsWord y → IsWord (bit_xor x y)
xor-IsWord x y hx hy = ground (arith, xor-div 32 x y, xor_none (x / 2 ^ 32) (y / 2 ^ 32))

pub fetch-IsWord : (o : Operand) (c : Cpu) → IsSource o → IsCpu c → IsWord (fetch o c)
fetch-IsWord (reg n) c h v = v.regs_word n
fetch-IsWord (sfu0 n) c h v = v.sfu0_word n
fetch-IsWord (sfu1 n) c h v = v.sfu1_word n
fetch-IsWord (lit w) c h v = h
fetch-IsWord (num n) c h v = omega arith
fetch-IsWord (code n) c h v = omega arith
fetch-IsWord dummy_r0 c h v = v.dummy_word

put-IsWord :
    (n x : ℕ) (a : ℕ → ℕ) → IsWord x → ((k : ℕ) → IsWord (a k)) → (k : ℕ) → IsWord (put n x a k)
put-IsWord n x a hx ha k = elim (Bool-cases (k == n)) [ inl e ↦ rw e hx | inr e ↦ rw e (ha k) ]

put-zero : (n x : ℕ) (a : ℕ → ℕ) → 0 < n → put n x a 0 ≡ a 0
put-zero n x a h = ground arith

pub assign-IsCpu :
    (o : Operand) (x : ℕ) (c : Cpu) → IsDestination o → IsWord x → IsCpu c → IsCpu (assign o x c)
assign-IsCpu (reg n) x c h hx v = record {
  regs_word = put-IsWord n x c.regs hx v.regs_word;
  sfu0_word = v.sfu0_word;
  sfu1_word = v.sfu1_word;
  dummy_word = v.dummy_word;
  r0_zero = put-zero n x c.regs h.0 ∙ v.r0_zero;
}
assign-IsCpu (sfu0 n) x c h hx v = record {
  regs_word = v.regs_word;
  sfu0_word = put-IsWord n x c.sfu0_regs hx v.sfu0_word;
  sfu1_word = v.sfu1_word;
  dummy_word = v.dummy_word;
  r0_zero = v.r0_zero;
}
assign-IsCpu (sfu1 n) x c h hx v = record {
  regs_word = v.regs_word;
  sfu0_word = v.sfu0_word;
  sfu1_word = put-IsWord n x c.sfu1_regs hx v.sfu1_word;
  dummy_word = v.dummy_word;
  r0_zero = v.r0_zero;
}
assign-IsCpu (lit w) x c h hx v = absurd (omega arith)
assign-IsCpu (num n) x c h hx v = v
assign-IsCpu (code n) x c h hx v = v
assign-IsCpu dummy_r0 x c h hx v = record {
  regs_word = v.regs_word;
  sfu0_word = v.sfu0_word;
  sfu1_word = v.sfu1_word;
  dummy_word = hx;
  r0_zero = v.r0_zero;
}

set_carry-IsCpu : (c : Cpu) → IsCpu c → IsCpu (set_carry c)
set_carry-IsCpu c v =
    assign-IsCpu (sfu0 1) (bit_or (psr c) 0x10000000) c (omega arith)
      (or-IsWord (psr c) 0x10000000 (v.sfu0_word 1) (omega arith)) v

zero_carry-IsCpu : (c : Cpu) → IsCpu c → IsCpu (zero_carry c)
zero_carry-IsCpu c v =
    assign-IsCpu (sfu0 1) (bit_and (psr c) 0xefffffff) c (omega arith)
      (and-IsWord (psr c) 0xefffffff (omega arith)) v

-- Both branches of a test leave registers that are words.
pub either_branch :
    (b : Bool) (x y : Ending × Cpu) → IsCpu x.1 → IsCpu y.1 → IsCpu (if b then x else y).1
either_branch true x y px py = px
either_branch false x y px py = py

pub either_flag : (b : Bool) (c : Cpu) → IsCpu c → IsCpu (if b then set_carry c else zero_carry c)
either_flag true c v = set_carry-IsCpu c v
either_flag false c v = zero_carry-IsCpu c v

module _ (p : Decoded) (c : Cpu) (h : IsDecoded p) (v : IsCpu c) where
  pub store : (x : ℕ) → IsWord x → IsCpu (set_dst p x c)
  store x hx = assign-IsCpu p.dest x c h.destination hx v

  pub first-IsWord : IsWord (src1 p c)
  first-IsWord = fetch-IsWord p.s1 c h.first v

  pub second-IsWord : IsWord (src2 p c)
  second-IsWord = fetch-IsWord p.s2 c h.second v

  pub scoreboard-IsCpu : (r n : ℕ) (d : Cpu) → IsCpu d → IsCpu (scoreboard r n d)
  scoreboard-IsCpu r n d w =
      assign-IsCpu (sfu0 63) (bit_or (sbr d) (shift_left 1 n)) d (omega arith)
        (or-IsWord (sbr d) (shift_left 1 n) (w.sfu0_word 63) (omega arith)) w

  module _ (dummy_regnum : ℕ) (hd : IsWord dummy_regnum) where
    regnum-IsWord : (o : Operand) → IsDestination o → IsWord (regnum dummy_regnum o)
    regnum-IsWord (reg n) w = omega (arith, w.1)
    regnum-IsWord (sfu0 n) w = hd
    regnum-IsWord (sfu1 n) w = hd
    regnum-IsWord (lit n) w = hd
    regnum-IsWord (num n) w = hd
    regnum-IsWord (code n) w = hd
    regnum-IsWord dummy_r0 w = hd

    pub fp_precise_single-IsCpu : IsCpu (fp_precise_single dummy_regnum p c).1
    fp_precise_single-IsCpu = scoreboard-IsCpu dummy_regnum (regnum dummy_regnum p.dest) c v

    pub integer_divide_error-IsCpu : IsCpu (integer_divide_error dummy_regnum p c).1
    integer_divide_error-IsCpu =
        let c1 = assign (sfu1 2) (src1 p c) c in
        let v1 = assign-IsCpu (sfu1 2) (src1 p c) c (omega arith) first-IsWord v in
        let c2 = assign (sfu1 4) (src2 p c) c1 in
        let v2 = assign-IsCpu (sfu1 4) (src2 p c) c1 (omega arith) second-IsWord v1 in
        let r = regnum dummy_regnum p.dest in
        let v3 = assign-IsCpu (sfu1 5) r c2 (omega arith) (regnum-IsWord p.dest h.destination) v2 in
        scoreboard-IsCpu dummy_regnum r (assign (sfu1 5) r c2) v3
