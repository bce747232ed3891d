-- ===== src/Sim/Access/Host.antt =====
-- sim/misc.c: do_mem_op, the transfer between a register and a page of the simulated memory. A
-- pointer of the host into a page is its distance in bytes from the page's words; what lies behind
-- the words is the index 1024 of `values`. A `char` of the host is signed, and a word has 4 bytes.
use g.Base.{ℕ, ◌+◌, ◌-◌, ◌*◌, ◌/◌, ◌%◌, ◌^◌, Bool, ltb, if◌then◌else◌}
use g.Sim.Bus.{Size, byte, half, word, dword}
use g.Sim.Memory.{update, weight, put_byte}
use g.Sim.Execute.{Operand, reg, num, Cpu, put, fetch, assign}

-- LD, ST, XMEM, LD_U and XMEM_U.
pub data MemOp : Type 0 where
  ld st xmem ld_u xmem_u : MemOp

-- The value as an `int` of 32 bits.
abbrev pub extend_byte : ℕ → ℕ
extend_byte b = if ltb b (2 ^ 7) then b else b + (2 ^ 32 - 2 ^ 8)

abbrev pub extend_half : ℕ → ℕ
extend_half h = if ltb h (2 ^ 15) then h else h + (2 ^ 32 - 2 ^ 16)

-- `reg_ptr + 1`; what is behind `dummy_r0` is the other half of it, which is not kept:
-- it is read as 0.
abbrev pub next_register : Operand → Operand
next_register (reg n) = reg (n + 1)
next_register _ = num 0

-- The words of the page and the registers after the operation.
abbrev pub Moved : Type 0
Moved = (ℕ → ℕ) × Cpu

-- `regs[0] = 0; regs[32] = 0`
abbrev pub zero_ends : Cpu → Cpu
zero_ends c = record c { regs = put 32 0 (put 0 0 c.regs) }

-- `*(char *)ptr = v` and the value there, without its sign; `big` is a big-endian host.
module _ (big : Bool) where
  abbrev pub host_weight : ℕ → ℕ
  host_weight o = weight (if big then o % 4 else 3 - o % 4)

  abbrev pub peek_byte : (ℕ → ℕ) → ℕ → ℕ
  peek_byte values o = values (o / 4) / host_weight o % 256

  abbrev pub poke_byte : ℕ → ℕ → (ℕ → ℕ) → ℕ → ℕ
  poke_byte o v values = update values (o / 4) (put_byte (values (o / 4)) (host_weight o) v)

  -- The first byte of two in the memory of the host is the upper one if it is big-endian.
  abbrev pub peek_half : (ℕ → ℕ) → ℕ → ℕ
  peek_half values o =
      if big
      then peek_byte values o * 2 ^ 8 + peek_byte values (o + 1)
      else peek_byte values (o + 1) * 2 ^ 8 + peek_byte values o

  abbrev pub poke_half : ℕ → ℕ → (ℕ → ℕ) → ℕ → ℕ
  poke_half o v values =
      poke_byte (o + 1) (if big then v else v / 2 ^ 8)
        (poke_byte o (if big then v / 2 ^ 8 else v) values)

  abbrev pub peek_word : (ℕ → ℕ) → ℕ → ℕ
  peek_word values o =
      if big
      then peek_half values o * 2 ^ 16 + peek_half values (o + 2)
      else peek_half values (o + 2) * 2 ^ 16 + peek_half values o

  abbrev pub poke_word : ℕ → ℕ → (ℕ → ℕ) → ℕ → ℕ
  poke_word o v values =
      poke_half (o + 2) (if big then v else v / 2 ^ 16)
        (poke_half o (if big then v / 2 ^ 16 else v) values)

  abbrev pub load_double : Operand → ℕ → (ℕ → ℕ) → Cpu → Cpu
  load_double r o values c =
      assign (next_register r) (peek_word values (o + 4)) (assign r (peek_word values o) c)

  abbrev pub store_double : Operand → ℕ → Cpu → (ℕ → ℕ) → ℕ → ℕ
  store_double r o c values =
      poke_word (o + 4) (fetch (next_register r) c) (poke_word o (fetch r c) values)

  unfoldable pub load_from : Bool → Size → Operand → ℕ → (ℕ → ℕ) → Cpu → Cpu
  load_from signed byte r o values c =
      assign r (if signed then extend_byte (peek_byte values o) else peek_byte values o) c
  load_from signed half r o values c =
      assign r (if signed then extend_half (peek_half values o) else peek_half values o) c
  load_from signed word r o values c = assign r (peek_word values o) c
  load_from signed dword r o values c = load_double r o values c

  unfoldable pub store_to : Size → Operand → ℕ → Cpu → (ℕ → ℕ) → ℕ → ℕ
  store_to byte r o c values = poke_byte o (fetch r c) values
  store_to half r o c values = poke_half o (fetch r c) values
  store_to word r o c values = poke_word o (fetch r c) values
  store_to dword r o c values = store_double r o c values

  -- `t = *mem; *mem = *reg; *reg = t`, for the second word after the first.
  abbrev pub exchange_word : Operand → ℕ → (ℕ → ℕ) → Cpu → Moved
  exchange_word r o values c = (poke_word o (fetch r c) values, assign r (peek_word values o) c)

  unfoldable pub exchange : Bool → Size → Operand → ℕ → (ℕ → ℕ) → Cpu → Moved
  unfolding load_from store_to
  exchange signed dword r o values c =
      let (values', c') = exchange_word r o values c in
      exchange_word (next_register r) (o + 4) values' c'
  exchange signed size r o values c =
      (store_to size r o c values, load_from signed size r o values c)

  unfoldable pub transfer : MemOp → Size → Operand → ℕ → (ℕ → ℕ) → Cpu → Moved
  unfolding load_from store_to exchange
  transfer ld size r o values c = (values, load_from Bool.true size r o values c)
  transfer st size r o values c = (store_to size r o c values, c)
  transfer xmem size r o values c = exchange Bool.true size r o values c
  transfer ld_u size r o values c = (values, load_from Bool.false size r o values c)
  transfer xmem_u size r o values c = exchange Bool.false size r o values c

  unfoldable pub do_mem_op : MemOp → Size → Operand → ℕ → (ℕ → ℕ) → Cpu → Moved
  do_mem_op op size r o values c =
      let (values', c') = transfer op size r o values c in (values', zero_ends c')
