-- ===== src/Sim/Memory.antt =====
-- sim/memory.c: the simulated physical memory, in pages of 4096 bytes that are allocated when they
-- are first touched, each beside the decoded forms of its instructions. A word is a number below
-- 2 ^ 32. sbrk hands out pages of zeros.
pub mod View
pub mod Write
pub mod Read
pub mod Roundtrip
pub mod Faults
mod Tests
use Prim.Native.Nat.{bit_or}
use g.Base.{
  ℕ, zero, suc, ◌+◌, ◌-◌, ◌*◌, ◌/◌, ◌%◌, ◌^◌, Bool, true, false, Option, none, some, ◌==◌, leb, ltb,
  if◌then◌else◌,
}
use g.Base.Int.{ℤ, pos, negsuc, eq_ℤ}
use g.Sim.Bus.{Bus, Size}

-- `struct page`. In the decoded part, `true` stands for an entry point other than sim_not_decoded.
pub record Page : Type 0 where
  pub values : ℕ → ℕ
  pub decoded_part : Option (ℕ → Bool)

pub record Memory (S : Type 0) : Type 0 where
  pub memory_size : ℕ
  pub page_table : ℕ → Option Page
  pub sim_errno : Bool
  pub io : S

abbrev pub update {ℓ} : {A : Type ℓ} → (ℕ → A) → ℕ → A → ℕ → A
update f i v j = if i == j then v else f j

-- A page as sbrk returns it.
abbrev pub fresh_page : Page
fresh_page = record { values = λ i. 0; decoded_part = none }

-- Invalidates the decoded form of one instruction of a page.
abbrev pub forget : ℕ → Option (ℕ → Bool) → Option (ℕ → Bool)
forget i none = none
forget i (some d) = some (update d i false)

-- clean_decoded_part, on a decoded part that is there.
abbrev pub clean_decoded_part : Option (ℕ → Bool) → Option (ℕ → Bool)
clean_decoded_part none = none
clean_decoded_part (some d) = some (λ i. false)

abbrev pub clean_page : Page → Page
clean_page p = record { values = λ i. 0; decoded_part = clean_decoded_part p.decoded_part }

-- The weight in its word of the byte at the address `k` modulo 4, on an 88100, which is big-endian.
abbrev pub weight : ℕ → ℕ
weight zero = 2 ^ 24
weight (suc zero) = 2 ^ 16
weight (suc (suc zero)) = 2 ^ 8
weight (suc (suc (suc k))) = 1

-- The word `w` once the byte of the weight `h` is written.
abbrev pub put_byte : ℕ → ℕ → ℕ → ℕ
put_byte w h v = w / (h * 256) * (h * 256) + v % 256 * h + w % h

-- `*((u_char *)word_ptr + k) = v`, where `big` says that the host is big-endian.
abbrev pub poke : Bool → ℕ → ℕ → ℕ → ℕ
poke big w k v = put_byte w (weight (if big then k else 3 - k)) v

module _ {S : Type 0} where
  -- The page of a number, allocated if there is none yet, and the memory that has it.
  unfoldable pub find_page : ℕ → Memory S → Page × Memory S
  find_page page m = elim (m.page_table page) [
    | some p ↦ (p, m)
    | none ↦ (fresh_page, record m { page_table = update m.page_table page (some fresh_page) })
  ]

  abbrev pub fail : Memory S → Memory S
  fail m = record m { sim_errno = true }

  abbrev pub clear : Memory S → Memory S
  clear m = record m { sim_errno = false }

  unfoldable pub read_cell : ℕ → Memory S → ℕ × Memory S
  unfolding find_page
  read_cell a m = let (p, m') = find_page (a / 4096) m in (p.values (a % 4096 / 4), m')

module _ (bus : Bus) where
  -- A load that is answered by a device.
  unfoldable pub io_load : Size → ℕ → Memory bus.State → ℕ × Memory bus.State
  io_load size a m =
      let (r, s) = bus.load size a m.io in
      let m' = record m { io = s } in elim r [ none ↦ (0, fail m') | some v ↦ (v, m') ]

  unfoldable pub io_store : Size → ℕ → ℕ → Memory bus.State → Bool × Memory bus.State
  io_store size a v m =
      let (done, s) = bus.store size a v m.io in
      let m' = record m { io = s } in (done, (if done then m' else fail m'))

  -- read_sim_w at an address that is a multiple of 4, as its calls of itself are.
  unfoldable pub read_aligned : ℕ → Memory bus.State → ℕ × Memory bus.State
  read_aligned a m =
      if leb m.memory_size a then io_load Size.word a (clear m) else read_cell a (clear m)

  -- `(w1 << s) | (w2 >> (32 - s))`, with the next word.
  unfoldable pub join : ℕ → ℕ → ℕ → Memory bus.State → ℕ × Memory bus.State
  join s a w1 m =
      let (w2, m') = read_aligned ((a / 4 * 4 + 4) % 2 ^ 32) m in
      (bit_or (w1 * 2 ^ s % 2 ^ 32) (w2 / 2 ^ (32 - s)), m')

  abbrev pub from_offset : ℕ → ℕ → ℕ → Memory bus.State → ℕ × Memory bus.State
  from_offset zero a w1 m = (w1, m)
  from_offset (suc zero) a w1 m = join 8 a w1 m
  from_offset (suc (suc zero)) a w1 m = join 16 a w1 m
  from_offset (suc (suc (suc k))) a w1 m = join 24 a w1 m

  unfoldable pub read_sim_w : ℕ → Memory bus.State → ℕ × Memory bus.State
  read_sim_w a m =
      if leb m.memory_size a
      then io_load Size.word a (clear m)
      else (let (w1, m') = read_cell a (clear m) in from_offset (a % 4) a w1 m')

  -- The branch for a device leaves `sim_errno` as it was where the device answers.
  unfoldable pub read_sim_b : ℕ → Memory bus.State → ℕ × Memory bus.State
  read_sim_b a m =
      if leb m.memory_size a
      then (let (v, m') = io_load Size.byte a m in (v % 256, m'))
      else (let (w, m') = read_sim_w a (clear m) in (w / 2 ^ 24 % 256, m'))

  unfoldable pub read_sim_h : ℕ → Memory bus.State → ℕ × Memory bus.State
  read_sim_h a m =
      if a % 2 == 1
      then (0, fail m)
      else if leb m.memory_size a
      then (let (v, m') = io_load Size.half a (clear m) in (v % 2 ^ 16, m'))
      else (let (w, m') = read_sim_w a (clear m) in (w / 2 ^ 16 % 2 ^ 16, m'))

  -- The store of a word or a byte into the page that holds it, and the invalidation behind it.
  unfoldable pub write_cell : ℕ → (ℕ → ℕ) → Memory bus.State → Memory bus.State
  unfolding find_page
  write_cell a f m =
      let (p, m') = find_page (a / 4096) m in
      let i = a % 4096 / 4 in
      let p' = record p {
        values = update p.values i (f (p.values i));
        decoded_part = forget i p.decoded_part;
      } in
      record m' { page_table = update m'.page_table (a / 4096) (some p') }

  -- It returns 0 in any case.
  unfoldable pub write_sim_b : Bool → ℕ → ℕ → Memory bus.State → ℤ × Memory bus.State
  write_sim_b big a v m =
      if leb m.memory_size a
      then (pos 0, (io_store Size.byte a v (clear m)).1)
      else (pos 0, write_cell a (λ w. poke big w (a % 4) v) (clear m))

  -- `write_sim_b (…) == -1 ||` and what is left of the test.
  abbrev pub or_else :
      ℤ × Memory bus.State → (Memory bus.State → ℤ × Memory bus.State) → ℤ × Memory bus.State
  or_else (r, m) next = if eq_ℤ r (negsuc 0) then (negsuc 0, fail m) else next m

  abbrev pub status : Bool × Memory bus.State → ℤ × Memory bus.State
  status (done, m) = ((if done then pos 0 else negsuc 0), m)

  unfoldable pub write_sim_h : Bool → ℕ → ℕ → Memory bus.State → ℤ × Memory bus.State
  write_sim_h big a v m =
      if leb m.memory_size a
      then status (io_store Size.half a v (clear m))
      else or_else (write_sim_b big a (v / 2 ^ 8 % 256) (clear m))
          λ m1. or_else (write_sim_b big ((a + 1) % 2 ^ 32) (v % 256) m1) λ m2. (pos 0, m2)

  unfoldable pub write_sim_w : Bool → ℕ → ℕ → Memory bus.State → ℤ × Memory bus.State
  write_sim_w big a v m =
      if leb m.memory_size a
      then status (io_store Size.word a v (clear m))
      else if a % 4 == 0
      then (pos 0, write_cell a (λ w. v) (clear m))
      else or_else (write_sim_b big a (v / 2 ^ 24 % 256) (clear m)) λ m1.
        or_else (write_sim_b big ((a + 1) % 2 ^ 32) (v / 2 ^ 16 % 256) m1) λ m2.
          or_else (write_sim_b big ((a + 2) % 2 ^ 32) (v / 2 ^ 8 % 256) m2)
            λ m3. or_else (write_sim_b big ((a + 3) % 2 ^ 32) (v % 256) m3) λ m4. (pos 0, m4)
