-- ===== src/Sim/Memory/View.antt =====
-- sim/memory.c: the memory as the words of its pages and as the bytes that an 88100 sees.
use g.Base.{ℕ, zero, suc, ◌/◌, ◌%◌, ◌^◌, ◌<◌, ◌≡◌, Option, none, some, ◌==◌, if◌then◌else◌, arith}
use g.Sim.Memory.{Page, Memory, read_cell, write_cell, weight, put_byte}
use g.Sim.Bus.{Bus}

abbrev pub cell : Option Page → ℕ → ℕ
cell none j = 0
cell (some p) j = p.values j

module _ {S : Type 0} where
  -- The word of a number, whether or not its page is allocated.
  unfoldable pub word_at : Memory S → ℕ → ℕ
  word_at m i = cell (m.page_table (i / 1024)) (i % 1024)

  -- The byte at an address, in the byte order of the 88100.
  unfoldable pub byte_at : Memory S → ℕ → ℕ
  byte_at m a = word_at m (a / 4) / weight (a % 4) % 256

  -- Every word has 32 bits.
  pub record IsMemory (m : Memory S) : Type 0 where
    pub words : (i : ℕ) → word_at m i < 2 ^ 32

  pub read_cell-value : (a : ℕ) (m : Memory S) → (read_cell a m).0 ≡ word_at m (a / 4)
  unfolding read_cell word_at
  read_cell-value a m =
      let e : a / 4096 ≡ a / 4 / 1024 = omega arith in
      let f : a % 4096 / 4 ≡ a / 4 % 1024 = omega arith in rw (← e, ← f) (ground arith)

  pub read_cell-word_at : (a i : ℕ) (m : Memory S) → word_at (read_cell a m).1 i ≡ word_at m i
  unfolding read_cell word_at
  read_cell-word_at a i m = ground arith

module _ (bus : Bus) where
  pub write_cell-word_at :
      (a i : ℕ) (f : ℕ → ℕ) (m : Memory bus.State)
      → word_at (write_cell bus a f m) i ≡ (if a / 4 == i then f (word_at m i) else word_at m i)
  unfolding write_cell word_at
  write_cell-word_at a i f m =
      let e : a / 4096 ≡ a / 4 / 1024 = omega arith in
      let g : a % 4096 / 4 ≡ a / 4 % 1024 = omega arith in rw (e, g) (ground arith)

pub put_byte-weight :
    (k j w v : ℕ)
    → k < 4
    → j < 4
    → put_byte w (weight k) v / weight j % 256 ≡ (if k == j then v % 256 else w / weight j % 256)
put_byte-weight zero zero w v hk hj = omega arith
put_byte-weight zero (suc zero) w v hk hj = omega arith
put_byte-weight zero (suc (suc zero)) w v hk hj = omega arith
put_byte-weight zero (suc (suc (suc zero))) w v hk hj = omega arith
put_byte-weight (suc zero) zero w v hk hj = omega arith
put_byte-weight (suc zero) (suc zero) w v hk hj = omega arith
put_byte-weight (suc zero) (suc (suc zero)) w v hk hj = omega arith
put_byte-weight (suc zero) (suc (suc (suc zero))) w v hk hj = omega arith
put_byte-weight (suc (suc zero)) zero w v hk hj = omega arith
put_byte-weight (suc (suc zero)) (suc zero) w v hk hj = omega arith
put_byte-weight (suc (suc zero)) (suc (suc zero)) w v hk hj = omega arith
put_byte-weight (suc (suc zero)) (suc (suc (suc zero))) w v hk hj = omega arith
put_byte-weight (suc (suc (suc zero))) zero w v hk hj = omega arith
put_byte-weight (suc (suc (suc zero))) (suc zero) w v hk hj = omega arith
put_byte-weight (suc (suc (suc zero))) (suc (suc zero)) w v hk hj = omega arith
put_byte-weight (suc (suc (suc zero))) (suc (suc (suc zero))) w v hk hj = omega arith
put_byte-weight (suc (suc (suc (suc k)))) j w v hk hj = absurd (omega arith)
put_byte-weight k (suc (suc (suc (suc j)))) w v hk hj = absurd (omega arith)
