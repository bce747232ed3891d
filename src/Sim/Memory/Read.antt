-- ===== src/Sim/Memory/Read.antt =====
-- sim/memory.c: what a load reads, in terms of the bytes of the memory.
use Prim.Native.Nat.{bit_or}
use g.Base.{
  ℕ, zero, suc, ◌+◌, ◌*◌, ◌/◌, ◌%◌, ◌^◌, ◌<◌, ◌≤◌, ◌≡◌, refl, sym, ap, ◌∙◌, false, leb, arith, inl,
  inr, ◌⊎◌,
}
use g.Base.Bits.{or-shifted}
use g.Sim.Bus.{Bus}
use g.Sim.Memory.{Memory, read_cell, weight, clear, join, read_aligned, from_offset, read_sim_w}
use g.Sim.Memory.View.{word_at, byte_at, IsMemory, read_cell-value, read_cell-word_at}

-- `(w1 << s) | (w2 >> (32 - s))`
joined_8 :
    (w1 w2 : ℕ)
    → w2 < 2 ^ 32
    → bit_or (w1 * 2 ^ 8 % 2 ^ 32) (w2 / 2 ^ 24) ≡ w1 % 2 ^ 24 * 2 ^ 8 + w2 / 2 ^ 24
joined_8 w1 w2 h =
    let e : w1 * 2 ^ 8 % 2 ^ 32 ≡ w1 % 2 ^ 24 * 2 ^ 8 = omega arith in
    rw e (or-shifted 8 (w1 % 2 ^ 24) (w2 / 2 ^ 24) (omega arith))

joined_16 :
    (w1 w2 : ℕ)
    → w2 < 2 ^ 32
    → bit_or (w1 * 2 ^ 16 % 2 ^ 32) (w2 / 2 ^ 16) ≡ w1 % 2 ^ 16 * 2 ^ 16 + w2 / 2 ^ 16
joined_16 w1 w2 h =
    let e : w1 * 2 ^ 16 % 2 ^ 32 ≡ w1 % 2 ^ 16 * 2 ^ 16 = omega arith in
    rw e (or-shifted 16 (w1 % 2 ^ 16) (w2 / 2 ^ 16) (omega arith))

joined_24 :
    (w1 w2 : ℕ)
    → w2 < 2 ^ 32
    → bit_or (w1 * 2 ^ 24 % 2 ^ 32) (w2 / 2 ^ 8) ≡ w1 % 2 ^ 8 * 2 ^ 24 + w2 / 2 ^ 8
joined_24 w1 w2 h =
    let e : w1 * 2 ^ 24 % 2 ^ 32 ≡ w1 % 2 ^ 8 * 2 ^ 24 = omega arith in
    rw e (or-shifted 24 (w1 % 2 ^ 8) (w2 / 2 ^ 8) (omega arith))

-- The word that four bytes make.
abbrev pub big_endian : ℕ → ℕ → ℕ → ℕ → ℕ
big_endian b0 b1 b2 b3 = b0 * 2 ^ 24 + b1 * 2 ^ 16 + b2 * 2 ^ 8 + b3

module _ {S : Type 0} (m : Memory S) where
  -- The word at any address.
  abbrev pub bytes_at : ℕ → ℕ
  bytes_at a = big_endian (byte_at m a) (byte_at m (a + 1)) (byte_at m (a + 2)) (byte_at m (a + 3))

  byte_in : (q j : ℕ) → j < 4 → byte_at m (q * 4 + j) ≡ word_at m q / weight j % 256
  unfolding byte_at
  byte_in q j h =
      let e : (q * 4 + j) / 4 ≡ q = omega arith in
      let f : (q * 4 + j) % 4 ≡ j = omega arith in rw (e, f)

  -- The bytes of the next word.
  byte_next : (q j : ℕ) → j < 4 → byte_at m (q * 4 + (4 + j)) ≡ word_at m (q + 1) / weight j % 256
  byte_next q j h =
      let e : q * 4 + (4 + j) ≡ (q + 1) * 4 + j = omega arith in rw (e, byte_in (q + 1) j h)

  -- What read_sim_w puts together at each offset in a word.
  bytes_from : (q r : ℕ) → ℕ
  bytes_from q zero = word_at m q
  bytes_from q (suc zero) = word_at m q % 2 ^ 24 * 2 ^ 8 + word_at m (q + 1) / 2 ^ 24
  bytes_from q (suc (suc zero)) = word_at m q % 2 ^ 16 * 2 ^ 16 + word_at m (q + 1) / 2 ^ 16
  bytes_from q (suc (suc (suc r))) = word_at m q % 2 ^ 8 * 2 ^ 24 + word_at m (q + 1) / 2 ^ 8

  bytes_from-bytes_at : (q r : ℕ) → r < 4 → IsMemory m → bytes_at (q * 4 + r) ≡ bytes_from q r
  unfolding bytes_from
  bytes_from-bytes_at q zero h v =
      let e1 : q * 4 + 0 + 1 ≡ q * 4 + 1 = omega arith in
      let e2 : q * 4 + 0 + 2 ≡ q * 4 + 2 = omega arith in
      let e3 : q * 4 + 0 + 3 ≡ q * 4 + 3 = omega arith in
      rw (e1, e2, e3)
        (omega (
          arith,
          byte_in q 0 (omega arith),
          byte_in q 1 (omega arith),
          byte_in q 2 (omega arith),
          byte_in q 3 (omega arith),
          v.words q,
        ))
  bytes_from-bytes_at q (suc zero) h v =
      let e1 : q * 4 + 1 + 1 ≡ q * 4 + 2 = omega arith in
      let e2 : q * 4 + 1 + 2 ≡ q * 4 + 3 = omega arith in
      let e3 : q * 4 + 1 + 3 ≡ q * 4 + (4 + 0) = omega arith in
      rw (e1, e2, e3)
        (omega (
          arith,
          byte_in q 1 (omega arith),
          byte_in q 2 (omega arith),
          byte_in q 3 (omega arith),
          byte_next q 0 (omega arith),
          v.words q,
          v.words (q + 1),
        ))
  bytes_from-bytes_at q (suc (suc zero)) h v =
      let e1 : q * 4 + 2 + 1 ≡ q * 4 + 3 = omega arith in
      let e2 : q * 4 + 2 + 2 ≡ q * 4 + (4 + 0) = omega arith in
      let e3 : q * 4 + 2 + 3 ≡ q * 4 + (4 + 1) = omega arith in
      rw (e1, e2, e3)
        (omega (
          arith,
          byte_in q 2 (omega arith),
          byte_in q 3 (omega arith),
          byte_next q 0 (omega arith),
          byte_next q 1 (omega arith),
          v.words q,
          v.words (q + 1),
        ))
  bytes_from-bytes_at q (suc (suc (suc zero))) h v =
      let e1 : q * 4 + 3 + 1 ≡ q * 4 + (4 + 0) = omega arith in
      let e2 : q * 4 + 3 + 2 ≡ q * 4 + (4 + 1) = omega arith in
      let e3 : q * 4 + 3 + 3 ≡ q * 4 + (4 + 2) = omega arith in
      rw (e1, e2, e3)
        (omega (
          arith,
          byte_in q 3 (omega arith),
          byte_next q 0 (omega arith),
          byte_next q 1 (omega arith),
          byte_next q 2 (omega arith),
          v.words q,
          v.words (q + 1),
        ))
  bytes_from-bytes_at q (suc (suc (suc (suc r)))) h v = absurd (omega arith)

module _ (bus : Bus) where
  read_aligned_inside :
      (a : ℕ) (m : Memory bus.State)
      → a < m.memory_size
      → (read_aligned bus a m).0 ≡ word_at m (a / 4)
  unfolding read_aligned word_at
  read_aligned_inside a m h =
      let e : leb m.memory_size a ≡ false = ground arith in rw (e, read_cell-value a (clear m))

  read_aligned-errno :
      (a : ℕ) (m : Memory bus.State)
      → a < m.memory_size
      → (read_aligned bus a m).1.sim_errno ≡ false
  unfolding read_aligned read_cell
  read_aligned-errno a m h =
      let e : leb m.memory_size a ≡ false = ground arith in rw e (ground arith)

  read_cell-size :
      (a : ℕ) (m : Memory bus.State)
      → ((read_cell a m).1.memory_size ≡ m.memory_size)
        × ((read_cell a m).1.sim_errno ≡ m.sim_errno)
  unfolding read_cell
  read_cell-size a m = (ground arith, ground arith)

  -- The memory after the first word was read.
  abbrev behind_first : ℕ → Memory bus.State → Memory bus.State
  behind_first a m = (read_cell a (clear m)).1

  next_address :
      (a : ℕ) (m : Memory bus.State)
      → a / 4 * 4 + 8 ≤ m.memory_size
      → m.memory_size ≤ 2 ^ 32
      → (a / 4 * 4 + 4) % 2 ^ 32 < (behind_first a m).memory_size
  next_address a m h hs = omega (arith, (read_cell-size a (clear m)).0)

  next_word :
      (a : ℕ) (m : Memory bus.State)
      → a / 4 * 4 + 8 ≤ m.memory_size
      → m.memory_size ≤ 2 ^ 32
      → (read_aligned bus ((a / 4 * 4 + 4) % 2 ^ 32) (behind_first a m)).0 ≡ word_at m (a / 4 + 1)
  unfolding word_at
  next_word a m h hs =
      let e : (a / 4 * 4 + 4) % 2 ^ 32 / 4 ≡ a / 4 + 1 = omega arith in
      read_aligned_inside ((a / 4 * 4 + 4) % 2 ^ 32) (behind_first a m) (next_address a m h hs)
      ∙ rw e (read_cell-word_at a (a / 4 + 1) (clear m))

  from_offset_lem :
      (r a : ℕ) (m : Memory bus.State)
      → r < 4
      → (r ≡ 0) ⊎ (a / 4 * 4 + 8 ≤ m.memory_size)
      → m.memory_size ≤ 2 ^ 32
      → IsMemory m
      → let (w, m') = from_offset bus r a (word_at m (a / 4)) (behind_first a m) in
        (w ≡ bytes_from m (a / 4) r) × (m'.sim_errno ≡ false)
  unfolding bytes_from join
  from_offset_lem zero a m hr h hs v = (refl, (read_cell-size a (clear m)).1)
  from_offset_lem (suc r) a m hr (inl z) hs v = absurd (omega arith)
  from_offset_lem (suc zero) a m hr (inr h) hs v = (
    rw (next_word a m h hs) (joined_8 (word_at m (a / 4)) _ (v.words (a / 4 + 1))),
    read_aligned-errno _ (behind_first a m) (next_address a m h hs),
  )
  from_offset_lem (suc (suc zero)) a m hr (inr h) hs v = (
    rw (next_word a m h hs) (joined_16 (word_at m (a / 4)) _ (v.words (a / 4 + 1))),
    read_aligned-errno _ (behind_first a m) (next_address a m h hs),
  )
  from_offset_lem (suc (suc (suc zero))) a m hr (inr h) hs v = (
    rw (next_word a m h hs) (joined_24 (word_at m (a / 4)) _ (v.words (a / 4 + 1))),
    read_aligned-errno _ (behind_first a m) (next_address a m h hs),
  )
  from_offset_lem (suc (suc (suc (suc r)))) a m hr h hs v = absurd (omega arith)

  -- read_sim_w in a memory of 32-bit words, at an aligned address in it or at another in any word
  -- but its last: the value is made of the four bytes from the address on, the most significant
  -- first, and there is no error.
  pub read_sim_w-bytes_at :
      (a : ℕ) (m : Memory bus.State)
      → a < m.memory_size
      → (a % 4 ≡ 0) ⊎ (a / 4 * 4 + 8 ≤ m.memory_size)
      → m.memory_size ≤ 2 ^ 32
      → IsMemory m
      → let (w, m') = read_sim_w bus a m in (w ≡ bytes_at m a) × (m'.sim_errno ≡ false)
  unfolding read_sim_w word_at
  read_sim_w-bytes_at a m ha h hs v =
      let i : leb m.memory_size a ≡ false = ground arith in
      let at : a / 4 * 4 + a % 4 ≡ a = omega arith in
      let spec : bytes_at m a ≡ bytes_from m (a / 4) (a % 4) =
        ap (bytes_at m) (sym at) ∙ bytes_from-bytes_at m (a / 4) (a % 4) (omega arith) v in
      rw (i, spec, read_cell-value a (clear m)) (from_offset_lem (a % 4) a m (omega arith) h hs v)
