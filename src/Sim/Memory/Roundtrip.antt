-- ===== src/Sim/Memory/Roundtrip.antt =====
-- sim/memory.c: a word that is stored is the word that is loaded, and where memory.c goes wrong.
use g.Base.{
  ℕ, zero, suc, ◌+◌, ◌-◌, ◌*◌, ◌/◌, ◌%◌, ◌^◌, ◌<◌, ◌≤◌, ◌≡◌, ap, ◌∙◌, true, false, ◌==◌, leb, ltb,
  ◌&&◌, arith, Bool-cases, inl, inr, ◌⊎◌,
}
use g.Sim.Bus.{Bus}
use g.Sim.Memory.{Memory, write_cell, weight, put_byte, poke, clear, read_sim_w, write_sim_w}
use g.Sim.Memory.View.{word_at, byte_at, IsMemory, write_cell-word_at}
use g.Sim.Memory.Write.{
  wrote, write_sim_w-byte_at, write_sim_w_unaligned, write_cell-memory_size, wrote-memory_size,
}
use g.Sim.Memory.Read.{read_sim_w-bytes_at}

put_byte-lt : (k w v : ℕ) → k < 4 → w < 2 ^ 32 → put_byte w (weight k) v < 2 ^ 32
put_byte-lt zero w v hk h = omega arith
put_byte-lt (suc zero) w v hk h = omega arith
put_byte-lt (suc (suc zero)) w v hk h = omega arith
put_byte-lt (suc (suc (suc zero))) w v hk h = omega arith
put_byte-lt (suc (suc (suc (suc k)))) w v hk h = absurd (omega arith)

module _ (bus : Bus) where
  write_cell-IsMemory :
      (a : ℕ) (f : ℕ → ℕ) (m : Memory bus.State)
      → ((w : ℕ) → w < 2 ^ 32 → f w < 2 ^ 32)
      → IsMemory m
      → IsMemory (write_cell bus a f m)
  write_cell-IsMemory a f m hf v = record {
    words = λ i. rw (write_cell-word_at bus a i f m) (elim (Bool-cases (a / 4 == i)) [
      | inl e ↦ rw e (hf (word_at m i) (v.words i))
      | inr e ↦ rw e (v.words i)
    ]);
  }

  clear-IsMemory : (m : Memory bus.State) → IsMemory m → IsMemory (clear m)
  unfolding word_at
  clear-IsMemory m v = record { words = v.words }

  wrote-IsMemory : (a v : ℕ) (m : Memory bus.State) → IsMemory m → IsMemory (wrote bus a v m)
  wrote-IsMemory a v m h =
      write_cell-IsMemory a (λ w. poke true w (a % 4) v) (clear m)
        (λ w hw. put_byte-lt (a % 4) w v (omega arith) hw) (clear-IsMemory m h)

  -- A store keeps every word within 32 bits, and the size of the memory.
  record Kept (m m' : Memory bus.State) : Type 0 where
    valid : IsMemory m'
    size : m'.memory_size ≡ m.memory_size

  write_sim_w-Kept :
      (a v : ℕ) (m : Memory bus.State)
      → a + 3 < m.memory_size
      → m.memory_size ≤ 2 ^ 32
      → v < 2 ^ 32
      → IsMemory m
      → Kept m (write_sim_w bus true a v m).1
  unfolding write_sim_w
  write_sim_w-Kept a v m h hs hv im = elim (Bool-cases (a % 4 == 0)) [
    | inl e ↦
        let i : leb m.memory_size a ≡ false = ground arith in
        rw (i, e)
          (record {
            valid = write_cell-IsMemory a (λ w. v) (clear m) (λ w hw. hv) (clear-IsMemory m im);
            size = write_cell-memory_size bus a (λ w. v) (clear m);
          })
    | inr e ↦
        let m1 = wrote bus a (v / 2 ^ 24 % 256) m in
        let m2 = wrote bus (a + 1) (v / 2 ^ 16 % 256) m1 in
        let m3 = wrote bus (a + 2) (v / 2 ^ 8 % 256) m2 in
        rw (write_sim_w_unaligned bus a v m h hs e) (record {
          valid = wrote-IsMemory (a + 3) (v % 256) m3 (
              wrote-IsMemory (a + 2) (v / 2 ^ 8 % 256) m2 (
                wrote-IsMemory (a + 1) (v / 2 ^ 16 % 256) m1
                  (wrote-IsMemory a (v / 2 ^ 24 % 256) m im)));
          size =
              wrote-memory_size bus (a + 3) (v % 256) m3
              ∙ wrote-memory_size bus (a + 2) (v / 2 ^ 8 % 256) m2
              ∙ wrote-memory_size bus (a + 1) (v / 2 ^ 16 % 256) m1
              ∙ wrote-memory_size bus a (v / 2 ^ 24 % 256) m;
        })
  ]

  stored_byte :
      (a v k : ℕ) (m : Memory bus.State)
      → a + 3 < m.memory_size
      → m.memory_size ≤ 2 ^ 32
      → k < 4
      → byte_at (write_sim_w bus true a v m).1 (a + k) ≡ v / weight k % 256
  stored_byte a v k m h hs hk =
      let e : (leb a (a + k) && ltb (a + k) (a + 4)) ≡ true = ground arith in
      let f : a + k - a ≡ k = omega arith in
      (write_sim_w-byte_at bus a v (a + k) m h hs).2 ∙ rw (e, f)

  -- On a big-endian host, a 32-bit value that write_sim_w stores in memory, at an aligned address
  -- or at another in any word but the last, is what read_sim_w loads from there, with no error.
  pub read_sim_w-write_sim_w :
      (a v : ℕ) (m : Memory bus.State)
      → a + 3 < m.memory_size
      → (a % 4 ≡ 0) ⊎ (a / 4 * 4 + 8 ≤ m.memory_size)
      → m.memory_size ≤ 2 ^ 32
      → v < 2 ^ 32
      → IsMemory m
      → let (w, m') = read_sim_w bus a (write_sim_w bus true a v m).1 in
        (w ≡ v) × (m'.sim_errno ≡ false)
  read_sim_w-write_sim_w a v m h hr hs hv im =
      let m' = (write_sim_w bus true a v m).1 in
      let k = write_sim_w-Kept a v m h hs hv im in
      let r =
        read_sim_w-bytes_at bus a m' (omega (arith, k.size)) (rw k.size hr) (rw k.size hs)
          k.valid in
      let b0 : byte_at m' a ≡ v / 2 ^ 24 % 256 =
        ap (byte_at m') (omega arith) ∙ stored_byte a v 0 m h hs (omega arith) in
      (
        r.0
            ∙ omega (
              arith,
              b0,
              stored_byte a v 1 m h hs (omega arith),
              stored_byte a v 2 m h hs (omega arith),
              stored_byte a v 3 m h hs (omega arith),
            ),
        r.1,
      )
