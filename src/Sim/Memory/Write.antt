-- ===== src/Sim/Memory/Write.antt =====
-- sim/memory.c: what a store does to the bytes of the memory, on a big-endian host.
use g.Base.{
  ℕ, ◌+◌, ◌-◌, ◌/◌, ◌%◌, ◌^◌, ◌<◌, ◌≤◌, ◌≡◌, refl, ap, true, false, ◌==◌, leb, ltb, ◌&&◌,
  if◌then◌else◌, arith, Bool-cases, inl, inr, ==_iff,
}
use g.Base.Int.{pos}
use g.Sim.Bus.{Bus}
use g.Sim.Memory.{Memory, write_cell, weight, poke, clear, write_sim_b, write_sim_w}
use g.Sim.Memory.View.{word_at, byte_at, write_cell-word_at, put_byte-weight}

same_address : (a c : ℕ) → a / 4 ≡ c / 4 → (a % 4 == c % 4) ≡ (a == c)
same_address a c e = ground arith

weight_behind : (k a c : ℕ) → a + k ≡ c → weight (c - a) ≡ weight k
weight_behind k a c e = ap weight (omega arith)

pick_byte :
    (a c v x : ℕ)
    → (if a + 3 == c
        then v % 256 % 256
        else if a + 2 == c
        then v / 2 ^ 8 % 256 % 256
        else if a + 1 == c
        then v / 2 ^ 16 % 256 % 256
        else if a == c
        then v / 2 ^ 24 % 256 % 256
        else x)
      ≡ (if leb a c && ltb c (a + 4) then v / weight (c - a) % 256 else x)
pick_byte a c v x =
    ground
      (arith, weight_behind 0 a c, weight_behind 1 a c, weight_behind 2 a c, weight_behind 3 a c)

module _ (bus : Bus) where
  -- The memory after the store of one byte.
  abbrev pub wrote : ℕ → ℕ → Memory bus.State → Memory bus.State
  wrote a v m = write_cell bus a (λ w. poke true w (a % 4) v) (clear m)

  pub wrote-byte_at :
      (a c v : ℕ) (m : Memory bus.State)
      → byte_at (wrote a v m) c ≡ (if a == c then v % 256 else byte_at m c)
  unfolding byte_at word_at
  wrote-byte_at a c v m =
      rw (write_cell-word_at bus a (c / 4) (λ w. poke true w (a % 4) v) (clear m))
        (elim (Bool-cases (a / 4 == c / 4)) [
          | inl e ↦
              let s : a / 4 ≡ c / 4 = (==_iff _ _).0 e in
              rw (e, ← same_address a c s)
                (put_byte-weight (a % 4) (c % 4) (word_at m (c / 4)) v (omega arith) (omega arith))
          | inr e ↦ let n : (a == c) ≡ false = ground arith in rw (e, n)
        ])

  pub write_cell-memory_size :
      (a : ℕ) (f : ℕ → ℕ) (m : Memory bus.State)
      → (write_cell bus a f m).memory_size ≡ m.memory_size
  unfolding write_cell
  write_cell-memory_size a f m = ground arith

  pub write_cell-sim_errno :
      (a : ℕ) (f : ℕ → ℕ) (m : Memory bus.State) → (write_cell bus a f m).sim_errno ≡ m.sim_errno
  unfolding write_cell
  write_cell-sim_errno a f m = ground arith

  pub wrote-memory_size :
      (a v : ℕ) (m : Memory bus.State) → (wrote a v m).memory_size ≡ m.memory_size
  wrote-memory_size a v m = write_cell-memory_size a (λ w. poke true w (a % 4) v) (clear m)

  pub write_sim_b_inside :
      (a v : ℕ) (m : Memory bus.State)
      → a < m.memory_size
      → write_sim_b bus true a v m ≡ (pos 0, wrote a v m)
  unfolding write_sim_b
  write_sim_b_inside a v m h = let e : leb m.memory_size a ≡ false = ground arith in rw e

  -- The four bytes of a word that is not aligned, most significant first.
  abbrev pub wrote_word : ℕ → ℕ → Memory bus.State → Memory bus.State
  wrote_word a v m = wrote (a + 3) (v % 256) (
      wrote (a + 2) (v / 2 ^ 8 % 256)
        (wrote (a + 1) (v / 2 ^ 16 % 256) (wrote a (v / 2 ^ 24 % 256) m)))

  pub write_sim_w_unaligned :
      (a v : ℕ) (m : Memory bus.State)
      → a + 3 < m.memory_size
      → m.memory_size ≤ 2 ^ 32
      → (a % 4 == 0) ≡ false
      → write_sim_w bus true a v m ≡ (pos 0, wrote_word a v m)
  unfolding write_sim_w
  write_sim_w_unaligned a v m h hs u =
      let e : leb m.memory_size a ≡ false = ground arith in
      let e1 : (a + 1) % 2 ^ 32 ≡ a + 1 = omega arith in
      let e2 : (a + 2) % 2 ^ 32 ≡ a + 2 = omega arith in
      let e3 : (a + 3) % 2 ^ 32 ≡ a + 3 = omega arith in
      let m1 = wrote a (v / 2 ^ 24 % 256) m in
      let m2 = wrote (a + 1) (v / 2 ^ 16 % 256) m1 in
      let m3 = wrote (a + 2) (v / 2 ^ 8 % 256) m2 in
      let s1 = wrote-memory_size a (v / 2 ^ 24 % 256) m in
      let s2 = wrote-memory_size (a + 1) (v / 2 ^ 16 % 256) m1 in
      let s3 = wrote-memory_size (a + 2) (v / 2 ^ 8 % 256) m2 in
      rw (
        e,
        u,
        e1,
        e2,
        e3,
        write_sim_b_inside a (v / 2 ^ 24 % 256) (clear m) (omega arith),
        write_sim_b_inside (a + 1) (v / 2 ^ 16 % 256) m1 (omega arith),
        write_sim_b_inside (a + 2) (v / 2 ^ 8 % 256) m2 (omega arith),
        write_sim_b_inside (a + 3) (v % 256) m3 (omega arith),
      )

  wrote_word-byte_at :
      (a c v : ℕ) (m : Memory bus.State)
      → byte_at (wrote_word a v m) c
        ≡ (if leb a c && ltb c (a + 4) then v / weight (c - a) % 256 else byte_at m c)
  wrote_word-byte_at a c v m =
      let m1 = wrote a (v / 2 ^ 24 % 256) m in
      let m2 = wrote (a + 1) (v / 2 ^ 16 % 256) m1 in
      let m3 = wrote (a + 2) (v / 2 ^ 8 % 256) m2 in
      rw
        (
          wrote-byte_at (a + 3) c (v % 256) m3,
          wrote-byte_at (a + 2) c (v / 2 ^ 8 % 256) m2,
          wrote-byte_at (a + 1) c (v / 2 ^ 16 % 256) m1,
          wrote-byte_at a c (v / 2 ^ 24 % 256) m,
        )
        (pick_byte a c v (byte_at m c))

  inside_word : (a c : ℕ) → (a % 4 == 0) ≡ true → (a / 4 == c / 4) ≡ (leb a c && ltb c (a + 4))
  inside_word a c h = ground arith

  write_sim_w_aligned :
      (a c v : ℕ) (m : Memory bus.State)
      → (a % 4 == 0) ≡ true
      → byte_at (write_cell bus a (λ w. v) (clear m)) c
        ≡ (if leb a c && ltb c (a + 4) then v / weight (c - a) % 256 else byte_at m c)
  unfolding byte_at word_at
  write_sim_w_aligned a c v m h =
      rw (write_cell-word_at bus a (c / 4) (λ w. v) (clear m), ← inside_word a c h)
        (elim (Bool-cases (a / 4 == c / 4)) [
          | inl e ↦ let k : c % 4 ≡ c - a = ground arith in rw (e, k)
          | inr e ↦ rw e
        ])

  wrote-sim_errno : (a v : ℕ) (m : Memory bus.State) → (wrote a v m).sim_errno ≡ false
  wrote-sim_errno a v m = write_cell-sim_errno a (λ w. poke true w (a % 4) v) (clear m)

  -- write_sim_w of a word that lies in memory, aligned or not, on a big-endian host: it returns 0
  -- with no error, its four bytes are those of the value, the most significant first, and every
  -- other byte is as it was.
  pub write_sim_w-byte_at :
      (a v c : ℕ) (m : Memory bus.State)
      → a + 3 < m.memory_size
      → m.memory_size ≤ 2 ^ 32
      → let (r, m') = write_sim_w bus true a v m in
        (r ≡ pos 0)
        × (m'.sim_errno ≡ false)
        × (byte_at m' c
            ≡ (if leb a c && ltb c (a + 4) then v / weight (c - a) % 256 else byte_at m c))
  unfolding write_sim_w
  write_sim_w-byte_at a v c m h hs = elim (Bool-cases (a % 4 == 0)) [
    | inl e ↦
        let i : leb m.memory_size a ≡ false = ground arith in
        rw (i, e) (refl, write_cell-sim_errno a (λ w. v) (clear m), write_sim_w_aligned a c v m e)
    | inr e ↦
        let m1 = wrote a (v / 2 ^ 24 % 256) m in
        let m2 = wrote (a + 1) (v / 2 ^ 16 % 256) m1 in
        let m3 = wrote (a + 2) (v / 2 ^ 8 % 256) m2 in
        rw (write_sim_w_unaligned a v m h hs e)
          (refl, wrote-sim_errno (a + 3) (v % 256) m3, wrote_word-byte_at a c v m)
  ]
