-- ===== src/Sim/Memory/Faults.antt =====
-- sim/memory.c: where the error flag or the byte that is written is not what a caller expects.
use g.Base.{
  ℕ, zero, suc, ◌+◌, ◌-◌, ◌*◌, ◌/◌, ◌%◌, ◌^◌, ◌<◌, ◌≤◌, ◌≡◌, ◌≢◌, refl, true, false, none, some,
  ◌==◌, leb, if◌then◌else◌, arith,
}
use g.Sim.Bus.{Bus, Size}
use g.Sim.Memory.{
  Memory, write_cell, poke, clear, join, read_aligned, read_cell, io_load, from_offset, read_sim_w,
  read_sim_h, read_sim_b, write_sim_b,
}
use g.Sim.Memory.View.{byte_at}
use g.Sim.Memory.Write.{wrote-byte_at}

-- The address at which a little-endian host keeps the byte.
abbrev pub mirror : ℕ → ℕ
mirror a = a / 4 * 4 + (3 - a % 4)

module _ (bus : Bus) where
  write_cell-mirror :
      (a : ℕ) (f : ℕ → ℕ) (m : Memory bus.State)
      → write_cell bus (mirror a) f m ≡ write_cell bus a f m
  unfolding write_cell
  write_cell-mirror a f m =
      let e : mirror a / 4096 ≡ a / 4096 = omega arith in
      let g : mirror a % 4096 / 4 ≡ a % 4096 / 4 = omega arith in rw (e, g)

  -- On a little-endian host write_sim_b in memory changes the byte at the mirrored offset in the
  -- word of its address, and no other.
  pub write_sim_b-little_endian :
      (a v c : ℕ) (m : Memory bus.State)
      → a < m.memory_size
      → byte_at (write_sim_b bus false a v m).1 c ≡ (if mirror a == c then v % 256 else byte_at m c)
  unfolding write_sim_b
  write_sim_b-little_endian a v c m h =
      let i : leb m.memory_size a ≡ false = ground arith in
      let e : mirror a % 4 ≡ 3 - a % 4 = omega arith in
      rw (i, ← write_cell-mirror a (λ w. poke false w (a % 4) v) (clear m))
        (rw e at (wrote-byte_at bus (mirror a) c v m))

  -- The word behind the last one is a device's.
  read_aligned-fails :
      (a : ℕ) (m : Memory bus.State)
      → m.memory_size ≤ a
      → (bus.load Size.word a m.io).0 ≡ none
      → (read_aligned bus a m).1.sim_errno ≡ true
  unfolding read_aligned io_load
  read_aligned-fails a m h e =
      let i : leb m.memory_size a ≡ true = ground arith in rw (i, e, io_load)

  read_cell-bus :
      (a : ℕ) (m : Memory bus.State)
      → ((read_cell a m).1.memory_size ≡ m.memory_size) × ((read_cell a m).1.io ≡ m.io)
  unfolding read_cell
  read_cell-bus a m = (ground arith, ground arith)

  from_offset-fails :
      (r a w : ℕ) (m : Memory bus.State)
      → r ≢ 0
      → m.memory_size ≤ (a / 4 * 4 + 4) % 2 ^ 32
      → (bus.load Size.word ((a / 4 * 4 + 4) % 2 ^ 32) m.io).0 ≡ none
      → (from_offset bus r a w m).1.sim_errno ≡ true
  unfolding join
  from_offset-fails zero a w m hr h e = absurd (hr refl)
  from_offset-fails (suc zero) a w m hr h e = read_aligned-fails _ m h e
  from_offset-fails (suc (suc zero)) a w m hr h e = read_aligned-fails _ m h e
  from_offset-fails (suc (suc (suc r))) a w m hr h e = read_aligned-fails _ m h e

  -- read_sim_b of a byte in the last word of the memory, other than its first, leaves the error
  -- flag set where no device is at the address behind the memory.
  pub read_sim_b-last_word :
      (a : ℕ) (m : Memory bus.State)
      → a < m.memory_size
      → a / 4 * 4 + 4 ≡ m.memory_size
      → m.memory_size < 2 ^ 32
      → a % 4 ≢ 0
      → (bus.load Size.word m.memory_size m.io).0 ≡ none
      → (read_sim_b bus a m).1.sim_errno ≡ true
  unfolding read_sim_b read_sim_w
  read_sim_b-last_word a m h last small off e =
      let i : leb m.memory_size a ≡ false = ground arith in
      let k : (a / 4 * 4 + 4) % 2 ^ 32 ≡ m.memory_size = omega arith in
      let c = read_cell-bus a (clear m) in
      rw i (
        from_offset-fails (a % 4) a (read_cell a (clear m)).0 (read_cell a (clear m)).1 off
          (omega (arith, c.0, k)) (rw (c.1, k) e))

  -- At an even address where a device answers a byte and a halfword: read_sim_b leaves the error
  -- flag of an earlier access, and read_sim_h clears it.
  pub read_sim_b-keeps_errno :
      (a v : ℕ) (m : Memory bus.State)
      → m.memory_size ≤ a
      → a % 2 ≡ 0
      → (bus.load Size.byte a m.io).0 ≡ some v
      → (bus.load Size.half a m.io).0 ≡ some v
      → ((read_sim_b bus a m).1.sim_errno ≡ m.sim_errno)
        × ((read_sim_h bus a m).1.sim_errno ≡ false)
  unfolding read_sim_b read_sim_h io_load
  read_sim_b-keeps_errno a v m h even e f =
      let i : leb m.memory_size a ≡ true = ground arith in
      let j : (a % 2 == 1) ≡ false = ground arith in (rw (i, e, io_load), rw (j, i, f, io_load))
