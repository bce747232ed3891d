-- ===== src/Sim/Memory/Tests.antt =====
-- sim/memory.c: loads and stores on a memory of two pages, and each theorem at such an input.
use g.Base.{ℕ, ◌+◌, ◌≡◌, refl, true, false, none, some, ◌==◌, if◌then◌else◌, arith, inr}
use g.Base.Int.{pos}
use g.Sim.Bus.{Bus}
use g.Sim.Memory.{Memory, read_sim_w, read_sim_b, read_sim_h, write_sim_b, write_sim_w, io_load}
use g.Sim.Memory.View.{byte_at, IsMemory, word_at}
use g.Sim.Memory.Write.{write_sim_w-byte_at}
use g.Sim.Memory.Read.{bytes_at, read_sim_w-bytes_at}
use g.Sim.Memory.Roundtrip.{read_sim_w-write_sim_w}
use g.Sim.Memory.Faults.{write_sim_b-little_endian, read_sim_b-last_word, read_sim_b-keeps_errno}

-- One device register, at 0x8000, which counts the loads.
abbrev device : Bus
device = record {
  State = ℕ;
  load = λ size a n. if a == 0x8000 then (some n, n + 1) else (none, n);
  store = λ size a v n. if a == 0x8000 then (true, v) else (false, n);
}

abbrev reset : Memory ℕ
reset = record { memory_size = 8192; page_table = λ i. none; sim_errno = false; io = 7 }

reset-IsMemory : IsMemory reset
unfolding word_at
reset-IsMemory = record { words = λ i. omega arith }

abbrev failed : Memory ℕ
failed = record reset { sim_errno = true }

device_load : (read_sim_w device 0x8000 reset).0 ≡ 7
unfolding read_sim_w io_load
device_load = refl

word_written :
    let (r, m') = write_sim_w device true 0xffe 0x12345678 reset in
    (r ≡ pos 0) × (m'.sim_errno ≡ false) × (byte_at m' 0x1000 ≡ 0x56)
unfolding byte_at
word_written = write_sim_w-byte_at device 0xffe 0x12345678 0x1000 reset (omega arith) (omega arith)

unaligned_word_read :
    let (w, m') = read_sim_w device 0xffe reset in
    (w ≡ bytes_at reset 0xffe) × (m'.sim_errno ≡ false)
unaligned_word_read =
    read_sim_w-bytes_at device 0xffe reset (omega arith) (inr (omega arith)) (omega arith)
      reset-IsMemory

read_sim_w-write_sim_w_example :
    let (w, m') = read_sim_w device 0xffe (write_sim_w device true 0xffe 0x12345678 reset).1 in
    (w ≡ 0x12345678) × (m'.sim_errno ≡ false)
read_sim_w-write_sim_w_example =
    read_sim_w-write_sim_w device 0xffe 0x12345678 reset (omega arith) (inr (omega arith))
      (omega arith) (omega arith) reset-IsMemory

byte_mirrored : byte_at (write_sim_b device false 0x101 0x7f reset).1 0x102 ≡ 0x7f
unfolding byte_at
byte_mirrored = write_sim_b-little_endian device 0x101 0x7f 0x102 reset (omega arith)

device_behind_last_word : (read_sim_b device 8191 reset).1.sim_errno ≡ true
device_behind_last_word =
    read_sim_b-last_word device 8191 reset (omega arith) refl (omega arith) (omega arith) refl

device_keeps_errno :
    ((read_sim_b device 0x8000 failed).1.sim_errno ≡ true)
    × ((read_sim_h device 0x8000 failed).1.sim_errno ≡ false)
device_keeps_errno = read_sim_b-keeps_errno device 0x8000 7 failed (omega arith) refl refl refl
