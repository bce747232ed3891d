-- ===== src/Break/Target.antt =====
-- What breakpoint.c asks of the memory of the program that is debugged: read_memory and
-- write_memory (core.c) on the four bytes at an aligned address.
use g.Base.{ℕ, ◌≡◌, ◌&&◌, ◌==◌, if◌then◌else◌}
use g.Break.{align}

pub record Target : Type 1 where
  pub State : Type 0
  pub read_memory : State → ℕ → ℕ
  -- The `errno` value, 0 on success, and the state after the write.
  pub write_memory : State → ℕ → ℕ → ℕ × State
  -- A write that succeeds changes the word at its address alone; one that fails, nothing.
  pub read-write :
      (s : State) (a b v : ℕ)
      → align a ≡ a
      → align b ≡ b
      → read_memory (write_memory s a v).1 b
        ≡ (if (write_memory s a v).0 == 0 && a == b then v else read_memory s b)
