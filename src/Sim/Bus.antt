-- ===== src/Sim/Bus.antt =====
-- What sim/memory.c asks of the devices: io_operation (sim/io.c) with LD_U, which fills in a value
-- or returns an exception code, and with ST.
use g.Base.{ℕ, Bool, Option}

-- BYTE, HALF, WORD and DWORD (sim/sim.h): 1, 2, 4 and 8 bytes.
pub data Size : Type 0 where
  byte half word dword : Size

pub record Bus : Type 1 where
  pub State : Type 0
  -- `none` where the code is not E_NONE.
  pub load : Size → ℕ → State → Option ℕ × State
  -- The address and the value; `true` where the code is E_NONE.
  pub store : Size → ℕ → ℕ → State → Bool × State
