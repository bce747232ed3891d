-- ===== src/Sim.antt =====
-- sim/: the simulator of the 88100, its memory, its memory operations and its address translation.
pub mod Bus
pub mod Memory
pub mod Cmmu
pub mod Execute
pub mod Instr
pub mod Decoder
pub mod Access
