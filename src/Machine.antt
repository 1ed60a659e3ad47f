-- ===== src/Machine.antt =====
-- The simulated machine, code/machine.
pub mod DiskHead
pub mod Word
pub mod Mult
pub mod Instruction
pub mod Cpu
pub mod Transfer
pub mod Execute
pub mod Mmu
pub mod Translate
pub mod Paging
pub mod Interrupt
