-- ===== src/Regs.antt =====
-- regs.c: the control and status registers, traps and interrupts.
pub mod Status
pub mod Csr
pub mod Trap
pub mod Valid
