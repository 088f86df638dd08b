-- ===== src/Regs/Csr.antt =====
-- `csr_read` and `csr_write` of regs.c. A CSR number that the code does not know is printed and
-- refused; the printing is left out.
pub mod Read
pub mod Write
pub mod Merge
pub mod Views
pub mod ReadBack
