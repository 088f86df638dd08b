-- ===== src/Lib.antt =====
-- space_emu: a RISC-V emulator in C, with 64-bit integer and float registers (XLEN = FLEN = 64).
--
-- The processor keeps one state, `cpu_state_t` of regs.h. Instructions read and write it, through
-- regs.c where privileged registers, traps and returns are concerned. Memory and devices are
-- ranges of addresses in the table of iomap.c, which passes each physical access on to the item
-- that holds it: RAM (memory.c), the interrupt controller (plic.c), the timer (clint.c) and the
-- host interface (htif.c). The virtio devices (virtio_interface.c) read their queues of
-- descriptors through the same table: a disk (virtio_block_device.c) and a console. The devices
-- set the bits of `mip`, and `raise_interrupt` of regs.c turns these into traps. Accesses at
-- virtual addresses walk the page tables in memory (iomap.c).
--
-- What models what:
--   Cpu           regs.h: the state as a record, `set_mip` and `reset_mip`
--   Regs/Status   regs.c: `get_mstatus` and `set_mstatus`
--   Regs/Csr      regs.c: `csr_read` and `csr_write`, by the registers' privilege level
--   Regs/Trap     regs.c: `set_priv`, `raise_exception`, `raise_interrupt`, `handle_sret`, `handle_mret`
--   Regs/Valid    the states that regs.c keeps: the bounds of the fields that it guards, less
--                 SXL and the words that take any value
--   Device        the loops by which the devices cut an access into words of four bytes
--   Plic, Clint   plic.c; clint.c with `machine_get_sleep_duration` of regs.c
--   Htif          htif.c; what is printed and the exit are part of the state
--   Iomap         iomap.c: the table of ranges, registration and dispatch
--   Translate     iomap.c: the walk of the page tables, `address_translate`, and in Translate/Vaddr
--                 `read_vaddr`, `write_vaddr` and `code_vaddr`
--   Memory        memory.c: the two ranges of RAM
--   Alu           instructions.c: multiplication and division, and the results of the instruction
--                 groups OP, OP-IMM, OP-IMM-32 and OP-32
--   Instr         instructions.c: `decode_inst` as a step of the processor and the memory. Fields
--                 and immediates in Instr/Fields, the compressed forms in Instr/Compressed, the
--                 other groups in Instr/Control, LoadStore, Amo, System and Float, the outer
--                 `switch` in Instr/Decode, `fetch_inst` and `machine_loop`, with the loop of
--                 `main` around it, in Instr/Loop; Instr/Keeps, Sound and Precise follow a
--                 property through an instruction
--   Board         space.c: the items of memory.c, clint.c, htif.c and plic.c behind the table, and
--                 `copy_bin`
--   Fdt           fdt.c: the writer of the device tree, its table of names and its layout
--   Virtio        virtio_interface.c, virtio_block_device.c and console.c. The registers are in
--                 Virtio/Registers, the copies in Ram, Queue and Copy, the rings in Copy and
--                 Notify, the block device in Block and its disk in Disk, the console in Console
--                 and Keys, the setup in Init; Keeps follows a property through a notification,
--                 and Virtio/Board puts the block device on the board
--   Space         space.c: the reset state, and the states reached from it
--   Base          words, bits, bytes, the C switch, and the Boolean tests
--
-- Conventions. A word is a natural number, with its wrap-around written out. A C function that
-- changes the state returns the new one. A -1 is `none` or a flag of the reply; an access that C
-- leaves undefined, such as one outside an allocation, is an outcome of its own. Parameters are
-- what the code takes from elsewhere: `ctz32`, `min_int`, `cpu_to_be32` and the integers in a
-- buffer of the utility library, the stream of the disk's file, the readings of the host's clock,
-- whether `malloc` succeeds, the functions of the float library, as one function of the call and
-- the flags, and, for the walk and the instructions, the physical accesses, which the board fills
-- in. The value of a counter enable that C never sets in machine mode is a parameter as well, and
-- so is what the local variables of the virtio devices hold before they are set. A virtio access
-- takes and returns the whole machine, since it may reach any device.
--
-- An instruction ends in one of six ways, after the labels of `decode_inst`: on to the next
-- instruction, four or two bytes on, or at a new program counter; at ERROR_PROCESS or at an exception,
-- where the trap is raised; or where C leaves the translation undefined.
--
-- Bounds. The table has 1024 slots, and the loop over it as many rounds. The loop that finds the
-- lowest interrupt has 32 rounds, one for each bit. A walk has as many rounds as the mode has
-- levels. An access at a virtual address has one round more than its size, which is enough, since
-- every round but the last takes at least a byte. A copy to or from memory has as many rounds as
-- bytes. The loops along a chain of descriptors end only if the chain does: they take the number
-- of rounds as an argument, and a chain that ends needs as many as it has descriptors.
--
-- Not modelled: the forms of the instructions for widths that are not compiled; the software
-- floats (softfp) and the utilities (cutils), which are other projects' code; PCI (pci.c), which
-- is in no build of the program and does not compile; the terminal of the console and the reading
-- of images, which are input and output, so that what the machine loop polls is a parameter; the
-- rest of `main`, which registers the items; the virtio devices as items in the table of the
-- board, so that a queue that lies in the registers of a virtio device is refused there; the
-- contents of the device tree (`build_fdt`) and the BIOS and kernel images, which need it; the
-- release functions, which free memory at exit; the debugger and the graphical front end.
pub mod Base
pub mod Cpu
pub mod Regs
pub mod Device
pub mod Plic
pub mod Clint
pub mod Htif
pub mod Iomap
pub mod Translate
pub mod Virtio
pub mod Memory
pub mod Instr
pub mod Board
pub mod Fdt
pub mod Space
pub mod Tests
pub mod Alu
