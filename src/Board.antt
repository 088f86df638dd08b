-- ===== src/Board.antt =====
-- The machine that `main` of space.c puts together: the two ranges of RAM, the timer, the host
-- interface and the interrupt controller, in the order in which they are registered, behind the
-- table of iomap.c. The items of the debugger and of the two virtio devices, which come after them,
-- are not among them: an access to their ranges is refused here.
pub mod Keeps
pub mod Bus
pub mod Run
pub mod Sound
pub mod Ram
pub mod StoreLoad
pub mod Atomics
use space_emu.Base.{ℕ, Bool, true, false, Option, none, some, List, [], ◌∷◌}
use space_emu.Base.Bytes.{length}
use space_emu.Clint.{clint_base_addr, clint_init, clint_read, clint_write}
use space_emu.Cpu.{CpuState}
use space_emu.Device.{Reply}
use space_emu.Htif.{Machine, htif_base_addr, htif_read, htif_write}
use space_emu.Iomap.{AddressItem, read_bytes, write_bytes}
use space_emu.Memory.{Buffer, low_ram_size, memory_size, ram_base_addr, memory_read, memory_write}
use space_emu.Plic.{plic_base_addr, plic_read, plic_write}

-- What the items keep beside the processor: the buffers, the bytes printed, the exit of the
-- emulator, and whether an access was made that C leaves undefined.
pub record Board : Type 0 where
  pub low_ram : Buffer
  pub ram : Buffer
  pub console : List ℕ
  pub exit_code : Option ℕ
  pub undefined : Bool

abbrev pub State : Type 0
State = CpuState × Board

-- CLINT_SIZE, HTIF_SIZE and PLIC_SIZE
abbrev clint_size : ℕ
clint_size = 0xc0000

abbrev htif_size : ℕ
htif_size = 16

abbrev plic_size : ℕ
plic_size = 0x400000

-- An access to a buffer, with what it leaves put back.
unfoldable pub in_low : State → Option (Reply Buffer) → Option (Reply State)
in_low x none = none
in_low x (some r) =
    some (record { state = (x.0, record (x.1) { low_ram = r.state }); bytes = r.bytes; ok = r.ok })

unfoldable pub in_ram : State → Option (Reply Buffer) → Option (Reply State)
in_ram x none = none
in_ram x (some r) =
    some (record { state = (x.0, record (x.1) { ram = r.state }); bytes = r.bytes; ok = r.ok })

-- An access to a device that keeps its state in the processor's.
unfoldable pub in_cpu : State → Reply CpuState → Option (Reply State)
in_cpu x r = some (record { state = (r.state, x.1); bytes = r.bytes; ok = r.ok })

unfoldable pub in_htif : State → Reply Machine → Option (Reply State)
in_htif x r = some (record {
  state = (r.state.cpu, record (x.1) { console = r.state.console; exit_code = r.state.exit_code });
  bytes = r.bytes;
  ok = r.ok;
})

abbrev pub htif_state : State → Machine
htif_state x = record { cpu = x.0; console = x.1.console; exit_code = x.1.exit_code }

-- A reply, with an access that C leaves undefined marked on the board.
unfoldable pub settled : State → Option (Reply State) → Reply State
settled x none = record { state = (x.0, record (x.1) { undefined = true }); bytes = []; ok = false }
settled x (some r) = r

module _ (ctz32 : ℕ → ℕ) (real : ℕ → ℕ) where
  unfoldable pub low_item : AddressItem State
  unfolding in_low
  low_item = record {
    start_address = 0;
    size = low_ram_size;
    init = λ x. some x;
    read_bytes = λ x src n. in_low x (memory_read low_ram_size 0 x.1.low_ram src n);
    write_bytes = λ x src dst. in_low x (memory_write low_ram_size 0 x.1.low_ram src dst);
  }

  unfoldable pub ram_item : AddressItem State
  unfolding in_ram
  ram_item = record {
    start_address = ram_base_addr;
    size = memory_size;
    init = λ x. some x;
    read_bytes = λ x src n. in_ram x (memory_read memory_size ram_base_addr x.1.ram src n);
    write_bytes = λ x src dst. in_ram x (memory_write memory_size ram_base_addr x.1.ram src dst);
  }

  unfoldable pub clint_item : AddressItem State
  unfolding in_cpu
  clint_item = record {
    start_address = clint_base_addr;
    size = clint_size;
    init = λ x. some (clint_init x.0 (real 0), x.1);
    read_bytes = λ x src n. in_cpu x (clint_read real x.0 src n);
    write_bytes = λ x src dst. in_cpu x (clint_write x.0 src dst);
  }

  unfoldable pub htif_item : AddressItem State
  unfolding in_htif
  htif_item = record {
    start_address = htif_base_addr;
    size = htif_size;
    init = λ x. some x;
    read_bytes = λ x src n. in_htif x (htif_read (htif_state x) src n);
    write_bytes = λ x src dst. in_htif x (htif_write (htif_state x) src dst);
  }

  unfoldable pub plic_item : AddressItem State
  unfolding in_cpu
  plic_item = record {
    start_address = plic_base_addr;
    size = plic_size;
    init = λ x. some x;
    read_bytes = λ x src n. in_cpu x (plic_read ctz32 x.0 src n);
    write_bytes = λ x src dst. in_cpu x (plic_write x.0 src dst);
  }

  unfoldable pub items : List (AddressItem State)
  items = low_item ∷ ram_item ∷ clint_item ∷ htif_item ∷ plic_item ∷ []

  unfoldable pub board_read : State → ℕ → ℕ → Reply State
  unfolding items settled
  board_read x address size = settled x (read_bytes items x address size)

  unfoldable pub board_write : State → ℕ → List ℕ → Reply State
  unfolding items settled
  board_write x address src = settled x (write_bytes items x address (length src) src)
