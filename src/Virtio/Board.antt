-- ===== src/Virtio/Board.antt =====
-- The virtio devices on the board: physical accesses go through the table of iomap.c, and the RAM
-- of the board is what the queues live in.
pub mod Driven
pub mod Used
use space_emu.Base.{ℕ, refl, List, ◌∙◌, ap, arith, ◌+◌, ◌-◌, ◌≡◌, ◌<◌, ◌≤◌}
use space_emu.Base.Bytes.{length}
use space_emu.Board.{Board, State, board_read, board_write}
use space_emu.Board.Ram.{board_read_ram, board_write_ram}
use space_emu.Base.Bits.{has_bit}
use space_emu.Board.Bus.{board-BusKeeps}
use space_emu.Board.Keeps.{LinesKeep}
use space_emu.Virtio.Registers.Line.{IsLine}
use space_emu.Virtio.Registers.Valid.{IsRegistered}
use space_emu.Cpu.{CpuState}
use space_emu.Device.{Reply}
use space_emu.Memory.{Buffer, memory_size, ram_base_addr}
use space_emu.Memory.Safety.{write_at, read_at-write_at}
use space_emu.Virtio.{World, VirtioDevice, IsMinInt}
use space_emu.Virtio.Ram.{virtio_memcpy_from_ram, virtio_memcpy_to_ram}
use space_emu.Virtio.Ram.Whole.{RamBus, from_ram-whole, to_ram-whole}

-- The device's own part of the machine comes before the board.
abbrev on_world : {B : Type 0} → VirtioDevice → B → Reply State → Reply (World (B × Board))
on_world device own r = record {
  state = record { device = device; cpu = r.state.0; rest = (own, r.state.1) };
  bytes = r.bytes;
  ok = r.ok;
}

-- The controller's pending sources are changed by no access.
abbrev HasPending : ℕ → CpuState → Type 0
HasPending pending s = s.plic_pending_irq ≡ pending

HasPending-LinesKeep : (pending : ℕ) → LinesKeep (HasPending pending)
HasPending-LinesKeep pending = record {
  change = λ s m mtimecmp served tohost fromhost down lt h. h;
}

pending-board_read :
    (ctz32 : ℕ → ℕ) (real : ℕ → ℕ) (x : State) (a n : ℕ)
    → (board_read ctz32 real x a n).state.0.plic_pending_irq ≡ x.0.plic_pending_irq
pending-board_read ctz32 real x a n =
    (board-BusKeeps (HasPending-LinesKeep x.0.plic_pending_irq) ctz32 real).keep_read x a n refl

pending-board_write :
    (ctz32 : ℕ → ℕ) (real : ℕ → ℕ) (x : State) (a : ℕ) (src : List ℕ)
    → (board_write ctz32 real x a src).state.0.plic_pending_irq ≡ x.0.plic_pending_irq
pending-board_write ctz32 real x a src =
    (board-BusKeeps (HasPending-LinesKeep x.0.plic_pending_irq) ctz32 real).keep_write x a src refl

module _ {B : Type 0} (ctz32 : ℕ → ℕ) (real : ℕ → ℕ) where
  -- The accesses of a device whose own registers are not in the table.
  unfoldable pub world_read : World (B × Board) → ℕ → ℕ → Reply (World (B × Board))
  world_read w a n = on_world w.device w.rest.0 (board_read ctz32 real (w.cpu, w.rest.1) a n)

  unfoldable pub world_write : World (B × Board) → ℕ → List ℕ → Reply (World (B × Board))
  world_write w a src = on_world w.device w.rest.0 (board_write ctz32 real (w.cpu, w.rest.1) a src)

  module _ (device : VirtioDevice) (cpu : CpuState) (own : B) (board : Board) where
    abbrev pub with_ram : Buffer → World (B × Board)
    with_ram mem = record { device = device; cpu = cpu; rest = (own, record board { ram = mem }) }

    pub board-RamBus : RamBus world_read world_write ram_base_addr memory_size with_ram
    unfolding world_read world_write
    board-RamBus = record {
      fits = omega arith;
      on_read = λ mem a n low high.
          ap (on_world device own)
            (board_read_ram ctz32 real (cpu, record board { ram = mem }) a n low high);
      on_write = λ mem a src low high.
          ap (on_world device own)
            (board_write_ram ctz32 real (cpu, record board { ram = mem }) a src low high);
    }

    -- With a `min_int` that is the minimum, a buffer copied to the RAM of the board by
    -- pages, before its last byte, and copied back from there over any buffer of its
    -- length, is as it was, and nothing but the RAM changes.
    pub from_ram-to_ram :
        (min_int : ℕ → ℕ → ℕ) (mem : Buffer) (addr : ℕ) (buf old : List ℕ)
        → IsMinInt min_int
        → ram_base_addr ≤ addr
        → addr + length buf < ram_base_addr + memory_size
        → length old ≡ length buf
        → (after : Buffer) × (virtio_memcpy_to_ram min_int world_write
              (with_ram mem)
              addr
              buf
              (length buf)
            ≡ with_ram after)
          × (virtio_memcpy_from_ram min_int world_read (with_ram after) old addr (length buf)
              ≡ (with_ram after, buf))
    from_ram-to_ram min_int mem addr buf old is_min low high same =
        let ram = board-RamBus in
        let after = write_at mem (addr - ram_base_addr) buf in
        (
          after,
          to_ram-whole min_int is_min world_read world_write ram_base_addr memory_size with_ram ram
              mem addr buf low high (omega arith),
          from_ram-whole min_int is_min world_read world_write ram_base_addr memory_size with_ram
                ram after old addr (length buf) low high (omega arith) same
              ∙ ap (λ bs. (with_ram after, bs)) (read_at-write_at mem (addr - ram_base_addr) buf),
        )

  pub world_read-IsLine :
      (w : World (B × Board)) (a n : ℕ) → IsLine w → IsLine (world_read w a n).state
  unfolding world_read
  world_read-IsLine w a n h = record {
    positive = h.positive;
    bounded = h.bounded;
    line =
        ap (λ p. has_bit p (w.device.irq_num - 1))
          (pending-board_read ctz32 real (w.cpu, w.rest.1) a n)
        ∙ h.line;
  }

  pub world_write-IsLine :
      (w : World (B × Board)) (a : ℕ) (src : List ℕ) → IsLine w → IsLine (world_write w a src).state
  unfolding world_write
  world_write-IsLine w a src h = record {
    positive = h.positive;
    bounded = h.bounded;
    line =
        ap (λ p. has_bit p (w.device.irq_num - 1))
          (pending-board_write ctz32 real (w.cpu, w.rest.1) a src)
        ∙ h.line;
  }

  pub world_read-IsRegistered :
      (w : World (B × Board)) (a n : ℕ) → IsRegistered w → IsRegistered (world_read w a n).state
  unfolding world_read
  world_read-IsRegistered w a n h = record { selected = h.selected; rings = h.rings }

  pub world_write-IsRegistered :
      (w : World (B × Board)) (a : ℕ) (src : List ℕ)
      → IsRegistered w
      → IsRegistered (world_write w a src).state
  unfolding world_write
  world_write-IsRegistered w a src h = record { selected = h.selected; rings = h.rings }
