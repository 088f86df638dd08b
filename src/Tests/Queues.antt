-- ===== src/Tests/Queues.antt =====
-- Chains of descriptors, in a machine that is a RAM of 4096 bytes at 0x1000.
use space_emu.Base.{ℕ, ◌-◌, ◌≡◌, refl, arith, List, [], ◌∷◌, ◌++◌, true, false, min, inl, inr, zero}
use space_emu.Base.{suc}
use space_emu.Base.Bytes.{to_bytes, from_bytes}
use space_emu.Alu.Helpers.{sext32}
use space_emu.Device.{Reply}
use space_emu.Memory.{Buffer}
use space_emu.Memory.Safety.{read_at, write_at}
use space_emu.Tests.{user}
use space_emu.Virtio.{World, VirtioDevice, IsMinInt, done}
use space_emu.Virtio.Copy.{virtual_memcpy_from_queue}
use space_emu.Virtio.Copy.Gather.{gather, from_queue-gather, from_queue-second}
use space_emu.Virtio.Init.{virtio_init}
use space_emu.Virtio.Queue.{get_desc, get_desc_rw_size, desc_of}
use space_emu.Virtio.Queue.Sizes.{Chain, sizes, descs, get_desc_rw_size-sizes}
use space_emu.Virtio.Ram.Whole.{RamBus}

abbrev tiny_read : World Buffer → ℕ → ℕ → Reply (World Buffer)
tiny_read w a n = record { state = w; bytes = read_at w.rest n (a - 0x1000); ok = true }

abbrev tiny_write : World Buffer → ℕ → List ℕ → Reply (World Buffer)
tiny_write w a src = record {
  state = record w { rest = write_at w.rest (a - 0x1000) src };
  bytes = [];
  ok = true;
}

-- The table of descriptors is at the start of the RAM.
abbrev tiny_device : VirtioDevice
tiny_device = record (virtio_init 1 2 8) {
  queue = λ i. record {
    ready = true;
    num = 16;
    last_avail_idx = 65535;
    desc_addr = 0x1000;
    avail_addr = 0x1800;
    used_addr = 0x1900;
    manual_recv = false;
  };
}

abbrev tiny : Buffer → World Buffer
tiny mem = record { device = tiny_device; cpu = user; rest = mem }

tiny-RamBus : RamBus tiny_read tiny_write 0x1000 0x1000 tiny
tiny-RamBus = record {
  fits = omega arith;
  on_read = λ mem a n low high. refl;
  on_write = λ mem a src low high. refl;
}

min_is : IsMinInt min
min_is a b p q = refl

abbrev desc_bytes : ℕ → ℕ → ℕ → ℕ → List ℕ
desc_bytes addr len flags next =
    to_bytes 8 addr ++ (to_bytes 4 len ++ (to_bytes 2 flags ++ to_bytes 2 next))

-- A header and 32 bytes of a buffer, to be read, and a byte to be written.
abbrev header : List ℕ
header = desc_bytes 0x1100 16 1 1

abbrev payload : List ℕ
payload = desc_bytes 0x1200 32 1 2

abbrev status : List ℕ
status = desc_bytes 0x1300 1 2 0

abbrev table : Buffer
table = write_at (λ i. 0) 0 (header ++ (payload ++ status))

-- The descriptors are read where they are.
tiny_desc :
    (get_desc min tiny_read (tiny table) [] 0 0 ≡ (tiny table, header))
    × (get_desc min tiny_read (tiny table) header 0 1 ≡ (tiny table, payload))
    × (get_desc min tiny_read (tiny table) payload 0 2 ≡ (tiny table, status))
unfolding write_at read_at to_bytes from_bytes get_desc sext32 space_emu.Memory.update
    space_emu.Virtio.Ram.virtio_memcpy_from_ram space_emu.Virtio.Ram.from_ram_loop
tiny_desc = (refl, refl, refl)

tiny-Chain : Chain min tiny_read (tiny table) 0 (header ∷ payload ∷ status ∷ [])
unfolding to_bytes from_bytes desc_of
tiny-Chain = (refl, tiny_desc.1, (refl, tiny_desc.2, refl))

get_desc_rw_size-sizes_example :
    get_desc_rw_size min tiny_read 3 [] 0 0 (tiny table)
    ≡ done (tiny table) (sizes 0 (descs (header ∷ payload ∷ status ∷ [])))
get_desc_rw_size-sizes_example =
    get_desc_rw_size-sizes min tiny_read (tiny table) 0 3 0 [] header (payload ∷ status ∷ [])
      (omega arith) tiny_desc.0 tiny-Chain

abbrev blank_bytes : ℕ → List ℕ
blank_bytes zero = []
blank_bytes (suc n) = 0 ∷ blank_bytes n

from_queue-gather_example :
    virtual_memcpy_from_queue min tiny_read tiny_write 3 [] (blank_bytes 20) 0 0 4 20 (tiny table)
    ≡ done (tiny table) (true, gather table 0x1000 4 20 (descs (header ∷ payload ∷ status ∷ [])))
unfolding to_bytes from_bytes desc_of descs space_emu.Virtio.Copy.Gather.Holds
from_queue-gather_example =
    from_queue-gather min min_is tiny_read tiny_write 0x1000 0x1000 tiny tiny-RamBus table 0 3 []
      header (payload ∷ status ∷ []) 0 4 20 (blank_bytes 20) (omega arith) (omega arith)
      (omega arith) refl tiny_desc.0 tiny-Chain (omega arith)
      (
        refl,
        omega arith,
        omega arith,
        omega arith,
        omega arith,
        inr (refl, (refl, omega arith, omega arith, omega arith, omega arith, inl refl)),
      )

-- The ten bytes after a header of 16.
from_queue-second_example :
    virtual_memcpy_from_queue min tiny_read tiny_write 3 [] (blank_bytes 10) 0 0 16 10 (tiny table)
    ≡ done (tiny table) (true, gather table 0x1000 16 10 (descs (payload ∷ status ∷ [])))
unfolding to_bytes from_bytes desc_of descs space_emu.Virtio.Copy.Gather.Holds
from_queue-second_example =
    from_queue-second min min_is tiny_read tiny_write 0x1000 0x1000 tiny tiny-RamBus table 0 3 []
      header payload (status ∷ []) 0 16 10 (blank_bytes 10) (omega arith) (omega arith)
      (omega arith) refl tiny_desc.0 tiny-Chain refl (omega arith) (omega arith)
      (refl, omega arith, omega arith, omega arith, omega arith, inl refl)
