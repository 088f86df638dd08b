-- ===== src/Virtio.antt =====
-- virtio_interface.h: a virtio device with its queues, the machine around it, and the steps its
-- functions are made of. The device reads and writes physical memory through the table of
-- iomap.c, and so can reach every device of the board, itself included: an access takes and
-- returns the whole machine.
pub mod Lists
pub mod Registers
pub mod Ram
pub mod Queue
pub mod Copy
pub mod Notify
pub mod Disk
pub mod Block
pub mod Console
pub mod Init
pub mod Keys
pub mod Keeps
pub mod Board
use space_emu.Base.{ℕ, ◌<◌, ◌^◌, ◌≡◌, Bool, List, ltb, ◌&&◌, min, ◌==◌, if◌then◌else◌}
use space_emu.Base.{◌++◌}
use space_emu.Base.Bytes.{length}
use space_emu.Cpu.{CpuState}
use space_emu.Memory.{Buffer}
use space_emu.Plic.{plic_set_irq}
use space_emu.Translate.Vaddr.{drop}

-- MAX_QUEUE and MAX_QUEUE_NUM
abbrev pub max_queue : ℕ
max_queue = 8

abbrev pub max_queue_num : ℕ
max_queue_num = 16

-- VIRTIO_PAGE_SIZE
abbrev pub virtio_page_size : ℕ
virtio_page_size = 4096

-- `queue_state_t`
pub record QueueState : Type 0 where
  pub ready : Bool
  pub num : ℕ
  pub last_avail_idx : ℕ
  pub desc_addr : ℕ
  pub avail_addr : ℕ
  pub used_addr : ℕ
  pub manual_recv : Bool

-- `virtual_io_device_t`, with the number of its interrupt. The function to receive a descriptor is
-- an argument of those that call it, and no device sets `config_write`.
pub record VirtioDevice : Type 0 where
  pub irq_num : ℕ
  pub int_status : ℕ
  pub status : ℕ
  pub device_features_select : ℕ
  pub queue_select : ℕ
  pub queue : ℕ → QueueState
  pub device_id : ℕ
  pub vendor_id : ℕ
  pub device_features : ℕ
  pub config_space_size : ℕ
  pub config_space : Buffer

-- The device, the processor and the rest of the machine.
pub record World (M : Type 0) : Type 0 where
  pub device : VirtioDevice
  pub cpu : CpuState
  pub rest : M

-- What a function leaves: a machine and its value, a call of `abort` (or a failed assertion),
-- nothing that C defines, or more rounds of a loop than it was given.
pub data Ran (M A : Type 0) : Type 0 where
  done : World M → A → Ran M A
  aborted : Ran M A
  undefined : Ran M A
  out_of_rounds : Ran M A

abbrev pub Exec : Type 0 → Type 0 → Type 0
Exec M A = World M → Ran M A

module _ {M : Type 0} where
  abbrev pub pure : {A : Type 0} → A → Exec M A
  pure a w = done w a

  abbrev pub abort : {A : Type 0} → Exec M A
  abort w = aborted

  abbrev pub continue : {A B : Type 0} → Ran M A → (A → Exec M B) → Ran M B
  continue (done w a) f = f a w
  continue aborted f = aborted
  continue undefined f = undefined
  continue out_of_rounds f = out_of_rounds

  infixl 10 ◌>>=◌ ◌>>◌
  abbrev pub ◌>>=◌ : {A B : Type 0} → Exec M A → (A → Exec M B) → Exec M B
  ◌>>=◌ m f w = continue (m w) f

  abbrev pub ◌>>◌ : {A B : Type 0} → Exec M A → Exec M B → Exec M B
  m >> k = m >>= λ _. k

  abbrev pub gets : {A : Type 0} → (World M → A) → Exec M A
  gets f w = done w (f w)

  abbrev pub get_queue : ℕ → Exec M QueueState
  get_queue queue_idx = gets (λ w. w.device.queue queue_idx)

  -- `set_irq` of regs.h, whose function is `plic_set_irq`.
  unfoldable pub set_irq : World M → Bool → World M
  set_irq w level = record w { cpu = plic_set_irq w.cpu w.device.irq_num level }

  -- One queue changed.
  unfoldable pub set_queue : World M → ℕ → (QueueState → QueueState) → World M
  set_queue w queue_idx f = record w {
    device = record (w.device) {
      queue = λ i. if i == queue_idx then f (w.device.queue i) else w.device.queue i;
    };
  }

-- Whether a value of int, given in two's complement, is positive.
abbrev pub positive : ℕ → Bool
positive a = ltb 0 a && ltb a (2 ^ 31)

-- What is in a buffer after bytes were stored from its start.
abbrev pub overlay : List ℕ → List ℕ → List ℕ
overlay bytes old = bytes ++ drop (length bytes) old

-- `min_int` of the utility library.
abbrev pub IsMinInt : (ℕ → ℕ → ℕ) → Type 0
IsMinInt min_int = (a b : ℕ) → a < 2 ^ 31 → b < 2 ^ 31 → min_int a b ≡ min a b
