-- ===== src/Board/Sound.antt =====
-- The board: the loading of a program, and the traps of an instruction.
use space_emu.Base.{ℕ, ◌<◌, ◌^◌, either, ltb, Bool, Option, some, none, List}
use space_emu.Base.Bytes.{length}
use space_emu.Board.{Board, State, board_read, board_write}
use space_emu.Board.Bus.{board-BusKeeps}
use space_emu.Board.Keeps.{LinesKeep}
use space_emu.Board.Run.{get_address_item, with_jump, copy_bin}
use space_emu.Board.Run.{jump_to_ram}
use space_emu.Translate.{pte_r_mask}
use space_emu.Translate.Keeps.{address_translate_keeps}
use space_emu.Iomap.{AddressItem}
use space_emu.Cpu.{CpuState}
use space_emu.Instr.Sound.{IsSound}
use space_emu.Instr.Sound.Run.{Soundly, IsSoundRound}
use space_emu.Instr.Loop.{Round}
use space_emu.Memory.{Buffer, memory_size, low_ram_size, ram_base_addr, store_loop}
use space_emu.Regs.Valid.{IsValid}

lines-IsValid :
    {s : CpuState} {m mtimecmp start pending served tohost fromhost : ℕ} {down : Bool}
    → m < 2 ^ 32
    → IsValid s
    → IsValid (record s {
      mip = m;
      mtimecmp = mtimecmp;
      rtc_start_time = start;
      plic_pending_irq = pending;
      plic_served_irq = served;
      htif_tohost = tohost;
      htif_fromhost = fromhost;
      power_down_flag = down;
    })
lines-IsValid h v = record {
  mstatus_lt = v.mstatus_lt;
  fs_low = v.fs_low;
  fs_high = v.fs_high;
  uxl_known = v.uxl_known;
  fs_lt = v.fs_lt;
  frm_lt = v.frm_lt;
  fflags_lt = v.fflags_lt;
  priv_lt = v.priv_lt;
  medeleg_lt = v.medeleg_lt;
  mideleg_lt = v.mideleg_lt;
  mideleg_within = v.mideleg_within;
  mie_lt = v.mie_lt;
  mie_within = v.mie_within;
  mip_lt = h;
  mxl_known = v.mxl_known;
  satp_mode = v.satp_mode;
}

IsSound-LinesKeep : LinesKeep IsSound
IsSound-LinesKeep = record {
  change = λ s m mtimecmp served tohost fromhost down lt h. record {
    valid = lines-IsValid (lt h.valid.mip_lt) h.valid;
    x0 = h.x0;
  };
}

-- A round on the board, whatever the host's clock shows, with a console that does not touch the
-- processor, is a sound one.
abbrev pub board_round : (ℕ → ℕ) → (ℕ → ℕ) → (Board → Board) → Round Board
board_round ctz32 clock typed = record {
  read = board_read ctz32 clock;
  write = board_write ctz32 clock;
  poll = λ s m. (s, typed m);
  real = clock 0;
}

pub board_round-IsSoundRound :
    (ctz32 : ℕ → ℕ) (clock : ℕ → ℕ) (typed : Board → Board)
    → IsSoundRound (board_round ctz32 clock typed)
board_round-IsSoundRound ctz32 clock typed = record {
  bus = board-BusKeeps IsSound-LinesKeep ctz32 clock;
  polls = λ s m h. h;
}

with_jump-Soundly : (x : State) (o : Option Buffer) → IsSound x.0 → Soundly (with_jump x o)
unfolding with_jump
with_jump-Soundly x none h = tt
with_jump-Soundly x (some buffer) h = h

module _ (ctz32 : ℕ → ℕ) where
  get_address_item-IsSound :
      (clock : ℕ → ℕ) (x : State) (address : ℕ)
      → IsSound x.0
      → IsSound (get_address_item ctz32 clock x address).0.0
  unfolding get_address_item
  get_address_item-IsSound clock x address h =
      let b = board-BusKeeps IsSound-LinesKeep ctz32 clock in
      let read = board_read ctz32 clock in
      let write = board_write ctz32 clock in
      address_translate_keeps (λ (y : State). IsSound y.0) read write b.keep_read b.keep_write x.0
        address pte_r_mask x h

  -- A program file is loaded without harm to the processor.
  copy_bin-Soundly :
      (clock : ℕ → ℕ) (x : State) (buf : List ℕ)
      → IsSound x.0
      → Soundly (copy_bin ctz32 clock x buf)
  unfolding copy_bin
  copy_bin-Soundly clock x buf h =
      either (λ (o : Option State). Soundly o) (ltb memory_size (length buf)) tt
        (go (get_address_item ctz32 clock x 0x1000).1)
    where
      x' : State
      x' =
          (board_write ctz32 clock (get_address_item ctz32 clock x 0x1000).0 ram_base_addr
            buf).state

      loaded : Option State
      loaded = with_jump x' (store_loop low_ram_size x'.1.low_ram 0x1000 jump_to_ram)

      go :
          (o : Option (AddressItem State))
          → Soundly (elim o as (λ _. Option State) [ none ↦ none | some low ↦ loaded ])
      go none = tt
      go (some low) =
          with_jump-Soundly x' (store_loop low_ram_size x'.1.low_ram 0x1000 jump_to_ram) (
            (board-BusKeeps IsSound-LinesKeep ctz32 clock).keep_write
              (get_address_item ctz32 clock x 0x1000).0 ram_base_addr buf
              (get_address_item-IsSound clock x 0x1000 h))
