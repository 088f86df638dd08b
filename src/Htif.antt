-- ===== src/Htif.antt =====
-- htif.c: the host interface, by which the guest prints and powers off. The processor, the bytes
-- that went to the console or were printed (the last one first) and the code the emulator has exited with, if it
-- has; after that nothing changes any more. The reply of a refused read has no meaningful bytes.
pub mod Console
use space_emu.Base.{ℕ, bit_and, bit_or, false, ◌&&◌, ◌==◌, ◌!=◌, if◌then◌else◌}
use space_emu.Base.{List, switch, [], ◌∷◌, Option, none, some}
use space_emu.Base.Word.{lnot, u32, u64, sub64, ◌<<<◌, ◌>>>◌}
use space_emu.Base.Bytes.{length}
use space_emu.Cpu.{CpuState}
use space_emu.Device.{Reply, minus_one, read_words, write_words}

-- HTIF_BASE_ADDR
abbrev pub htif_base_addr : ℕ
htif_base_addr = 0x4000_8000

pub record Machine : Type 0 where
  pub cpu : CpuState
  pub console : List ℕ
  pub exit_code : Option ℕ

-- An exit with `code`, for good.
unfoldable pub exit : Machine → ℕ → Machine
exit m code = record m { exit_code = some code }

-- "ok" and "Power Off." with their line ends, the last byte first: what is printed before an exit.
abbrev pub ok_line : List ℕ → List ℕ
ok_line before = 10 ∷ 107 ∷ 111 ∷ before

abbrev pub power_off_line : List ℕ → List ℕ
power_off_line before =
    10 ∷ 46 ∷ 102 ∷ 102 ∷ 79 ∷ 32 ∷ 114 ∷ 101 ∷ 119 ∷ 111 ∷ 80 ∷ 32 ∷ 10 ∷ before

unfoldable pub htif_cmd_handler : Machine → Machine
unfolding exit
htif_cmd_handler m =
    let tohost = m.cpu.htif_tohost in
    let device = u32 (tohost >>> 56) in
    let cmd = bit_and (u32 (tohost >>> 48)) 0xff in
    if tohost == 1
    then exit (record m { console = power_off_line m.console }) 0
    else if device == 1 && cmd == 1
    then record m {
      cpu = record m.cpu {
        htif_tohost = 0;
        htif_fromhost = bit_or (u64 (device <<< 56)) (u64 (cmd <<< 48));
      };
      console = bit_and tohost 0xff ∷ m.console;
    }
    else if device == 1 && cmd == 0
    then record m { cpu = record m.cpu { htif_tohost = 0 } }
    else m

unfoldable pub htif_read_sub : ℕ → Machine → ℕ → Machine × ℕ × ℕ
unfolding switch
htif_read_sub round m src =
    let answer : ℕ × ℕ =
      switch (sub64 src htif_base_addr)
        ((0, (u32 m.cpu.htif_tohost, 4))
          ∷ (4, (u32 (m.cpu.htif_tohost >>> 32), 4))
          ∷ (8, (u32 m.cpu.htif_fromhost, 4))
          ∷ (12, (u32 (m.cpu.htif_fromhost >>> 32), 4))
          ∷ [])
        (0, minus_one) in
    (m, answer.0, answer.1)

unfoldable pub htif_read : Machine → ℕ → ℕ → Reply Machine
unfolding htif_read_sub
htif_read m src size =
    if size != 4 && size != 8
    then record { state = m; bytes = []; ok = false }
    else read_words htif_read_sub m src size

-- `~0xffffffff` is 0, so nothing of the old value is kept beside the low word.
unfoldable pub write_tohost_low : Machine → ℕ → Machine
unfolding exit
write_tohost_low m value =
    let tohost = bit_or (bit_and m.cpu.htif_tohost (lnot 32 0xffff_ffff)) value in
    let m' = record m { cpu = record m.cpu { htif_tohost = tohost } } in
    if tohost == 1 then exit (record m' { console = ok_line m.console }) 1 else m'

unfoldable pub write_tohost_high : Machine → ℕ → Machine
unfolding htif_cmd_handler
write_tohost_high m value = htif_cmd_handler (record m {
  cpu = record m.cpu {
    htif_tohost = bit_or (bit_and m.cpu.htif_tohost 0xffff_ffff) (u64 (value <<< 32));
  };
})

unfoldable pub write_fromhost_low : Machine → ℕ → Machine
write_fromhost_low m value = record m {
  cpu = record m.cpu {
    htif_fromhost = bit_or (bit_and m.cpu.htif_fromhost (lnot 32 0xffff_ffff)) value;
  };
}

unfoldable pub write_fromhost_high : Machine → ℕ → Machine
write_fromhost_high m value = record m {
  cpu = record m.cpu {
    htif_fromhost = bit_or (bit_and m.cpu.htif_fromhost 0xffff_ffff) (u64 (value <<< 32));
  };
}

-- The case of the offset, for an emulator that runs.
unfoldable pub htif_write_word : Machine → ℕ → ℕ → Machine × ℕ
unfolding switch write_tohost_low write_tohost_high write_fromhost_low write_fromhost_high
htif_write_word m value offset =
    switch offset
      ((0, (write_tohost_low m value, 4))
        ∷ (4, (write_tohost_high m value, 4))
        ∷ (8, (write_fromhost_low m value, 4))
        ∷ (12, (write_fromhost_high m value, 4))
        ∷ [])
      (m, minus_one)

-- After an exit the rest of the loop is not run.
unfoldable pub htif_write_sub : Machine → ℕ → ℕ → Machine × ℕ
unfolding htif_write_word
htif_write_sub m value dst = elim m.exit_code [
  | some code ↦ (m, 4)
  | none ↦ htif_write_word m value (sub64 dst htif_base_addr)
]

unfoldable pub htif_write : Machine → List ℕ → ℕ → Reply Machine
unfolding htif_write_sub
htif_write m src dst =
    if length src != 4 && length src != 8
    then record { state = m; bytes = []; ok = false }
    else write_words htif_write_sub m src dst
