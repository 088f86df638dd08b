-- ===== src/Htif/Console.antt =====
-- htif.c: printing a character.
use space_emu.Base.{ℕ, ◌+◌, ◌*◌, ◌/◌, ◌^◌, ◌%◌, ◌<◌, ◌≡◌, refl, arith, bit_and, bit_or, true, false}
use space_emu.Base.{◌==◌, if◌then◌else◌}
use space_emu.Base.{Bool-cases, inl, inr, ◌∙◌, switch, [], ◌∷◌, none, some}
use space_emu.Base.Word.{add64, u32, u64, ◌<<<◌, ◌>>>◌}
use space_emu.Base.Bits.{bit_and_mask}
use space_emu.Base.Bytes.{to_bytes}
use space_emu.Clint.Timer.{and-zero, zero-or, or_high, low_word}
use space_emu.Device.{write_words, write_loop}
use space_emu.Htif.{Machine, exit, ok_line, htif_base_addr, htif_cmd_handler, htif_write}
use space_emu.Htif.{htif_write_sub}
use space_emu.Htif.{htif_write_word, write_tohost_low, write_tohost_high}

-- The high word of a command to print.
abbrev pub putchar_high : ℕ
putchar_high = 0x0101_0000

or_high_48 : bit_or (u64 (1 <<< 56)) (u64 (1 <<< 48)) ≡ 0x0101 * 2 ^ 48
or_high_48 = refl

-- The character goes to the console, the command is cleared, and the answer names it.
print :
    (m : Machine) (c : ℕ)
    → c < 256
    → m.cpu.htif_tohost ≡ c
    → let t = write_tohost_high m putchar_high in
      (t.console ≡ c ∷ m.console)
      × (t.exit_code ≡ m.exit_code)
      × (t.cpu.htif_tohost ≡ 0)
      × (t.cpu.htif_fromhost ≡ 0x0101 * 2 ^ 48)
unfolding write_tohost_high htif_cmd_handler
print m c h e =
    let word : bit_or (bit_and m.cpu.htif_tohost 0xffff_ffff) (u64 (putchar_high <<< 32))
        ≡ c + putchar_high * 2 ^ 32 =
      ground (arith, bit_and_mask 32 m.cpu.htif_tohost, or_high c putchar_high (omega arith)) in
    let w = c + putchar_high * 2 ^ 32 in
    rw word (ground (arith, bit_and_mask 8 w, bit_and_mask 8 (u32 (w >>> 48)), or_high_48))

write-low :
    (m : Machine) (value : ℕ)
    → m.exit_code ≡ none
    → htif_write_sub m value htif_base_addr ≡ (write_tohost_low m value, 4)
unfolding htif_write_sub htif_write_word switch
write-low m value running = rw running refl

write-high :
    (m : Machine) (value : ℕ)
    → m.exit_code ≡ none
    → htif_write_sub m value (htif_base_addr + 4) ≡ (write_tohost_high m value, 4)
unfolding htif_write_sub htif_write_word switch
write-high m value running = rw running refl

write-exited :
    (m : Machine) (value dst code : ℕ)
    → m.exit_code ≡ some code
    → htif_write_sub m value dst ≡ (m, 4)
unfolding htif_write_sub
write-exited m value dst code e = rw e refl

tohost_low : (m : Machine) (c : ℕ) → bit_or (bit_and m.cpu.htif_tohost 0) c ≡ c
tohost_low m c = rw (and-zero m.cpu.htif_tohost) (zero-or c)

-- The machine that has printed its last line and exited.
abbrev stopped : Machine → Machine
stopped m = record m {
  cpu = record m.cpu { htif_tohost = 1 };
  console = ok_line m.console;
  exit_code = some 1;
}

-- The low word alone.
low_stops : (m : Machine) → write_tohost_low m 1 ≡ stopped m
unfolding write_tohost_low exit
low_stops m = rw (tohost_low m 1) refl

low_waits :
    (m : Machine) (c : ℕ)
    → (c == 1) ≡ false
    → write_tohost_low m c ≡ record m { cpu = record m.cpu { htif_tohost = c } }
unfolding write_tohost_low
low_waits m c other = rw (tohost_low m c, other) refl

-- The two words of a command, one after the other.
two_words :
    (m : Machine) (c : ℕ)
    → c < 256
    → htif_write m (to_bytes 8 (c + putchar_high * 2 ^ 32)) htif_base_addr ≡ (
        let (m1, r1) = htif_write_sub m c htif_base_addr in
        let (m2, r2) = htif_write_sub m1 putchar_high (htif_base_addr + 4) in
        record { state = m2; bytes = []; ok = add64 r1 (add64 r2 0) == 8 })
unfolding htif_write write_words write_loop to_bytes
two_words m c small =
    let v = c + putchar_high * 2 ^ 32 in
    let low : v % 2 ^ 32 ≡ c = omega arith in
    let high : v / 256 / 256 / 256 / 256 % 2 ^ 32 ≡ putchar_high = omega arith in
    rw (low_word v, low, low_word (v / 256 / 256 / 256 / 256), high) refl

-- While the emulator runs, the eight bytes of a command to print a byte `c` make it exit with
-- code 1 if `c` is 1, after the line "ok" (the bytes 111, 107 and 10) is printed; any other
-- byte is printed, and the command is cleared.
pub htif_write_putchar :
    (m : Machine) (c : ℕ)
    → m.exit_code ≡ none
    → c < 256
    → let t = htif_write m (to_bytes 8 (c + putchar_high * 2 ^ 32)) htif_base_addr in
      (t.ok ≡ true)
      × (t.state.exit_code ≡ (if c == 1 then some 1 else none))
      × (t.state.console ≡ (if c == 1 then 10 ∷ 107 ∷ 111 ∷ m.console else c ∷ m.console))
      × (t.state.cpu.htif_tohost ≡ (if c == 1 then 1 else 0))
htif_write_putchar m c running small =
    rw (two_words m c small, write-low m c running)
      (elim (Bool-cases (c == 1)) [
        | inl power_off ↦
            let e : c ≡ 1 = ground arith in
            rw (e, low_stops m, write-exited (stopped m) putchar_high (htif_base_addr + 4) 1 refl)
              (refl, refl, refl, refl)
        | inr other ↦
            let m1 = record m { cpu = record m.cpu { htif_tohost = c } } in
            let (printed, runs, cleared, answer) = print m1 c small refl in
            rw (low_waits m c other, write-high m1 putchar_high running, other)
              (refl, runs ∙ running, printed, cleared)
      ])
