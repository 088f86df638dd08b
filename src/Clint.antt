-- ===== src/Clint.antt =====
-- clint.c: the timer, and `machine_get_sleep_duration` of regs.c, which sets its interrupt. The
-- clock of the host is outside: `real k` is what `rtc_get_real_time` returns in the k-th round of
-- an access.
pub mod Timer
use space_emu.Base.{ℕ, ◌+◌, ◌*◌, ◌/◌, ◌^◌, bit_and, bit_or, ◌||◌, ◌==◌, ◌!=◌, ltb, leb}
use space_emu.Base.{if◌then◌else◌}
use space_emu.Base.{List, switch, [], ◌∷◌}
use space_emu.Base.Word.{lnot, u32, u64, sub64, ◌<<<◌, ◌>>>◌}
use space_emu.Cpu.{CpuState, set_mip, reset_mip, mip_mtip}
use space_emu.Device.{Reply, read_words, write_words}

-- CLINT_BASE_ADDR
abbrev pub clint_base_addr : ℕ
clint_base_addr = 0x0200_0000

-- RTC_FREQ
abbrev pub rtc_freq : ℕ
rtc_freq = 10_000_000

-- From the two fields of the clock's `struct timespec`.
unfoldable pub rtc_get_real_time : ℕ → ℕ → ℕ
rtc_get_real_time tv_sec tv_nsec = u64 (tv_sec * rtc_freq + tv_nsec / (1_000_000_000 / rtc_freq))

unfoldable pub rtc_get_time : CpuState → ℕ → ℕ
rtc_get_time s real = sub64 real s.rtc_start_time

unfoldable pub clint_init : CpuState → ℕ → CpuState
clint_init s real = record s { rtc_start_time = real }

module _ (real : ℕ → ℕ) where
  unfoldable pub clint_read_sub : ℕ → CpuState → ℕ → CpuState × ℕ × ℕ
  unfolding rtc_get_time switch
  clint_read_sub round s src =
      let result =
        switch (sub64 src clint_base_addr)
          ((0xbff8, u32 (rtc_get_time s (real round)))
            ∷ (0xbffc, u32 (rtc_get_time s (real round) >>> 32))
            ∷ (0x4000, u32 s.mtimecmp)
            ∷ (0x4004, u32 (s.mtimecmp >>> 32))
            ∷ [])
          0 in
      (s, result, 4)

  unfoldable pub clint_read : CpuState → ℕ → ℕ → Reply CpuState
  unfolding read_words clint_read_sub
  clint_read s src size = read_words clint_read_sub s src size

-- In `~0xffffffff` the constant is an unsigned int of 32 bits, so the complement is 0 there and
-- nothing of the old value is kept.
unfoldable pub write_mtimecmp_low : CpuState → ℕ → CpuState
unfolding reset_mip
write_mtimecmp_low s value =
    reset_mip (record s { mtimecmp = bit_or (bit_and s.mtimecmp (lnot 32 0xffff_ffff)) value })
      mip_mtip

unfoldable pub write_mtimecmp_high : CpuState → ℕ → CpuState
unfolding reset_mip
write_mtimecmp_high s value =
    reset_mip (record s { mtimecmp = bit_or (bit_and s.mtimecmp 0xffff_ffff) (u64 (value <<< 32)) })
      mip_mtip

unfoldable pub clint_write_sub : CpuState → ℕ → ℕ → CpuState × ℕ
unfolding write_mtimecmp_low write_mtimecmp_high switch
clint_write_sub s value dst =
    switch (sub64 dst clint_base_addr)
      ((0x4000, (write_mtimecmp_low s value, 4)) ∷ (0x4004, (write_mtimecmp_high s value, 4)) ∷ [])
      (s, 4)

unfoldable pub clint_write : CpuState → List ℕ → ℕ → Reply CpuState
unfolding write_words clint_write_sub
clint_write s src dst = write_words clint_write_sub s src dst

-- `delay` is a number of milliseconds that is not negative.
unfoldable pub machine_get_sleep_duration : CpuState → ℕ → ℕ → CpuState × ℕ
unfolding set_mip rtc_get_time
machine_get_sleep_duration s real delay =
    let delay1 = sub64 s.mtimecmp (rtc_get_time s real) in
    let (s', delay') =
      if bit_and s.mip mip_mtip != 0
      then (s, delay)
      else if delay1 == 0 || leb (2 ^ 63) delay1
      then (set_mip s mip_mtip, 0)
      else if ltb (delay1 / (rtc_freq / 1000)) delay
      then (s, delay1 / (rtc_freq / 1000))
      else (s, delay) in
    if s'.power_down_flag then (s', delay') else (s', 0)
