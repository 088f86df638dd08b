-- ===== src/Regs/Valid/Fields.antt =====
-- The fields of the invariant, one for each kind of write.
use space_emu.Base.{ℕ, ◌^◌, ◌<◌, ◌≡◌, arith, bit_and, bit_or}
use space_emu.Base.{◌+◌, ◌-◌, ◌≤◌}
use space_emu.Base.Word.{◌>>>◌, ◌<<<◌}
use space_emu.Base.Bits.{has_bit-bit_and, has_bit-bit_or, has_bit_above, bit_and_mask}
use space_emu.Base.Bits.{IsWithin, has_bit-shr, has_bit-shl, eq_of_bits}
use space_emu.Cpu.{CpuState}
use space_emu.Regs.Status.{set_mstatus, mstatus_write_mask}
use space_emu.Regs.Status.Mask.{mstatus-set_mstatus, has_bit-set_mstatus, mstatus_write_mask-fs}
use space_emu.Regs.Status.Mask.{mstatus_write_mask-lt, set_mstatus-uxl}
use space_emu.Regs.Csr.Write.{mie_mask, mideleg_mask, satp_value, set_frm}
use space_emu.Regs.Csr.Merge.{merge-lt}
use space_emu.Regs.Valid.{IsValid, IsSatpMode}

-- The high digits of `satp` are the mode.
satp_mode_shift : (low mode : ℕ) → bit_or (bit_and low (2 ^ 44 - 1)) (mode <<< 60) >>> 60 ≡ mode
satp_mode_shift low mode = eq_of_bits _ _ λ i. ground (
  arith,
  has_bit-shr 60 (bit_or (bit_and low (2 ^ 44 - 1)) (mode <<< 60)) i,
  has_bit-bit_or (bit_and low (2 ^ 44 - 1)) (mode <<< 60) (i + 60),
  has_bit-bit_and low (2 ^ 44 - 1) (i + 60),
  has_bit_above 44 (2 ^ 44 - 1) (i + 60) (omega arith) (omega arith),
  has_bit-shl 60 mode (i + 60),
)

-- Only the three known modes are stored.
pub satp_value-IsSatpMode :
    (old val : ℕ) → IsSatpMode (old >>> 60) → IsSatpMode (satp_value old val >>> 60)
unfolding satp_value
satp_value-IsSatpMode old val h =
    ground (arith, satp_mode_shift val (bit_and (val >>> 60) 0xf), satp_mode_shift val (old >>> 60))

pub mstatus-set_mstatus-lt :
    (s : CpuState) (value : ℕ) → IsValid s → (set_mstatus s value).mstatus < 2 ^ 64
mstatus-set_mstatus-lt s value v =
    let e = merge-lt 64 s.mstatus (mstatus_write_mask value) value v.mstatus_lt v.mstatus_lt in
    ground (arith, mstatus-set_mstatus s value, e (mstatus_write_mask-lt value))

pub set_mstatus-IsValid : (s : CpuState) (value : ℕ) → IsValid s → IsValid (set_mstatus s value)
set_mstatus-IsValid s value v = record {
  mstatus_lt = mstatus-set_mstatus-lt s value v;
  fs_low = ground (arith, has_bit-set_mstatus s value 13 v.mstatus_lt, mstatus_write_mask-fs value);
  fs_high =
      ground (arith, has_bit-set_mstatus s value 14 v.mstatus_lt, mstatus_write_mask-fs value);
  uxl_known = set_mstatus-uxl s value v.mstatus_lt v.uxl_known;
  fs_lt = unfold set_mstatus in omega (arith, bit_and_mask 2 (value >>> 13));
  frm_lt = unfold set_mstatus in v.frm_lt;
  fflags_lt = unfold set_mstatus in v.fflags_lt;
  priv_lt = unfold set_mstatus in v.priv_lt;
  medeleg_lt = unfold set_mstatus in v.medeleg_lt;
  mideleg_lt = unfold set_mstatus in v.mideleg_lt;
  mideleg_within = unfold set_mstatus in v.mideleg_within;
  mie_lt = unfold set_mstatus in v.mie_lt;
  mie_within = unfold set_mstatus in v.mie_within;
  mip_lt = unfold set_mstatus in v.mip_lt;
  mxl_known = unfold set_mstatus in v.mxl_known;
  satp_mode = unfold set_mstatus in v.satp_mode;
}

-- The three fields of the float unit.
pub float-IsValid :
    (s : CpuState) (fflags frm fs : ℕ)
    → fflags < 32
    → frm < 5
    → fs < 4
    → IsValid s
    → IsValid (record s { fflags = fflags; frm = frm; fs = fs })
float-IsValid s fflags frm fs a b c v = record {
  mstatus_lt = v.mstatus_lt;
  fs_low = v.fs_low;
  fs_high = v.fs_high;
  uxl_known = v.uxl_known;
  fs_lt = c;
  frm_lt = b;
  fflags_lt = a;
  priv_lt = v.priv_lt;
  medeleg_lt = v.medeleg_lt;
  mideleg_lt = v.mideleg_lt;
  mideleg_within = v.mideleg_within;
  mie_lt = v.mie_lt;
  mie_within = v.mie_within;
  mip_lt = v.mip_lt;
  mxl_known = v.mxl_known;
  satp_mode = v.satp_mode;
}

-- Another width of the machine, if it is a known one.
pub width-IsValid :
    {s : CpuState} {xlen mxl : ℕ}
    → IsValid s
    → (1 ≤ mxl) × (mxl ≤ 2)
    → IsValid (record s { xlen = xlen; mxl = mxl })
width-IsValid v h = record {
  mstatus_lt = v.mstatus_lt;
  fs_low = v.fs_low;
  fs_high = v.fs_high;
  uxl_known = v.uxl_known;
  fs_lt = v.fs_lt;
  frm_lt = v.frm_lt;
  fflags_lt = v.fflags_lt;
  priv_lt = v.priv_lt;
  medeleg_lt = v.medeleg_lt;
  mideleg_lt = v.mideleg_lt;
  mideleg_within = v.mideleg_within;
  mie_lt = v.mie_lt;
  mie_within = v.mie_within;
  mip_lt = v.mip_lt;
  mxl_known = h;
  satp_mode = v.satp_mode;
}

pub set_frm-lt : (s : CpuState) (val : ℕ) → (set_frm s val).frm < 5
unfolding set_frm
set_frm-lt s val = ground arith

-- The words that the invariant does not speak of.
pub words-IsValid :
    {s : CpuState} {mtvec mcounteren mscratch mepc mcause mtval : ℕ}
    {stvec scounteren sscratch sepc scause stval pc : ℕ}
    → IsValid s
    → IsValid (record s {
      mtvec = mtvec;
      mcounteren = mcounteren;
      mscratch = mscratch;
      mepc = mepc;
      mcause = mcause;
      mtval = mtval;
      stvec = stvec;
      scounteren = scounteren;
      sscratch = sscratch;
      sepc = sepc;
      scause = scause;
      stval = stval;
      pc = pc;
    })
words-IsValid v = record {
  mstatus_lt = v.mstatus_lt;
  fs_low = v.fs_low;
  fs_high = v.fs_high;
  uxl_known = v.uxl_known;
  fs_lt = v.fs_lt;
  frm_lt = v.frm_lt;
  fflags_lt = v.fflags_lt;
  priv_lt = v.priv_lt;
  medeleg_lt = v.medeleg_lt;
  mideleg_lt = v.mideleg_lt;
  mideleg_within = v.mideleg_within;
  mie_lt = v.mie_lt;
  mie_within = v.mie_within;
  mip_lt = v.mip_lt;
  mxl_known = v.mxl_known;
  satp_mode = v.satp_mode;
}

-- The interrupt words and `satp`, within their bounds.
pub interrupts-IsValid :
    {s : CpuState} {medeleg mideleg mie mip satp : ℕ}
    → IsValid s
    → medeleg < 2 ^ 16
    → (mideleg < 2 ^ 32) × IsWithin mideleg mideleg_mask
    → (mie < 2 ^ 32) × IsWithin mie mie_mask
    → mip < 2 ^ 32
    → IsSatpMode (satp >>> 60)
    → IsValid (record s { medeleg = medeleg; mideleg = mideleg; mie = mie; mip = mip; satp = satp })
interrupts-IsValid v a b c d e = record {
  mstatus_lt = v.mstatus_lt;
  fs_low = v.fs_low;
  fs_high = v.fs_high;
  uxl_known = v.uxl_known;
  fs_lt = v.fs_lt;
  frm_lt = v.frm_lt;
  fflags_lt = v.fflags_lt;
  priv_lt = v.priv_lt;
  medeleg_lt = a;
  mideleg_lt = b.0;
  mideleg_within = b.1;
  mie_lt = c.0;
  mie_within = c.1;
  mip_lt = d;
  mxl_known = v.mxl_known;
  satp_mode = e;
}
