-- ===== src/Iss/Csr/Fields.antt =====
-- CSRs with bit fields as registers of 32 bits (vp/src/core/rv32/csr.h), and the masks through
-- which they are read and written.
use riscv_vp.Base.{ℕ, ◌+◌, ◌-◌, ◌*◌, ◌/◌, ◌%◌, ◌^◌, Bool, ◌==◌}
use riscv_vp.Iss.State.{Mstatus, Cause, TrapVector}
use riscv_vp.Iss.Alu.{flag}

-- The bit field of `width` bits from bit `lower` on.
abbrev pub field : ℕ → ℕ → ℕ → ℕ
field reg lower width = reg / 2 ^ lower % 2 ^ width

abbrev pub bit_of : ℕ → ℕ → Bool
bit_of reg place = field reg place 1 == 1

-- `csr_mstatus::reg`.
unfoldable pub mstatus_reg : Mstatus → ℕ
mstatus_reg m =
    flag m.uie
    + flag m.sie * 2 ^ 1
    + flag m.mie * 2 ^ 3
    + flag m.upie * 2 ^ 4
    + flag m.spie * 2 ^ 5
    + flag m.mpie * 2 ^ 7
    + m.spp * 2 ^ 8
    + m.mpp * 2 ^ 11
    + m.fs * 2 ^ 13
    + m.xs * 2 ^ 15
    + flag m.mprv * 2 ^ 17
    + flag m.sum * 2 ^ 18
    + flag m.mxr * 2 ^ 19
    + flag m.tvm * 2 ^ 20
    + flag m.tw * 2 ^ 21
    + flag m.tsr * 2 ^ 22
    + flag m.sd * 2 ^ 31

unfoldable pub mstatus_of : ℕ → Mstatus
mstatus_of reg = record {
  uie = bit_of reg 0;
  sie = bit_of reg 1;
  mie = bit_of reg 3;
  upie = bit_of reg 4;
  spie = bit_of reg 5;
  mpie = bit_of reg 7;
  spp = field reg 8 1;
  mpp = field reg 11 2;
  fs = field reg 13 2;
  xs = field reg 15 2;
  mprv = bit_of reg 17;
  sum = bit_of reg 18;
  mxr = bit_of reg 19;
  tvm = bit_of reg 20;
  tw = bit_of reg 21;
  tsr = bit_of reg 22;
  sd = bit_of reg 31;
}

unfoldable pub cause_reg : Cause → ℕ
cause_reg c = c.exception_code + flag c.interrupt * 2 ^ 31

unfoldable pub cause_of : ℕ → Cause
cause_of reg = record { interrupt = bit_of reg 31; exception_code = field reg 0 31 }

unfoldable pub tvec_reg : TrapVector → ℕ
tvec_reg t = t.mode + t.base * 4

unfoldable pub tvec_of : ℕ → TrapVector
tvec_of reg = record { mode = field reg 0 2; base = field reg 2 30 }

abbrev pub mip_write_mask : ℕ
mip_write_mask = 0b001100110011

abbrev pub mip_read_mask : ℕ
mip_read_mask = 0b101110111011

abbrev pub sip_mask : ℕ
sip_mask = 0b11

abbrev pub uip_mask : ℕ
uip_mask = 0b1

abbrev pub medeleg_mask : ℕ
medeleg_mask = 0b1011101111111111

abbrev pub mideleg_mask : ℕ
mideleg_mask = 0b101110111011

abbrev pub mtvec_mask : ℕ
mtvec_mask = 2 ^ 32 - 1 - 2

abbrev pub mcounteren_mask : ℕ
mcounteren_mask = 0b111

abbrev pub mcountinhibit_mask : ℕ
mcountinhibit_mask = 0b101

abbrev pub sedeleg_mask : ℕ
sedeleg_mask = 0b1011000111111111

abbrev pub sideleg_mask : ℕ
sideleg_mask = 0b101110111011

abbrev pub mstatus_mask : ℕ
mstatus_mask = 0b10000000011111111111100110111011

abbrev pub sstatus_mask : ℕ
sstatus_mask = 0b10000000000011011110000100110011

abbrev pub ustatus_mask : ℕ
ustatus_mask = 0b00000000000000000000000000010001

abbrev pub satp_mask : ℕ
satp_mask = 0b10000000001111111111111111111111

abbrev pub fcsr_mask : ℕ
fcsr_mask = 0b11111111
