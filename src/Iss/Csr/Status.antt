-- ===== src/Iss/Csr/Status.antt =====
-- `mstatus` as a register of 32 bits and as its fields (`csr_mstatus` of vp/src/core/rv32/csr.h).
use riscv_vp.Base.{ℕ, ◌<◌, ◌+◌, ◌*◌, ◌^◌, ◌≡◌, Bool, false, true, ◌==◌, arith}
use riscv_vp.Iss.State.{Mstatus}
use riscv_vp.Iss.Alu.{flag}
use riscv_vp.Iss.Csr.Fields.{field, mstatus_reg}

-- The fields of more than one bit, and `spp`, fit their width.
pub record IsStatus (m : Mstatus) : Type 0 where
  pub spp_bound : m.spp < 2
  pub mpp_bound : m.mpp < 4
  pub fs_bound : m.fs < 4
  pub xs_bound : m.xs < 4

flag_lt : (b : Bool) → flag b < 2
flag_lt true = omega arith
flag_lt false = omega arith

pub bit-flag : (x : ℕ) (b : Bool) → x ≡ flag b → (x == 1) ≡ b
bit-flag x true e = ground arith
bit-flag x false e = ground arith

-- A register of 32 bits, from the digits at the places of the fields.
abbrev digits : (uie sie mie upie spie mpie spp mpp fs xs mprv sum mxr tvm tw tsr sd : ℕ) → ℕ
digits uie sie mie upie spie mpie spp mpp fs xs mprv sum mxr tvm tw tsr sd =
    uie
    + sie * 2 ^ 1
    + mie * 2 ^ 3
    + upie * 2 ^ 4
    + spie * 2 ^ 5
    + mpie * 2 ^ 7
    + spp * 2 ^ 8
    + mpp * 2 ^ 11
    + fs * 2 ^ 13
    + xs * 2 ^ 15
    + mprv * 2 ^ 17
    + sum * 2 ^ 18
    + mxr * 2 ^ 19
    + tvm * 2 ^ 20
    + tw * 2 ^ 21
    + tsr * 2 ^ 22
    + sd * 2 ^ 31

digits-field :
    (uie sie mie upie spie mpie spp mpp fs xs mprv sum mxr tvm tw tsr sd : ℕ)
    → uie < 2
    → sie < 2
    → mie < 2
    → upie < 2
    → spie < 2
    → mpie < 2
    → spp < 2
    → mpp < 4
    → fs < 4
    → xs < 4
    → mprv < 2
    → sum < 2
    → mxr < 2
    → tvm < 2
    → tw < 2
    → tsr < 2
    → sd < 2
    → let reg = digits uie sie mie upie spie mpie spp mpp fs xs mprv sum mxr tvm tw tsr sd in
      (field reg 0 1 ≡ uie)
      × (field reg 1 1 ≡ sie)
      × (field reg 3 1 ≡ mie)
      × (field reg 4 1 ≡ upie)
      × (field reg 5 1 ≡ spie)
      × (field reg 7 1 ≡ mpie)
      × (field reg 8 1 ≡ spp)
      × (field reg 11 2 ≡ mpp)
      × (field reg 13 2 ≡ fs)
      × (field reg 15 2 ≡ xs)
      × (field reg 17 1 ≡ mprv)
      × (field reg 18 1 ≡ sum)
      × (field reg 19 1 ≡ mxr)
      × (field reg 20 1 ≡ tvm)
      × (field reg 21 1 ≡ tw)
      × (field reg 22 1 ≡ tsr)
      × (field reg 31 1 ≡ sd)
digits-field uie sie mie upie spie mpie spp mpp fs xs mprv sum mxr tvm tw tsr sd h0 h1 h3 h4 h5 h7
      h8 h11 h13 h15 h17 h18 h19 h20 h21 h22 h31 =
    (
      omega arith,
      omega arith,
      omega arith,
      omega arith,
      omega arith,
      omega arith,
      omega arith,
      omega arith,
      omega arith,
      omega arith,
      omega arith,
      omega arith,
      omega arith,
      omega arith,
      omega arith,
      omega arith,
      omega arith,
    )

-- What `mstatus_of` reads from `reg` are the fields of `m`.
abbrev pub HasFields : ℕ → Mstatus → Type 0
HasFields reg m =
    (field reg 0 1 ≡ flag m.uie)
    × (field reg 1 1 ≡ flag m.sie)
    × (field reg 3 1 ≡ flag m.mie)
    × (field reg 4 1 ≡ flag m.upie)
    × (field reg 5 1 ≡ flag m.spie)
    × (field reg 7 1 ≡ flag m.mpie)
    × (field reg 8 1 ≡ m.spp)
    × (field reg 11 2 ≡ m.mpp)
    × (field reg 13 2 ≡ m.fs)
    × (field reg 15 2 ≡ m.xs)
    × (field reg 17 1 ≡ flag m.mprv)
    × (field reg 18 1 ≡ flag m.sum)
    × (field reg 19 1 ≡ flag m.mxr)
    × (field reg 20 1 ≡ flag m.tvm)
    × (field reg 21 1 ≡ flag m.tw)
    × (field reg 22 1 ≡ flag m.tsr)
    × (field reg 31 1 ≡ flag m.sd)

pub mstatus_reg-HasFields : (m : Mstatus) → IsStatus m → HasFields (mstatus_reg m) m
unfolding mstatus_reg
mstatus_reg-HasFields m h =
    digits-field (flag m.uie) (flag m.sie) (flag m.mie) (flag m.upie) (flag m.spie) (flag m.mpie)
      m.spp m.mpp m.fs m.xs (flag m.mprv) (flag m.sum) (flag m.mxr) (flag m.tvm) (flag m.tw)
      (flag m.tsr) (flag m.sd) (flag_lt m.uie) (flag_lt m.sie) (flag_lt m.mie) (flag_lt m.upie)
      (flag_lt m.spie) (flag_lt m.mpie) h.spp_bound h.mpp_bound h.fs_bound h.xs_bound
      (flag_lt m.mprv) (flag_lt m.sum) (flag_lt m.mxr) (flag_lt m.tvm) (flag_lt m.tw)
      (flag_lt m.tsr) (flag_lt m.sd)
