-- ===== src/Iss/Step/Memory.antt =====
-- Loads, stores and fences of `ISS::exec_step` (vp/src/core/rv32/iss.cpp).
use riscv_vp.Base.{ℕ, ◌*◌, ◌%◌, ◌^◌}
use riscv_vp.Instr.Mapping.{Mapping, lb, lh, lw, lbu, lhu, sb, sh, sw, fence, fence_i}
use riscv_vp.Instr.Fields.{rs1, rs2, i_imm, s_imm}
use riscv_vp.Iss.Alu.{add32}
use riscv_vp.Iss.Hart.{Environment, Load, Store}
use riscv_vp.Iss.Exec.{Exec, pure, access, ◌>>=◌, ◌>>◌}
use riscv_vp.Iss.Step.Registers.{read_reg, write_rd, check_alignment}

-- `EXC_LOAD_ADDR_MISALIGNED` and `EXC_STORE_AMO_ADDR_MISALIGNED`.
abbrev pub load_misaligned : ℕ
load_misaligned = 4

abbrev pub store_misaligned : ℕ
store_misaligned = 6

module _ {M : Type 0} (env : Environment M) where
  effective_address : (ℕ → ℕ) → ℕ → Exec M ℕ
  effective_address imm i = do a ← read_reg (rs1 i); pure (add32 a (imm i))

  -- A load of `size` bytes; 1 is never misaligned.
  unfoldable pub load : ℕ → Load M → ℕ → Exec M (Unit {0})
  unfolding effective_address
  load size call i = do
    addr ← effective_address i_imm i
    check_alignment size load_misaligned addr
    v ← access (call addr)
    write_rd i v

  unfoldable pub store : ℕ → Store M → ℕ → Exec M (Unit {0})
  unfolding effective_address
  store size call i = do
    addr ← effective_address s_imm i
    check_alignment size store_misaligned addr
    v ← read_reg (rs2 i)
    access (call addr (v % 2 ^ (8 * size)))

  -- The loads and stores of integers.
  unfoldable pub memory : Mapping → ℕ → Exec M (Unit {0}) → Exec M (Unit {0})
  memory sb i rest = store 1 env.store_byte i
  memory sh i rest = store 2 env.store_half i
  memory sw i rest = store 4 env.store_word i
  memory lb i rest = load 1 env.load_byte i
  memory lh i rest = load 2 env.load_half i
  memory lw i rest = load 4 env.load_word i
  memory lbu i rest = load 1 env.load_ubyte i
  memory lhu i rest = load 2 env.load_uhalf i
  memory fence i rest = pure tt
  memory fence_i i rest = pure tt
  memory _ i rest = rest
