-- ===== src/Iss/Step/Atomic.antt =====
-- The A extension in `ISS::exec_step` (vp/src/core/rv32/iss.cpp) and `execute_amo` of iss.h.
use riscv_vp.Base.{ℕ, ◌==◌, if◌then◌else◌, bit_and, bit_or, bit_xor}
use riscv_vp.Instr.Mapping.{
  Mapping, lr_w, sc_w, amoswap_w, amoadd_w, amoxor_w, amoand_w, amoor_w, amomin_w, amomax_w,
  amominu_w, amomaxu_w,
}
use riscv_vp.Instr.Fields.{rs1, rs2}
use riscv_vp.Iss.State.{isa_a}
use riscv_vp.Iss.Alu.{add32, min_signed, max_signed, min_unsigned, max_unsigned}
use riscv_vp.Iss.Hart.{Environment, Result, trap}
use riscv_vp.Iss.Exec.{Exec, access, modify, ◌>>=◌, ◌>>◌}
use riscv_vp.Iss.Csr.Read.{require_isa}
use riscv_vp.Iss.Step.Registers.{read_reg, write_rd, check_alignment}
use riscv_vp.Iss.Step.Memory.{load_misaligned, store_misaligned}

module _ {M : Type 0} (env : Environment M) where
  -- In `execute_amo`, a fault of the load becomes one of a store.
  abbrev as_store_fault : Result ℕ → Result ℕ
  as_store_fault (trap e) = trap (record e { reason = if e.reason == 5 then 7 else e.reason })
  as_store_fault r = r

  amo_load : ℕ → Exec M ℕ
  amo_load addr =
      access λ s m.
        let a = env.atomic_load_word addr s m in record a { result = as_store_fault a.result }

  unfoldable pub execute_amo : (ℕ → ℕ → ℕ) → ℕ → Exec M (Unit {0})
  unfolding amo_load
  execute_amo operation i = do
    require_isa isa_a
    addr ← read_reg (rs1 i)
    check_alignment 4 store_misaligned addr
    v ← amo_load addr
    b ← read_reg (rs2 i)
    access (env.atomic_store_word addr (operation v b))
    write_rd i v

  unfoldable pub load_reserved : ℕ → Exec M (Unit {0})
  load_reserved i = do
    require_isa isa_a
    addr ← read_reg (rs1 i)
    check_alignment 4 load_misaligned addr
    v ← access (env.atomic_load_reserved_word addr)
    write_rd i v
    modify λ h. record h {
      iss = record h.iss {
        lr_sc_counter = if h.iss.lr_sc_counter == 0 then 17 else h.iss.lr_sc_counter;
      };
    }

  -- The register says failure already when the store traps.
  unfoldable pub store_conditional : ℕ → Exec M (Unit {0})
  store_conditional i = do
    require_isa isa_a
    addr ← read_reg (rs1 i)
    check_alignment 4 store_misaligned addr
    v ← read_reg (rs2 i)
    write_rd i 1
    stored ← access (env.atomic_store_conditional_word addr v)
    write_rd i (if stored then 0 else 1)
    modify (λ h. record h { iss = record h.iss { lr_sc_counter = 0 } })

  -- The cases of the A extension.
  unfoldable pub atomic : Mapping → ℕ → Exec M (Unit {0}) → Exec M (Unit {0})
  atomic lr_w i rest = load_reserved i
  atomic sc_w i rest = store_conditional i
  atomic amoswap_w i rest = execute_amo (λ a b. b) i
  atomic amoadd_w i rest = execute_amo add32 i
  atomic amoxor_w i rest = execute_amo bit_xor i
  atomic amoand_w i rest = execute_amo bit_and i
  atomic amoor_w i rest = execute_amo bit_or i
  atomic amomin_w i rest = execute_amo min_signed i
  atomic amominu_w i rest = execute_amo min_unsigned i
  atomic amomax_w i rest = execute_amo max_signed i
  atomic amomaxu_w i rest = execute_amo max_unsigned i
  atomic _ i rest = rest
