-- ===== src/Instr/Decode.antt =====
-- `Instruction::decode_normal` (vp/src/core/common/instr.cpp): the outer switch over the opcode.
pub mod Integer
mod System
mod Float
mod Facts
pub mod Complete
mod Sound
pub mod Spec
use riscv_vp.Base.{ℕ, List, [], ◌∷◌, switch}
use riscv_vp.Instr.Mapping.{Architecture, Mapping, undef, lui, auipc, jal, jalr}
use riscv_vp.Instr.Parts.{
  op_add, op_addi, op_addiw, op_addw, op_amo, op_auipc, op_beq, op_ecall, op_fadd_s, op_fence,
  op_flw, op_fmadd_s, op_fmsub_s, op_fnmadd_s, op_fnmsub_s, op_fsw, op_jal, op_jalr, op_lb, op_lui,
  op_sb,
}
use riscv_vp.Instr.Fields.{opcode}
use riscv_vp.Instr.Pattern.{match_instr}
use Integer.{
  decode_branch, decode_load, decode_store, decode_op_imm, decode_op_imm_w, decode_op, decode_op_w,
}
use System.{decode_fence, decode_system, decode_amo}
use Float.{
  decode_fmadd, decode_op_fp, decode_load_fp, decode_store_fp, decode_fmsub, decode_fnmsub,
  decode_fnmadd,
}

-- What `instr` names is the word `i`.
unfoldable pub decode_normal : Architecture → ℕ → Mapping
decode_normal a i =
    switch (opcode i)
      ((op_lui, match_instr lui a i)
        ∷ (op_auipc, match_instr auipc a i)
        ∷ (op_jal, match_instr jal a i)
        ∷ (op_jalr, match_instr jalr a i)
        ∷ (op_beq, decode_branch a i)
        ∷ (op_lb, decode_load a i)
        ∷ (op_sb, decode_store a i)
        ∷ (op_addi, decode_op_imm a i)
        ∷ (op_addiw, decode_op_imm_w a i)
        ∷ (op_add, decode_op a i)
        ∷ (op_addw, decode_op_w a i)
        ∷ (op_fence, decode_fence a i)
        ∷ (op_ecall, decode_system a i)
        ∷ (op_amo, decode_amo a i)
        ∷ (op_fmadd_s, decode_fmadd a i)
        ∷ (op_fadd_s, decode_op_fp a i)
        ∷ (op_flw, decode_load_fp a i)
        ∷ (op_fsw, decode_store_fp a i)
        ∷ (op_fmsub_s, decode_fmsub a i)
        ∷ (op_fnmsub_s, decode_fnmsub a i)
        ∷ (op_fnmadd_s, decode_fnmadd a i)
        ∷ [])
      undef
