-- ===== src/Instr/Compressed/Total.antt =====
-- When `decode_and_expand_compressed` answers, and what it does with `C.ADDIW`.
use riscv_vp.Base.{ℕ, ◌≡◌, ◌≢◌, ◌↔◌, ◌<◌, false, none, and-ones, switch, arith}
use riscv_vp.Instr.Mapping.{Architecture, addi, addiw}
use riscv_vp.Instr.Pattern.{pattern_of}
use riscv_vp.Instr.Decode.{decode_normal}
use riscv_vp.Instr.Decode.Complete.{decode-of_Fits}
use riscv_vp.Instr.Factory
use riscv_vp.Instr.Factory.Laws.{i_type-fits}
use riscv_vp.Instr.Compressed.Opcode.{c_addiw}
use riscv_vp.Instr.Compressed.Fields.{quadrant, is_compressed, c_rd, c_imm}
use riscv_vp.Instr.Compressed.Expand.{expand_compressed}
use riscv_vp.Instr.Compressed.Decode.{decode_compressed}
use riscv_vp.Instr.Compressed.{decode_and_expand_compressed}

quadrant-lt : (i : ℕ) → quadrant i < 4
unfolding quadrant
quadrant-lt i = omega (arith, and-ones 2 i)

-- `decode_and_expand_compressed` throws exactly on the words for which `is_compressed` is false.
pub decode_and_expand_throws_iff :
    (a : Architecture) (i : ℕ)
    → (decode_and_expand_compressed a i ≡ none) ↔ (is_compressed i ≡ false)
unfolding decode_and_expand_compressed decode_compressed is_compressed switch
decode_and_expand_throws_iff a i = ground (arith, quadrant-lt i)

-- `C.ADDIW` with a destination other than x0 is answered as `addiw`, but the word that is made
-- for it is decoded as `addi`.
pub decode_normal-expand_addiw :
    (a : Architecture) (i : ℕ)
    → c_rd i ≢ 0
    → ((expand_compressed a c_addiw i).1 ≡ addiw)
      × (decode_normal a (expand_compressed a c_addiw i).0 ≡ addi)
unfolding expand_compressed Factory.addi pattern_of
decode_normal-expand_addiw a i h = ground (
  arith,
  decode-of_Fits addi a (Factory.i_type (c_rd i) (c_rd i) (c_imm i) 19 0)
      (i_type-fits (c_rd i) (c_rd i) (c_imm i) 19 0),
)
