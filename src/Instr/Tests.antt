-- ===== src/Instr/Tests.antt =====
-- The theorems at concrete words, and runs of the decoder.
use riscv_vp.Base.{◌≡◌, ◌↔◌, refl, false, none, arith, switch}
use riscv_vp.Instr.Mapping.{Mapping, undef, rv32, rv64, lui, add, addi, addiw, sra}
use riscv_vp.Instr.Pattern.{pattern_of, Fits, match_instr}
use riscv_vp.Instr.Fields.{opcode, funct3, funct7}
use riscv_vp.Instr.Decode.{decode_normal}
use riscv_vp.Instr.Decode.Integer.{decode_op}
use riscv_vp.Instr.Decode.Spec.{decode_normal_iff, decode_undef_iff, pattern_of-disjoint}
use riscv_vp.Instr.Compressed.Opcode.{c_add, c_addiw}
use riscv_vp.Instr.Compressed.Fields.{is_compressed, c_rd}
use riscv_vp.Instr.Compressed.Expand.{expand_compressed}
use riscv_vp.Instr.Compressed.{decode_and_expand_compressed}
use riscv_vp.Instr.Compressed.Redecode.{decode_normal-expand}
use riscv_vp.Instr.Compressed.Total.{decode_and_expand_throws_iff, decode_normal-expand_addiw}

-- `sra a0, a0, a1`.
decode_sra : decode_normal rv32 0x40b55533 ≡ sra
unfolding decode_normal decode_op opcode funct3 funct7 match_instr pattern_of switch
decode_sra = refl

decode_normal_iff_example :
    (decode_normal rv32 0x123450b7 ≡ lui) ↔ Fits (pattern_of lui rv32) 0x123450b7
decode_normal_iff_example = decode_normal_iff lui rv32 0x123450b7 (λ e. cc)

decode_undef_iff_example :
    (decode_normal rv64 0xffffffff ≡ undef)
    ↔ ((m : Mapping) → ¬ Fits (pattern_of m rv64) 0xffffffff)
decode_undef_iff_example = decode_undef_iff rv64 0xffffffff

pattern_of-disjoint_example : ◌≡◌ {A = Mapping} add add
unfolding pattern_of
pattern_of-disjoint_example = pattern_of-disjoint add add rv32 0x00b50533 refl refl

-- `c.add a0, a1`.
decode_normal-expand_example :
    decode_normal rv32 (expand_compressed rv32 c_add 0x952e).0
    ≡ (expand_compressed rv32 c_add 0x952e).1
unfolding expand_compressed
decode_normal-expand_example = decode_normal-expand rv32 c_add 0x952e (λ e. cc) (λ e. cc)

decode_and_expand_throws_iff_example :
    (decode_and_expand_compressed rv32 0x33 ≡ none) ↔ (is_compressed 0x33 ≡ false)
decode_and_expand_throws_iff_example = decode_and_expand_throws_iff rv32 0x33

-- `c.addiw a0, 1`.
decode_normal-expand_addiw_example :
    ((expand_compressed rv64 c_addiw 0x2505).1 ≡ addiw)
    × (decode_normal rv64 (expand_compressed rv64 c_addiw 0x2505).0 ≡ addi)
unfolding c_rd
decode_normal-expand_addiw_example = decode_normal-expand_addiw rv64 0x2505 (omega arith)
