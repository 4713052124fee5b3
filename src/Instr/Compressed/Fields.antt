-- ===== src/Instr/Compressed/Fields.antt =====
-- The fields of a compressed instruction (`struct Instruction` of vp/src/core/common/instr.h) and
-- its immediates (vp/src/core/common/instr.cpp). An `int32_t` is its bit pattern.
use riscv_vp.Base.{ℕ, bit_and, bit_or, bit_range, bit_single, shr, sar32, shl32, ◌-◌, Bool, ltb}

-- `BIT_SLICE`, `BIT_SINGLE_P1`, `BIT_SINGLE_PN` and `EXTRACT_SIGN_BIT`.
abbrev pub bit_slice : ℕ → ℕ → ℕ → ℕ
bit_slice x upper lower = shr (bit_range x upper lower) lower

abbrev pub bit_single_p1 : ℕ → ℕ → ℕ
bit_single_p1 x pos = shr (bit_single x pos) pos

abbrev pub bit_single_pn : ℕ → ℕ → ℕ → ℕ
bit_single_pn x pos new_pos = shl32 (bit_single_p1 x pos) new_pos

abbrev pub extract_sign_bit : ℕ → ℕ → ℕ → ℕ
extract_sign_bit x pos new_pos = sar32 (shl32 (bit_single_p1 x pos) 31) (31 - new_pos)

infixl 20 ◌|||◌
abbrev ◌|||◌ : ℕ → ℕ → ℕ
a ||| b = bit_or a b

infixl 40 ◌<<◌
abbrev ◌<<◌ : ℕ → ℕ → ℕ
a << k = shl32 a k

unfoldable pub quadrant : ℕ → ℕ
quadrant i = bit_and i 0x3

unfoldable pub is_compressed : ℕ → Bool
is_compressed i = ltb (quadrant i) 3

unfoldable pub c_format : ℕ → ℕ
c_format i = bit_and i 0xffff

unfoldable pub c_opcode : ℕ → ℕ
c_opcode i = bit_slice i 15 13

unfoldable pub c_b12 : ℕ → ℕ
c_b12 i = bit_single_p1 i 12

unfoldable pub c_rd : ℕ → ℕ
c_rd i = bit_slice i 11 7

unfoldable pub c_rd_small : ℕ → ℕ
c_rd_small i = bit_slice i 9 7 ||| 8

unfoldable pub c_rs2_small : ℕ → ℕ
c_rs2_small i = bit_slice i 4 2 ||| 8

unfoldable pub c_rs2 : ℕ → ℕ
c_rs2 i = bit_slice i 6 2

unfoldable pub c_imm : ℕ → ℕ
c_imm i = bit_slice i 6 2 ||| extract_sign_bit i 12 5

unfoldable pub c_uimm : ℕ → ℕ
c_uimm i = bit_slice i 6 2 ||| bit_single_p1 i 12 << 5

unfoldable pub c_f2_high : ℕ → ℕ
c_f2_high i = bit_slice i 11 10

unfoldable pub c_f2_low : ℕ → ℕ
c_f2_low i = bit_slice i 6 5

unfoldable pub c_addi4spn_nzuimm : ℕ → ℕ
c_addi4spn_nzuimm n =
    bit_slice n 12 11 << 4
    ||| bit_slice n 10 7 << 6
    ||| bit_single_p1 n 6 << 2
    ||| bit_single_p1 n 5 << 3

unfoldable pub c_lw_uimm : ℕ → ℕ
c_lw_uimm n = bit_slice n 12 10 << 3 ||| bit_single_p1 n 6 << 2 ||| bit_single_p1 n 5 << 6

unfoldable pub c_ld_uimm : ℕ → ℕ
c_ld_uimm n = bit_slice n 12 10 << 3 ||| bit_slice n 6 5 << 6

unfoldable pub c_sw_uimm : ℕ → ℕ
c_sw_uimm n = c_lw_uimm n

unfoldable pub c_sd_uimm : ℕ → ℕ
c_sd_uimm n = c_ld_uimm n

unfoldable pub c_jal_imm : ℕ → ℕ
c_jal_imm n =
    extract_sign_bit n 12 11
    ||| bit_single_pn n 11 4
    ||| bit_slice n 10 9 << 8
    ||| bit_single_pn n 8 10
    ||| bit_single_pn n 7 6
    ||| bit_single_pn n 6 7
    ||| bit_slice n 5 3 << 1
    ||| bit_single_pn n 2 5

unfoldable pub c_addi16sp_nzimm : ℕ → ℕ
c_addi16sp_nzimm n =
    extract_sign_bit n 12 9
    ||| bit_single_pn n 6 4
    ||| bit_single_pn n 5 6
    ||| bit_slice n 4 3 << 7
    ||| bit_single_pn n 2 5

unfoldable pub c_lui_nzimm : ℕ → ℕ
c_lui_nzimm n = extract_sign_bit n 12 17 ||| bit_slice n 6 2 << 12

unfoldable pub c_j_imm : ℕ → ℕ
c_j_imm n = c_jal_imm n

unfoldable pub c_branch_imm : ℕ → ℕ
c_branch_imm n =
    extract_sign_bit n 12 8
    ||| bit_slice n 11 10 << 3
    ||| bit_slice n 6 5 << 6
    ||| bit_slice n 4 3 << 1
    ||| bit_single_pn n 2 5

unfoldable pub c_lwsp_uimm : ℕ → ℕ
c_lwsp_uimm n = bit_single_pn n 12 5 ||| bit_slice n 6 4 << 2 ||| bit_slice n 3 2 << 6

unfoldable pub c_swsp_uimm : ℕ → ℕ
c_swsp_uimm n = bit_slice n 12 9 << 2 ||| bit_slice n 8 7 << 6

unfoldable pub c_ldsp_uimm : ℕ → ℕ
c_ldsp_uimm n = bit_single_pn n 12 5 ||| bit_slice n 6 5 << 3 ||| bit_slice n 4 2 << 6

unfoldable pub c_sdsp_uimm : ℕ → ℕ
c_sdsp_uimm n = bit_slice n 12 10 << 3 ||| bit_slice n 9 7 << 6
