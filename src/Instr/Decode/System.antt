-- ===== src/Instr/Decode/System.antt =====
-- The cases of `Instruction::decode_normal` for the system and atomic instructions
-- (vp/src/core/common/instr.cpp).
use riscv_vp.Base.{ℕ, [], ◌∷◌, switch, ◌==◌, if◌then◌else◌}
use riscv_vp.Instr.Mapping.{
  Architecture, Mapping, undef, amoadd_d, amoadd_w, amoand_d, amoand_w, amomax_d, amomax_w,
  amomaxu_d, amomaxu_w, amomin_d, amomin_w, amominu_d, amominu_w, amoor_d, amoor_w, amoswap_d,
  amoswap_w, amoxor_d, amoxor_w, csrrc, csrrci, csrrs, csrrsi, csrrw, csrrwi, ebreak, ecall, fence,
  fence_i, lr_d, lr_w, mret, sc_d, sc_w, sfence_vma, sret, uret, wfi,
}
use riscv_vp.Instr.Parts.{
  f12_ebreak, f12_ecall, f12_mret, f12_sret, f12_uret, f12_wfi, f3_amo_d, f3_csrrc, f3_csrrci,
  f3_csrrs, f3_csrrsi, f3_csrrw, f3_csrrwi, f3_fence, f3_fence_i, f3_sys, f5_amoadd_w, f5_amoand_w,
  f5_amomax_w, f5_amomaxu_w, f5_amomin_w, f5_amominu_w, f5_amoor_w, f5_amoswap_w, f5_amoxor_w,
  f5_lr_w, f5_sc_w,
}
use riscv_vp.Instr.Fields.{funct12, funct3, funct5}
use riscv_vp.Instr.Pattern.{match_instr}

unfoldable pub decode_fence : Architecture → ℕ → Mapping
decode_fence a i =
    switch (funct3 i)
      ((f3_fence, match_instr fence a i) ∷ (f3_fence_i, match_instr fence_i a i) ∷ []) undef

unfoldable pub decode_system : Architecture → ℕ → Mapping
decode_system a i =
    switch (funct3 i)
      ((
        f3_sys,
        switch (funct12 i)
            ((f12_ecall, match_instr ecall a i)
              ∷ (f12_ebreak, match_instr ebreak a i)
              ∷ (f12_uret, match_instr uret a i)
              ∷ (f12_sret, match_instr sret a i)
              ∷ (f12_mret, match_instr mret a i)
              ∷ (f12_wfi, match_instr wfi a i)
              ∷ [])
            (match_instr sfence_vma a i),
      )
        ∷ (f3_csrrw, match_instr csrrw a i)
        ∷ (f3_csrrs, match_instr csrrs a i)
        ∷ (f3_csrrc, match_instr csrrc a i)
        ∷ (f3_csrrwi, match_instr csrrwi a i)
        ∷ (f3_csrrsi, match_instr csrrsi a i)
        ∷ (f3_csrrci, match_instr csrrci a i)
        ∷ [])
      undef

unfoldable pub decode_amo : Architecture → ℕ → Mapping
decode_amo a i =
    switch (funct5 i)
      ((f5_lr_w, if funct3 i == f3_amo_d then match_instr lr_d a i else match_instr lr_w a i)
        ∷ (f5_sc_w, if funct3 i == f3_amo_d then match_instr sc_d a i else match_instr sc_w a i)
        ∷ (
          f5_amoswap_w,
          if funct3 i == f3_amo_d then match_instr amoswap_d a i else match_instr amoswap_w a i,
        )
        ∷ (
          f5_amoadd_w,
          if funct3 i == f3_amo_d then match_instr amoadd_d a i else match_instr amoadd_w a i,
        )
        ∷ (
          f5_amoxor_w,
          if funct3 i == f3_amo_d then match_instr amoxor_d a i else match_instr amoxor_w a i,
        )
        ∷ (
          f5_amoand_w,
          if funct3 i == f3_amo_d then match_instr amoand_d a i else match_instr amoand_w a i,
        )
        ∷ (
          f5_amoor_w,
          if funct3 i == f3_amo_d then match_instr amoor_d a i else match_instr amoor_w a i,
        )
        ∷ (
          f5_amomin_w,
          if funct3 i == f3_amo_d then match_instr amomin_d a i else match_instr amomin_w a i,
        )
        ∷ (
          f5_amomax_w,
          if funct3 i == f3_amo_d then match_instr amomax_d a i else match_instr amomax_w a i,
        )
        ∷ (
          f5_amominu_w,
          if funct3 i == f3_amo_d then match_instr amominu_d a i else match_instr amominu_w a i,
        )
        ∷ (
          f5_amomaxu_w,
          if funct3 i == f3_amo_d then match_instr amomaxu_d a i else match_instr amomaxu_w a i,
        )
        ∷ [])
      undef
