-- ===== src/Instr/Decode/Sound.antt =====
-- The decoder answers an instruction only for a word that fits its pattern: every leaf of the
-- switch is a check, and a switch answers one of its leaves.
use riscv_vp.Base.{
  ℕ, ◌≡◌, refl, Bool, true, false, Option, none, some, List, [], ◌∷◌, ◌⊎◌, inl, inr, switch,
  if◌then◌else◌, Bool-cases, ◌==◌, ==_iff, bit_and,
}
use riscv_vp.Instr.Mapping.{
  Mapping, Architecture, undef, lui, auipc, jal, jalr, beq, bne, blt, bge, bltu, bgeu, lb, lh, lw,
  lbu, lhu, sb, sh, sw, addi, slti, sltiu, xori, ori, andi, slli, srli, srai, add, sub, sll, slt,
  sltu, xor, srl, sra, or, and, fence, ecall, ebreak, fence_i, csrrw, csrrs, csrrc, csrrwi, csrrsi,
  csrrci, mul, mulh, mulhsu, mulhu, div, divu, rem, remu, lr_w, sc_w, amoswap_w, amoadd_w, amoxor_w,
  amoand_w, amoor_w, amomin_w, amomax_w, amominu_w, amomaxu_w, lwu, ld, sd, addiw, slliw, srliw,
  sraiw, addw, subw, sllw, srlw, sraw, mulw, divw, divuw, remw, remuw, lr_d, sc_d, amoswap_d,
  amoadd_d, amoxor_d, amoand_d, amoor_d, amomin_d, amomax_d, amominu_d, amomaxu_d, flw, fsw,
  fmadd_s, fmsub_s, fnmadd_s, fnmsub_s, fadd_s, fsub_s, fmul_s, fdiv_s, fsqrt_s, fsgnj_s, fsgnjn_s,
  fsgnjx_s, fmin_s, fmax_s, fcvt_w_s, fcvt_wu_s, fmv_x_w, feq_s, flt_s, fle_s, fclass_s, fcvt_s_w,
  fcvt_s_wu, fmv_w_x, fcvt_l_s, fcvt_lu_s, fcvt_s_l, fcvt_s_lu, fld, fsd, fmadd_d, fmsub_d,
  fnmsub_d, fnmadd_d, fadd_d, fsub_d, fmul_d, fdiv_d, fsqrt_d, fsgnj_d, fsgnjn_d, fsgnjx_d, fmin_d,
  fmax_d, fcvt_s_d, fcvt_d_s, feq_d, flt_d, fle_d, fclass_d, fcvt_w_d, fcvt_wu_d, fcvt_d_w,
  fcvt_d_wu, fcvt_l_d, fcvt_lu_d, fmv_x_d, fcvt_d_l, fcvt_d_lu, fmv_d_x, uret, sret, mret, wfi,
  sfence_vma,
}
use riscv_vp.Instr.Parts.{f3_amo_d}
use riscv_vp.Instr.Fields.{funct12, funct2, funct3, funct5, funct6, funct7, opcode, rs2}
use riscv_vp.Instr.Pattern.{pattern_of, match_instr, check, Fits}
use riscv_vp.Instr.Decode.{decode_normal}
use riscv_vp.Instr.Decode.Integer.{
  decode_branch, decode_load, decode_store, decode_op_imm, decode_op_imm_w, decode_op, decode_op_w,
}
use riscv_vp.Instr.Decode.System.{decode_fence, decode_system, decode_amo}
use riscv_vp.Instr.Decode.Float.{
  decode_fmadd, decode_op_fp, decode_load_fp, decode_store_fp, decode_fmsub, decode_fnmsub,
  decode_fnmadd,
}

module _ (a : Architecture) (i : ℕ) where
  -- An answer is `undef` or fits.
  abbrev pub IsFound : Mapping → Type 0
  IsFound m = (m ≡ undef) ⊎ Fits (pattern_of m a) i

  abbrev AllFound : List (ℕ × Mapping) → Type 0
  AllFound [] = Unit {0}
  AllFound ((k, m) ∷ cases) = IsFound m × AllFound cases

  check-IsFound : (m : Mapping) (p : Option _) → pattern_of m a ≡ p → IsFound (check m p i)
  check-IsFound m none e = inl refl
  check-IsFound m (some p) e = elim (Bool-cases (bit_and i p.mask == p.encoding)) [
    | inl t ↦ rw t (inr (rw e ((==_iff (bit_and i p.mask) p.encoding).0 t)))
    | inr t ↦ rw t (inl refl)
  ]

  found : (m : Mapping) → IsFound (match_instr m a i)
  unfolding match_instr
  found m = check-IsFound m (pattern_of m a) refl

  either : (b : Bool) {m n : Mapping} → IsFound m → IsFound n → IsFound (if b then m else n)
  either true f g = f
  either false f g = g

  cases :
      (x : ℕ) (cs : List (ℕ × Mapping)) (d : Mapping)
      → AllFound cs
      → IsFound d
      → IsFound (switch x cs d)
  unfolding switch
  cases x [] d h g = g
  cases x ((k, m) ∷ cs) d h g = either (x == k) h.0 (cases x cs d h.1 g)

  decode_branch-IsFound : IsFound (decode_branch a i)
  unfolding decode_branch
  decode_branch-IsFound =
      cases (funct3 i) _ _
        (found beq, (found bne, (found blt, (found bge, (found bltu, (found bgeu, tt))))))
        (inl refl)

  decode_load-IsFound : IsFound (decode_load a i)
  unfolding decode_load
  decode_load-IsFound =
      cases (funct3 i) _ _
        (found lb, (found lh, (found lw, (found lbu, (found lhu, (found lwu, (found ld, tt)))))))
        (inl refl)

  decode_store-IsFound : IsFound (decode_store a i)
  unfolding decode_store
  decode_store-IsFound =
      cases (funct3 i) _ _ (found sb, (found sh, (found sw, (found sd, tt)))) (inl refl)

  decode_op_imm-IsFound : IsFound (decode_op_imm a i)
  unfolding decode_op_imm
  decode_op_imm-IsFound =
      cases (funct3 i) _ _
        (
          found addi,
          (
            found slti,
            (
              found sltiu,
              (
                found xori,
                (
                  found ori,
                  (
                    found andi,
                    (
                      found slli,
                      (cases (funct6 i) _ _ (found srli, (found srai, tt)) (inl refl), tt),
                    ),
                  ),
                ),
              ),
            ),
          ),
        )
        (inl refl)

  decode_op_imm_w-IsFound : IsFound (decode_op_imm_w a i)
  unfolding decode_op_imm_w
  decode_op_imm_w-IsFound =
      cases (funct3 i) _ _
        (
          found addiw,
          (found slliw, (cases (funct7 i) _ _ (found srliw, (found sraiw, tt)) (inl refl), tt)),
        )
        (inl refl)

  decode_op-IsFound : IsFound (decode_op a i)
  unfolding decode_op
  decode_op-IsFound =
      cases (funct7 i) _ _
        (
          cases (funct3 i) _ _
              (
                found add,
                (
                  found sll,
                  (found slt, (found sltu, (found xor, (found srl, (found or, (found and, tt)))))),
                ),
              )
              (inl refl),
          (
            cases (funct3 i) _ _ (found sub, (found sra, tt)) (inl refl),
            (
              cases (funct3 i) _ _
                  (
                    found mul,
                    (
                      found mulh,
                      (
                        found mulhsu,
                        (found mulhu, (found div, (found divu, (found rem, (found remu, tt))))),
                      ),
                    ),
                  )
                  (inl refl),
              tt,
            ),
          ),
        )
        (inl refl)

  decode_op_w-IsFound : IsFound (decode_op_w a i)
  unfolding decode_op_w
  decode_op_w-IsFound =
      cases (funct7 i) _ _
        (
          cases (funct3 i) _ _ (found addw, (found sllw, (found srlw, tt))) (inl refl),
          (
            cases (funct3 i) _ _ (found subw, (found sraw, tt)) (inl refl),
            (
              cases (funct3 i) _ _
                  (found mulw, (found divw, (found divuw, (found remw, (found remuw, tt)))))
                  (inl refl),
              tt,
            ),
          ),
        )
        (inl refl)

  decode_fence-IsFound : IsFound (decode_fence a i)
  unfolding decode_fence
  decode_fence-IsFound = cases (funct3 i) _ _ (found fence, (found fence_i, tt)) (inl refl)

  decode_system-IsFound : IsFound (decode_system a i)
  unfolding decode_system
  decode_system-IsFound =
      cases (funct3 i) _ _
        (
          cases (funct12 i) _ _
              (
                found ecall,
                (found ebreak, (found uret, (found sret, (found mret, (found wfi, tt))))),
              )
              (found sfence_vma),
          (
            found csrrw,
            (found csrrs, (found csrrc, (found csrrwi, (found csrrsi, (found csrrci, tt))))),
          ),
        )
        (inl refl)

  decode_amo-IsFound : IsFound (decode_amo a i)
  unfolding decode_amo
  decode_amo-IsFound =
      cases (funct5 i) _ _
        (
          either (funct3 i == f3_amo_d) (found lr_d) (found lr_w),
          (
            either (funct3 i == f3_amo_d) (found sc_d) (found sc_w),
            (
              either (funct3 i == f3_amo_d) (found amoswap_d) (found amoswap_w),
              (
                either (funct3 i == f3_amo_d) (found amoadd_d) (found amoadd_w),
                (
                  either (funct3 i == f3_amo_d) (found amoxor_d) (found amoxor_w),
                  (
                    either (funct3 i == f3_amo_d) (found amoand_d) (found amoand_w),
                    (
                      either (funct3 i == f3_amo_d) (found amoor_d) (found amoor_w),
                      (
                        either (funct3 i == f3_amo_d) (found amomin_d) (found amomin_w),
                        (
                          either (funct3 i == f3_amo_d) (found amomax_d) (found amomax_w),
                          (
                            either (funct3 i == f3_amo_d) (found amominu_d) (found amominu_w),
                            (either (funct3 i == f3_amo_d) (found amomaxu_d) (found amomaxu_w), tt),
                          ),
                        ),
                      ),
                    ),
                  ),
                ),
              ),
            ),
          ),
        )
        (inl refl)

  decode_fmadd-IsFound : IsFound (decode_fmadd a i)
  unfolding decode_fmadd
  decode_fmadd-IsFound = cases (funct2 i) _ _ (found fmadd_s, (found fmadd_d, tt)) (inl refl)

  decode_op_fp-IsFound : IsFound (decode_op_fp a i)
  unfolding decode_op_fp
  decode_op_fp-IsFound =
      cases (funct7 i) _ _
        (
          found fadd_s,
          (
            found fadd_d,
            (
              found fsub_s,
              (
                found fsub_d,
                (
                  found fcvt_d_s,
                  (
                    found fmul_s,
                    (
                      found fmul_d,
                      (
                        found fdiv_s,
                        (
                          found fdiv_d,
                          (
                            cases (funct3 i) _ _ (found fle_s, (found flt_s, (found feq_s, tt)))
                                (inl refl),
                            (
                              cases (funct3 i) _ _
                                  (found fsgnj_d, (found fsgnjn_d, (found fsgnjx_d, tt)))
                                  (inl refl),
                              (
                                cases (funct3 i) _ _ (found fmin_s, (found fmax_s, tt)) (inl refl),
                                (
                                  cases (funct3 i) _ _ (found fmin_d, (found fmax_d, tt))
                                      (inl refl),
                                  (
                                    found fcvt_s_d,
                                    (
                                      cases (funct3 i) _ _
                                          (found fsgnj_s, (found fsgnjn_s, (found fsgnjx_s, tt)))
                                          (inl refl),
                                      (
                                        cases (funct3 i) _ _
                                            (found fle_d, (found flt_d, (found feq_d, tt)))
                                            (inl refl),
                                        (
                                          cases (rs2 i) _ _
                                              (
                                                found fcvt_s_w,
                                                (
                                                  found fcvt_s_wu,
                                                  (found fcvt_s_l, (found fcvt_s_lu, tt)),
                                                ),
                                              )
                                              (inl refl),
                                          (
                                            cases (rs2 i) _ _
                                                (
                                                  found fcvt_d_w,
                                                  (
                                                    found fcvt_d_wu,
                                                    (found fcvt_d_l, (found fcvt_d_lu, tt)),
                                                  ),
                                                )
                                                (inl refl),
                                            (
                                              cases (rs2 i) _ _
                                                  (
                                                    found fcvt_w_d,
                                                    (
                                                      found fcvt_wu_d,
                                                      (found fcvt_l_d, (found fcvt_lu_d, tt)),
                                                    ),
                                                  )
                                                  (inl refl),
                                              (
                                                found fsqrt_s,
                                                (
                                                  found fsqrt_d,
                                                  (
                                                    cases (rs2 i) _ _
                                                        (
                                                          found fcvt_w_s,
                                                          (
                                                            found fcvt_wu_s,
                                                            (found fcvt_l_s, (found fcvt_lu_s, tt)),
                                                          ),
                                                        )
                                                        (inl refl),
                                                    (
                                                      cases (funct3 i) _ _
                                                          (found fmv_x_w, (found fclass_s, tt))
                                                          (inl refl),
                                                      (
                                                        cases (funct3 i) _ _
                                                            (found fmv_x_d, (found fclass_d, tt))
                                                            (inl refl),
                                                        (found fmv_w_x, (found fmv_d_x, tt)),
                                                      ),
                                                    ),
                                                  ),
                                                ),
                                              ),
                                            ),
                                          ),
                                        ),
                                      ),
                                    ),
                                  ),
                                ),
                              ),
                            ),
                          ),
                        ),
                      ),
                    ),
                  ),
                ),
              ),
            ),
          ),
        )
        (inl refl)

  decode_load_fp-IsFound : IsFound (decode_load_fp a i)
  unfolding decode_load_fp
  decode_load_fp-IsFound = cases (funct3 i) _ _ (found flw, (found fld, tt)) (inl refl)

  decode_store_fp-IsFound : IsFound (decode_store_fp a i)
  unfolding decode_store_fp
  decode_store_fp-IsFound = cases (funct3 i) _ _ (found fsw, (found fsd, tt)) (inl refl)

  decode_fmsub-IsFound : IsFound (decode_fmsub a i)
  unfolding decode_fmsub
  decode_fmsub-IsFound = cases (funct2 i) _ _ (found fmsub_s, (found fmsub_d, tt)) (inl refl)

  decode_fnmsub-IsFound : IsFound (decode_fnmsub a i)
  unfolding decode_fnmsub
  decode_fnmsub-IsFound = cases (funct2 i) _ _ (found fnmsub_s, (found fnmsub_d, tt)) (inl refl)

  decode_fnmadd-IsFound : IsFound (decode_fnmadd a i)
  unfolding decode_fnmadd
  decode_fnmadd-IsFound = cases (funct2 i) _ _ (found fnmadd_s, (found fnmadd_d, tt)) (inl refl)

  pub decode-IsFound : IsFound (decode_normal a i)
  unfolding decode_normal
  decode-IsFound =
      cases (opcode i) _ _
        (
          found lui,
          (
            found auipc,
            (
              found jal,
              (
                found jalr,
                (
                  decode_branch-IsFound,
                  (
                    decode_load-IsFound,
                    (
                      decode_store-IsFound,
                      (
                        decode_op_imm-IsFound,
                        (
                          decode_op_imm_w-IsFound,
                          (
                            decode_op-IsFound,
                            (
                              decode_op_w-IsFound,
                              (
                                decode_fence-IsFound,
                                (
                                  decode_system-IsFound,
                                  (
                                    decode_amo-IsFound,
                                    (
                                      decode_fmadd-IsFound,
                                      (
                                        decode_op_fp-IsFound,
                                        (
                                          decode_load_fp-IsFound,
                                          (
                                            decode_store_fp-IsFound,
                                            (
                                              decode_fmsub-IsFound,
                                              (decode_fnmsub-IsFound, (decode_fnmadd-IsFound, tt)),
                                            ),
                                          ),
                                        ),
                                      ),
                                    ),
                                  ),
                                ),
                              ),
                            ),
                          ),
                        ),
                      ),
                    ),
                  ),
                ),
              ),
            ),
          ),
        )
        (inl refl)
