-- ===== src/Instr/Factory/Operands.antt =====
-- The operands that the fields read from a word of the factory.
use riscv_vp.Base.{
  ℕ, ◌*◌, ◌^◌, ◌-◌, ◌<◌, ◌≤◌, ◌≡◌, ◌⊎◌, refl, ap, ◌∙◌, bit_and, bit_or, or-and, zero-and, or-zero,
  and-ones, and-shift, and_within, arith,
}
use riscv_vp.Instr.Fields.{rd, rs1, rs2, i_imm}
use riscv_vp.Instr.Factory
use riscv_vp.Instr.Factory.{registers, i_type}
use riscv_vp.Instr.Factory.Laws.{field-off, or-right, or-off}

-- What a mask shows of a chain of `|`, of which it sees one part only.
module _ (m x : ℕ) where
  or-left : (y : ℕ) → bit_and y m ≡ 0 → bit_and (bit_or x y) m ≡ bit_and x m
  or-left y h = rw (or-and x y m, h, or-zero (bit_and x m))

-- An operand of which the mask sees all.
field-on :
    (x f k : ℕ) → bit_and f f ≡ f → bit_and (bit_and x f * 2 ^ k) (f * 2 ^ k) ≡ bit_and x f * 2 ^ k
field-on x f k h = and-shift k (bit_and x f) f ∙ ap (λ y. y * 2 ^ k) (and_within x f f h)

i_type-imm :
    (d s imm op f3 : ℕ)
    → bit_and op 0xfff00000 ≡ 0
    → bit_and (f3 * 2 ^ 12) 0xfff00000 ≡ 0
    → bit_and (i_type d s imm op f3) 0xfff00000 ≡ bit_and imm 4095 * 2 ^ 20
i_type-imm d s imm op f3 h k =
    or-left 0xfff00000 _ (f3 * 2 ^ 12) k
    ∙ or-left 0xfff00000 _ op h
    ∙ or-left 0xfff00000 _ _ (field-off s 0x1f 15 0xfff00000 refl)
    ∙ or-left 0xfff00000 _ _ (field-off d 0x1f 7 0xfff00000 refl)
    ∙ field-on imm 4095 20 refl

i_type-rd :
    (d s imm op f3 : ℕ)
    → bit_and op 0xf80 ≡ 0
    → bit_and (f3 * 2 ^ 12) 0xf80 ≡ 0
    → bit_and (i_type d s imm op f3) 0xf80 ≡ bit_and d 31 * 2 ^ 7
i_type-rd d s imm op f3 h k =
    or-left 0xf80 _ (f3 * 2 ^ 12) k
    ∙ or-left 0xf80 _ op h
    ∙ or-left 0xf80 _ _ (field-off s 0x1f 15 0xf80 refl)
    ∙ or-right _ (bit_and d 0x1f * 2 ^ 7) 0xf80 (field-off imm 4095 20 0xf80 refl)
    ∙ field-on d 31 7 refl

i_type-rs1 :
    (d s imm op f3 : ℕ)
    → bit_and op 0xf8000 ≡ 0
    → bit_and (f3 * 2 ^ 12) 0xf8000 ≡ 0
    → bit_and (i_type d s imm op f3) 0xf8000 ≡ bit_and s 31 * 2 ^ 15
i_type-rs1 d s imm op f3 h k =
    or-left 0xf8000 _ (f3 * 2 ^ 12) k
    ∙ or-left 0xf8000 _ op h
    ∙ or-right _ (bit_and s 0x1f * 2 ^ 15) 0xf8000
        (or-off _ _ _ (field-off imm 4095 20 0xf8000 refl) (field-off d 0x1f 7 0xf8000 refl))
    ∙ field-on s 31 15 refl

-- A register number.
abbrev pub IsRegister : ℕ → Type 0
IsRegister r = r < 32

-- The pattern of an `int32_t` from -2048 to 2047.
abbrev pub IsImmediate : ℕ → Type 0
IsImmediate v = (v < 2 ^ 11) ⊎ ((2 ^ 32 - 2 ^ 11 ≤ v) × (v < 2 ^ 32))

-- The fields read back what `addi` was made with, for registers below 32 and an immediate from
-- -2048 to 2047.
pub addi_operands :
    (d s imm : ℕ)
    → IsRegister d
    → IsRegister s
    → IsImmediate imm
    → let i = Factory.addi d s imm in (rd i ≡ d) × (rs1 i ≡ s) × (i_imm i ≡ imm)
unfolding Factory.addi rd rs1 i_imm
addi_operands d s imm hd hs hi = (
  omega (arith, i_type-rd d s imm 19 0 refl refl, and-ones 5 d),
  omega (arith, i_type-rs1 d s imm 19 0 refl refl, and-ones 5 s),
  ground (arith, i_type-imm d s imm 19 0 refl refl, and-ones 12 imm),
)

-- What a mask shows of an `add` if it sees no more than the registers.
add-registers :
    (d s t m : ℕ) → bit_and 51 m ≡ 0 → bit_and (Factory.add d s t) m ≡ bit_and (registers d s t) m
unfolding Factory.add
add-registers d s t m h =
    or-left m _ 0 (zero-and m) ∙ or-left m _ 0 (zero-and m) ∙ or-left m (registers d s t) 51 h

add-rd : (d s t : ℕ) → bit_and (Factory.add d s t) 0xf80 ≡ bit_and d 31 * 2 ^ 7
add-rd d s t =
    add-registers d s t 0xf80 refl
    ∙ or-left 0xf80 _ _ (field-off t 31 20 0xf80 refl)
    ∙ or-left 0xf80 _ _ (field-off s 31 15 0xf80 refl)
    ∙ field-on d 31 7 refl

add-rs1 : (d s t : ℕ) → bit_and (Factory.add d s t) 0xf8000 ≡ bit_and s 31 * 2 ^ 15
add-rs1 d s t =
    add-registers d s t 0xf8000 refl
    ∙ or-left 0xf8000 _ _ (field-off t 31 20 0xf8000 refl)
    ∙ or-right _ _ 0xf8000 (field-off d 31 7 0xf8000 refl)
    ∙ field-on s 31 15 refl

add-rs2 : (d s t : ℕ) → bit_and (Factory.add d s t) 0x1f00000 ≡ bit_and t 31 * 2 ^ 20
add-rs2 d s t =
    add-registers d s t 0x1f00000 refl
    ∙ or-right _ _ 0x1f00000
        (or-off _ _ _ (field-off d 31 7 0x1f00000 refl) (field-off s 31 15 0x1f00000 refl))
    ∙ field-on t 31 20 refl

-- The fields read back the registers that `add` was made with.
pub add_operands :
    (d s t : ℕ)
    → IsRegister d
    → IsRegister s
    → IsRegister t
    → let i = Factory.add d s t in (rd i ≡ d) × (rs1 i ≡ s) × (rs2 i ≡ t)
unfolding rd rs1 rs2
add_operands d s t hd hs ht = (
  omega (arith, add-rd d s t, and-ones 5 d),
  omega (arith, add-rs1 d s t, and-ones 5 s),
  omega (arith, add-rs2 d s t, and-ones 5 t),
)
