-- ===== src/Instr/Factory/Laws.antt =====
-- Each word that the factory makes fits the pattern of its instruction, whatever the operands.
use riscv_vp.Base.{
  ℕ, ◌*◌, ◌/◌, ◌^◌, ◌%◌, ◌+◌, ◌<◌, ◌≡◌, refl, ap, sym, ◌∙◌, bit_and, bit_or, or-and, zero-or,
  and-shift, and-shifted, and_apart, and-ones, arith,
}
use riscv_vp.Instr.Factory.{registers, i_type, s_type, b_type, shift_type, jal, lui, addw, subw}

-- A mask that misses both sides of `|` misses it.
pub or-off : (x y m : ℕ) → bit_and x m ≡ 0 → bit_and y m ≡ 0 → bit_and (bit_or x y) m ≡ 0
or-off x y m h k = rw (or-and x y m, h, k)

-- A mask that misses the left side sees the right side.
pub or-right : (x y m : ℕ) → bit_and x m ≡ 0 → bit_and (bit_or x y) m ≡ bit_and y m
or-right x y m h = rw (or-and x y m, h, zero-or (bit_and y m))

-- An operand, cut to `f` and moved to place `k`, is not seen by a mask apart from that place.
pub field-off : (x f k m : ℕ) → bit_and (f * 2 ^ k) m ≡ 0 → bit_and (bit_and x f * 2 ^ k) m ≡ 0
field-off x f k m h = rw (← and-shift k x f) (and_apart (x * 2 ^ k) (f * 2 ^ k) m h)

-- The same for an operand that is moved to the right by four places.
shr_field-off : (x f m : ℕ) → bit_and f m ≡ 0 → bit_and (bit_and x (f * 2 ^ 4) / 2 ^ 4) m ≡ 0
shr_field-off x f m h =
    let e : x / 2 ^ 4 * 2 ^ 4 + x % 2 ^ 4 ≡ x = omega arith in
    let s = and-shifted 4 (x / 2 ^ 4) (x % 2 ^ 4) f (omega arith) in
    let t : bit_and x (f * 2 ^ 4) ≡ bit_and (x / 2 ^ 4) f * 2 ^ 4 =
      ap (λ y. bit_and y (f * 2 ^ 4)) (sym e) ∙ s in
    let u : bit_and x (f * 2 ^ 4) / 2 ^ 4 ≡ bit_and (x / 2 ^ 4) f = omega (arith, t) in
    rw u (and_apart (x / 2 ^ 4) f m h)

-- The constant part of a word is what a mask apart from the operands sees.
constants :
    (x a b m : ℕ)
    → bit_and x m ≡ 0
    → bit_and (bit_or (bit_or x a) b) m ≡ bit_or (bit_and a m) (bit_and b m)
constants x a b m h = rw (or-and (bit_or x a) b m, or-right x a m h)

constants3 :
    (x a b c m : ℕ)
    → bit_and x m ≡ 0
    → bit_and (bit_or (bit_or (bit_or x a) b) c) m
      ≡ bit_or (bit_or (bit_and a m) (bit_and b m)) (bit_and c m)
constants3 x a b c m h = rw (or-and (bit_or (bit_or x a) b) c m, constants x a b m h)

-- The mask of an instruction with three registers covers opcode, `funct3` and `funct7`.
registers-off : (rd rs1 rs2 : ℕ) → bit_and (registers rd rs1 rs2) 0xfe00707f ≡ 0
registers-off rd rs1 rs2 =
    or-off _ _ _
      (or-off _ _ _ (field-off rd 0x1f 7 0xfe00707f refl) (field-off rs1 0x1f 15 0xfe00707f refl))
      (field-off rs2 0x1f 20 0xfe00707f refl)

pub register_word-fits :
    (rd rs1 rs2 f3 f7 : ℕ)
    → bit_and (bit_or (bit_or (bit_or (registers rd rs1 rs2) 51) f3) f7) 0xfe00707f
      ≡ bit_or (bit_or 51 (bit_and f3 0xfe00707f)) (bit_and f7 0xfe00707f)
register_word-fits rd rs1 rs2 f3 f7 = constants3 _ 51 f3 f7 0xfe00707f (registers-off rd rs1 rs2)

pub addw-fits : (rd rs1 rs2 : ℕ) → bit_and (addw rd rs1 rs2) 0xfe00707f ≡ 0x3b
unfolding addw
addw-fits rd rs1 rs2 = or-right (registers rd rs1 rs2) 0x3b 0xfe00707f (registers-off rd rs1 rs2)

pub subw-fits : (rd rs1 rs2 : ℕ) → bit_and (subw rd rs1 rs2) 0xfe00707f ≡ 0x4000003b
unfolding subw
subw-fits rd rs1 rs2 =
    constants (registers rd rs1 rs2) 0x3b 0x40000000 0xfe00707f (registers-off rd rs1 rs2)

pub i_type-fits :
    (rd rs1 imm op f3 : ℕ)
    → bit_and (i_type rd rs1 imm op f3) 0x707f
      ≡ bit_or (bit_and op 0x707f) (bit_and (f3 * 2 ^ 12) 0x707f)
i_type-fits rd rs1 imm op f3 = constants _ op (f3 * 2 ^ 12) 0x707f (
    or-off _ _ _
      (or-off _ _ _ (field-off imm 4095 20 0x707f refl) (field-off rd 0x1f 7 0x707f refl))
      (field-off rs1 0x1f 15 0x707f refl))

pub s_type-fits :
    (rs1 rs2 imm op f3 : ℕ)
    → bit_and (s_type rs1 rs2 imm op f3) 0x707f
      ≡ bit_or (bit_and op 0x707f) (bit_and (f3 * 2 ^ 12) 0x707f)
s_type-fits rs1 rs2 imm op f3 = constants _ op (f3 * 2 ^ 12) 0x707f (
    or-off _ _ _
      (or-off _ _ _
        (or-off _ _ _ (field-off imm 0b11111 7 0x707f refl)
          (field-off imm 0b111111100000 20 0x707f refl))
        (field-off rs1 0x1f 15 0x707f refl))
      (field-off rs2 0x1f 20 0x707f refl))

pub b_type-fits :
    (rs1 rs2 imm f3 : ℕ)
    → bit_and (b_type rs1 rs2 imm f3) 0x707f ≡ bit_or 0x63 (bit_and (f3 * 2 ^ 12) 0x707f)
b_type-fits rs1 rs2 imm f3 = constants _ 99 (f3 * 2 ^ 12) 0x707f (
    or-off _ _ _
      (or-off _ _ _
        (or-off _ _ _
          (or-off _ _ _ (field-off imm 0b11110 7 0x707f refl) (shr_field-off imm 0x80 0x707f refl))
          (or-off _ _ _ (field-off imm 0b11111100000 20 0x707f refl)
            (field-off imm 0x1000 19 0x707f refl)))
        (field-off rs1 0x1f 15 0x707f refl))
      (field-off rs2 0x1f 20 0x707f refl))

-- On RV64 the mask leaves out bit 25, the top of the shift amount.
pub shift_type-fits :
    (rd rs1 shamt f3 f7 : ℕ)
    → bit_and (shift_type rd rs1 shamt f3 f7) 0xfc00707f
      ≡ bit_or (bit_or 19 (bit_and (f3 * 2 ^ 12) 0xfc00707f)) (bit_and (f7 * 2 ^ 25) 0xfc00707f)
shift_type-fits rd rs1 shamt f3 f7 = constants3 _ 19 (f3 * 2 ^ 12) (f7 * 2 ^ 25) 0xfc00707f (
    or-off _ _ _
      (or-off _ _ _ (field-off rd 0x1f 7 0xfc00707f refl) (field-off rs1 0x1f 15 0xfc00707f refl))
      (field-off shamt 63 20 0xfc00707f refl))

-- A shift amount below 32 leaves bit 25 clear.
small_shamt : (n : ℕ) → n < 32 → bit_and n 63 ≡ bit_and n 31
small_shamt n h = omega (arith, and-ones 6 n, and-ones 5 n)

pub shift_type-fits32 :
    (rd rs1 shamt f3 f7 : ℕ)
    → shamt < 32
    → bit_and (shift_type rd rs1 shamt f3 f7) 0xfe00707f
      ≡ bit_or (bit_or 19 (bit_and (f3 * 2 ^ 12) 0xfe00707f)) (bit_and (f7 * 2 ^ 25) 0xfe00707f)
shift_type-fits32 rd rs1 shamt f3 f7 h = constants3 _ 19 (f3 * 2 ^ 12) (f7 * 2 ^ 25) 0xfe00707f (
    or-off _ _ _
      (or-off _ _ _ (field-off rd 0x1f 7 0xfe00707f refl) (field-off rs1 0x1f 15 0xfe00707f refl))
      (rw (small_shamt shamt h) (field-off shamt 31 20 0xfe00707f refl)))

pub lui-fits : (rd imm : ℕ) → bit_and (lui rd imm) 0x7f ≡ 0x37
unfolding lui
lui-fits rd imm =
    or-right _ 55 0x7f
      (or-off _ _ _ (and_apart imm 0xfffff000 0x7f refl) (field-off rd 0x1f 7 0x7f refl))

pub jal-fits : (rd imm : ℕ) → bit_and (jal rd imm) 0x7f ≡ 0x6f
unfolding jal
jal-fits rd imm = rw (or-and _ _ 0x7f, immediate, or-and 111 _ 0x7f, field-off rd 0x1f 7 0x7f refl)
  where
    immediate :
        bit_and
          (bit_or
            (bit_or
              (bit_or (bit_and imm 0xff000) (bit_and imm 0x800 * 2 ^ 9))
              (bit_and imm 0x7fe * 2 ^ 20))
            (bit_and imm 0x100000 * 2 ^ 11))
          0x7f
        ≡ 0
    immediate =
        or-off _ _ _
          (or-off _ _ _
            (or-off _ _ _ (and_apart imm 0xff000 0x7f refl) (field-off imm 0x800 9 0x7f refl))
            (field-off imm 0x7fe 20 0x7f refl))
          (field-off imm 0x100000 11 0x7f refl)
