-- ===== src/Instr/Decode/Facts.antt =====
-- What a word that fits a pattern shows in each field that the pattern's mask covers.
use riscv_vp.Base.{
  ℕ, ◌≡◌, ap, bit_and, bit_range, shr, masked_field, and-field, ◌/◌, ◌^◌, ==_iff, Option, none,
  some, arith,
}
use riscv_vp.Instr.Mapping.{Mapping, Architecture}
use riscv_vp.Instr.Fields.{opcode, funct2, funct3, funct5, funct6, funct7, funct12, rs2}
use riscv_vp.Instr.Pattern.{pattern_of, match_instr, check, Pattern, Fits}

module _ (i m e : ℕ) (h : bit_and i m ≡ e) where
  -- Each takes a check, by evaluation, that the mask covers the field.
  pub opcode_fact : bit_range m 6 0 ≡ 0x7f → opcode i ≡ bit_range e 6 0
  unfolding opcode
  opcode_fact c = masked_field i m e 0x7f h c

  field_fact : (f s : ℕ) → bit_and m f ≡ f → shr (bit_and i f) s ≡ shr (bit_and e f) s
  field_fact f s c = ap (λ x. shr x s) (masked_field i m e f h c)

  pub funct3_fact : bit_range m 14 12 ≡ 0x7000 → funct3 i ≡ shr (bit_range e 14 12) 12
  unfolding funct3
  funct3_fact c = field_fact 0x7000 12 c

  pub funct7_fact : bit_range m 31 25 ≡ 0xfe000000 → funct7 i ≡ shr (bit_range e 31 25) 25
  unfolding funct7
  funct7_fact c = field_fact 0xfe000000 25 c

  pub funct6_fact : bit_range m 31 26 ≡ 0xfc000000 → funct6 i ≡ shr (bit_range e 31 26) 26
  unfolding funct6
  funct6_fact c = field_fact 0xfc000000 26 c

  pub funct5_fact : bit_range m 31 27 ≡ 0xf8000000 → funct5 i ≡ shr (bit_range e 31 27) 27
  unfolding funct5
  funct5_fact c = field_fact 0xf8000000 27 c

  pub funct12_fact : bit_range m 31 20 ≡ 0xfff00000 → funct12 i ≡ shr (bit_range e 31 20) 20
  unfolding funct12
  funct12_fact c = field_fact 0xfff00000 20 c

  pub funct2_fact : bit_range m 26 25 ≡ 0x06000000 → funct2 i ≡ shr (bit_range e 26 25) 25
  unfolding funct2
  funct2_fact c = field_fact 0x06000000 25 c

  pub rs2_fact : bit_range m 24 20 ≡ 0x01f00000 → rs2 i ≡ shr (bit_range e 24 20) 20
  unfolding rs2
  rs2_fact c = field_fact 0x01f00000 20 c

-- The upper seven bits of `funct12` are `funct7`.
pub funct12-of_funct7 : (i : ℕ) → funct12 i / 2 ^ 5 ≡ funct7 i
unfolding funct12 funct7
funct12-of_funct7 i = omega (arith, and-field 20 12 i, and-field 25 7 i)

pub check_found :
    (m : Mapping) (a : Architecture) (i : ℕ) → Fits (pattern_of m a) i → match_instr m a i ≡ m
unfolding match_instr
check_found m a i h = fits_check (pattern_of m a) h
  where
    fits_check : (p : Option Pattern) → Fits p i → check m p i ≡ m
    fits_check none h = absurd h
    fits_check (some p) h = rw ((==_iff (bit_and i p.mask) p.encoding).1 h)
