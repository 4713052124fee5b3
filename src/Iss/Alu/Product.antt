-- ===== src/Iss/Alu/Product.antt =====
-- The two halves of a product make up the product.
use riscv_vp.Base.{
  ℕ, suc, ap, ◌+◌, ◌-◌, ◌*◌, ltb, Bool-cases, inl, inr, ◌/◌, ◌%◌, ◌^◌, ◌<◌, ◌≤◌, ◌≡◌, arith,
}
use riscv_vp.Base.Int.{ℤ, sub_ℕ, pos, negsuc, ◌+ℤ◌, ◌*ℤ◌, abs, int32, wrap}
use native.Mathlib.Nat.{mul_comm, mod-eq_of_lt}
use riscv_vp.Iss.Alu.{mul, mulh, mulhu, mulhsu}

int32_bound : (a : ℕ) → a < 2 ^ 32 → abs (int32 a) ≤ 2 ^ 31
int32_bound a h = ground arith

abs-mul : (x y : ℤ) → abs (x *ℤ y) ≡ abs x * abs y
unfolding ◌*ℤ◌
abs-mul (pos a) (pos b) = grind arith
abs-mul (pos a) (negsuc b) = grind arith
abs-mul (negsuc a) (pos b) = grind arith
abs-mul (negsuc a) (negsuc b) = grind arith

product_mono : (a b : ℕ) → a ≤ 2 ^ 31 → b ≤ 2 ^ 31 → a * b ≤ 2 ^ 62
product_mono a b h k = grind arith

halves :
    (p : ℤ)
    → abs p < 2 ^ 63
    → int32 (wrap 64 p / 2 ^ 32) *ℤ pos (2 ^ 32) +ℤ pos (wrap 64 p % 2 ^ 32) ≡ p
unfolding ◌+ℤ◌ ◌*ℤ◌
halves (pos n) h = ground arith
halves (negsuc n) h = ground arith

-- `MULH` and `MUL` give the high and the low word of the signed product.
mulh-mul :
    (a b : ℕ)
    → a < 2 ^ 32
    → b < 2 ^ 32
    → int32 (mulh a b) *ℤ pos (2 ^ 32) +ℤ pos (mul a b) ≡ int32 a *ℤ int32 b
unfolding mulh mul
mulh-mul a b h k = halves (int32 a *ℤ int32 b) (
    omega (
      arith,
      abs-mul (int32 a) (int32 b),
      product_mono (abs (int32 a)) (abs (int32 b)) (int32_bound a h) (int32_bound b k),
    ))

-- A factor's complement.
complement_mul : (a a' b m : ℕ) → a + a' ≡ m → a * b + a' * b ≡ m * b
complement_mul a a' b m e = rw (← e) (grind arith)

low_mixed : (a a' b : ℕ) → a + a' ≡ 2 ^ 32 → wrap 64 (sub_ℕ 0 (a' * b)) % 2 ^ 32 ≡ a * b % 2 ^ 32
low_mixed a a' b e = ground (arith, complement_mul a a' b (2 ^ 32) e)

low_negative :
    (a a' b b' : ℕ)
    → a + a' ≡ 2 ^ 32
    → b + b' ≡ 2 ^ 32
    → wrap 64 (pos (a' * b')) % 2 ^ 32 ≡ a * b % 2 ^ 32
low_negative a a' b b' e f = omega (
  arith,
  complement_mul a a' b (2 ^ 32) e,
  complement_mul b b' a' (2 ^ 32) f,
  mul_comm b a',
  mul_comm b' a',
)

restore : (a : ℕ) → a < 2 ^ 32 → suc (2 ^ 32 - a - 1) ≡ 2 ^ 32 - a
restore a h = omega arith

mul-low : (a b : ℕ) → a < 2 ^ 32 → b < 2 ^ 32 → mul a b ≡ a * b % 2 ^ 32
unfolding mul ◌*ℤ◌
mul-low a b h k = elim (Bool-cases (ltb a (2 ^ 31))) [
  | inl e ↦ elim (Bool-cases (ltb b (2 ^ 31))) [
    | inl f ↦ rw (e, f) (ground arith)
    | inr f ↦
        rw (e, f)
          (ground (
            arith,
            complement_mul b (2 ^ 32 - b) a (2 ^ 32) (omega arith),
            mul_comm b a,
            mul_comm (2 ^ 32 - b) a,
            ap (λ x. a * x) (restore b k),
          ))
  ]
  | inr e ↦ elim (Bool-cases (ltb b (2 ^ 31))) [
    | inl f ↦
        rw (e, f)
          (ground (
            arith,
            complement_mul a (2 ^ 32 - a) b (2 ^ 32) (omega arith),
            ap (λ x. x * b) (restore a h),
          ))
    | inr f ↦
        rw (e, f)
          (ground (
            arith,
            low_negative a (2 ^ 32 - a) b (2 ^ 32 - b) (omega arith) (omega arith),
            ap (λ x. x * (2 ^ 32 - b)) (restore a h),
            ap (λ x. suc (2 ^ 32 - a - 1) * x) (restore b k),
          ))
  ]
]

product_lt : (a b : ℕ) → a < 2 ^ 32 → b < 2 ^ 32 → a * b < 2 ^ 64
product_lt a b h k = grind arith

-- `MULHU` and `MUL` give the high and the low word of the unsigned product.
mulhu-mul : (a b : ℕ) → a < 2 ^ 32 → b < 2 ^ 32 → mulhu a b * 2 ^ 32 + mul a b ≡ a * b
unfolding mulhu
mulhu-mul a b h k = omega (arith, mul-low a b h k, product_lt a b h k)

wrap-mul :
    (x : ℤ) (b : ℕ)
    → abs x ≤ 2 ^ 31
    → b < 2 ^ 32
    → wrap 64 (pos (wrap 64 x * b)) ≡ wrap 64 (x *ℤ pos b)
unfolding ◌*ℤ◌
wrap-mul (pos a) b h k = ground (arith, mod-eq_of_lt {n = a} {m = 2 ^ 64} (omega arith))
wrap-mul (negsuc a) b h k = ground (
  arith,
  mod-eq_of_lt {n = a} {m = 2 ^ 64} (omega arith),
  complement_mul (2 ^ 64 - 1 - a) (suc a) b (2 ^ 64) (omega arith),
)

mixed_bound : (a b : ℕ) → a ≤ 2 ^ 31 → b < 2 ^ 32 → a * b < 2 ^ 63
mixed_bound a b h k = grind arith

mixed_low : (a b : ℕ) → a < 2 ^ 32 → wrap 64 (int32 a *ℤ pos b) % 2 ^ 32 ≡ a * b % 2 ^ 32
unfolding ◌*ℤ◌
mixed_low a b h = elim (Bool-cases (ltb a (2 ^ 31))) [
  | inl e ↦ rw e (ground arith)
  | inr e ↦ rw e (
      ground (
        arith,
        complement_mul a (2 ^ 32 - a) b (2 ^ 32) (omega arith),
        ap (λ x. x * b) (restore a h),
      ))
]

-- `MULHSU` and `MUL` give the high and the low word of the product of the signed first and the
-- unsigned second operand.
mulhsu-mul :
    (a b : ℕ)
    → a < 2 ^ 32
    → b < 2 ^ 32
    → int32 (mulhsu a b) *ℤ pos (2 ^ 32) +ℤ pos (mul a b) ≡ int32 a *ℤ pos b
unfolding mulhsu
mulhsu-mul a b h k =
    let bound : abs (int32 a *ℤ pos b) < 2 ^ 63 =
      rw (abs-mul (int32 a) (pos b))
        (omega (arith, mixed_bound (abs (int32 a)) b (int32_bound a h) k)) in
    rw (wrap-mul (int32 a) b (int32_bound a h) k, mul-low a b h k, ← mixed_low a b h)
      (halves (int32 a *ℤ pos b) bound)

-- For two words, `MULH`, `MULHU` and `MULHSU` give the high word of the product, signed, unsigned,
-- and of a signed first and an unsigned second operand, of which `MUL` gives the low word.
pub products :
    (a b : ℕ)
    → a < 2 ^ 32
    → b < 2 ^ 32
    → (int32 (mulh a b) *ℤ pos (2 ^ 32) +ℤ pos (mul a b) ≡ int32 a *ℤ int32 b)
      × (mulhu a b * 2 ^ 32 + mul a b ≡ a * b)
      × (int32 (mulhsu a b) *ℤ pos (2 ^ 32) +ℤ pos (mul a b) ≡ int32 a *ℤ pos b)
products a b h k = (mulh-mul a b h k, mulhu-mul a b h k, mulhsu-mul a b h k)
