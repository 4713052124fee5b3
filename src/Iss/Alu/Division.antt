-- ===== src/Iss/Alu/Division.antt =====
-- Division and remainder of `int32_t`.
use riscv_vp.Base.{
  ℕ, suc, ◌+◌, ◌*◌, ◌/◌, ◌%◌, ◌^◌, ◌<◌, ◌≤◌, ◌≡◌, ◌≢◌, ◌⊎◌, ◌-◌, ◌&&◌, false, refl, ◌==◌, arith,
}
use riscv_vp.Base.Int.{
  ℤ, pos, negsuc, ◌+ℤ◌, ◌*ℤ◌, quot, remainder, abs, pos_part, neg_part, int32, wrap,
}
use riscv_vp.Iss.Alu.{div, rem}

div_mod : (a b : ℕ) → b ≢ 0 → a ≡ b * (a / b) + a % b
div_mod a b h = grind arith

mod_below : (a b : ℕ) → b ≢ 0 → a % b < b
mod_below a b h = grind arith

div_le : (a b : ℕ) → a / b ≤ a
div_le a b = grind arith

mod_le : (a b : ℕ) → a % b ≤ a
mod_le a b = grind arith

half_le : (a b : ℕ) → 1 < b → a / b * 2 ≤ a
half_le a b h = grind arith

quot_rem : (x y : ℤ) → abs y ≢ 0 → y *ℤ quot x y +ℤ remainder x y ≡ x
unfolding ◌*ℤ◌ ◌+ℤ◌ quot remainder
quot_rem (pos a) (pos b) h = grind (arith, div_mod a b)
quot_rem (pos a) (negsuc b) h = grind (arith, div_mod a (suc b))
quot_rem (negsuc a) (pos b) h = grind (arith, div_mod (suc a) b)
quot_rem (negsuc a) (negsuc b) h = grind (arith, div_mod (suc a) (suc b))

int32-wrap : (z : ℤ) → pos_part z < 2 ^ 31 → neg_part z ≤ 2 ^ 31 → int32 (wrap 32 z) ≡ z
int32-wrap (pos n) h k = ground arith
int32-wrap (negsuc n) h k = ground arith

-- The remainder is smaller than the divisor and has the sign of the dividend.
remainder_bound :
    (x y : ℤ)
    → abs y ≢ 0
    → (abs (remainder x y) < abs y)
      × (pos_part (remainder x y) ≤ pos_part x)
      × (neg_part (remainder x y) ≤ neg_part x)
unfolding remainder
remainder_bound (pos a) y h = omega (arith, mod_below a (abs y) h, mod_le a (abs y))
remainder_bound (negsuc a) y h = ground (arith, mod_below (suc a) (abs y) h, mod_le (suc a) (abs y))

quot_bound :
    (x y : ℤ)
    → abs y ≢ 0
    → abs x ≤ 2 ^ 31
    → (pos_part x ≢ 2 ^ 31)
    → (neg_part x ≢ 2 ^ 31) ⊎ (neg_part y ≢ 1)
    → (pos_part (quot x y) < 2 ^ 31) × (neg_part (quot x y) ≤ 2 ^ 31)
unfolding quot
quot_bound (pos a) (pos b) h k n m = ground (arith, div_le a b)
quot_bound (pos a) (negsuc b) h k n m = ground (arith, div_le a (suc b))
quot_bound (negsuc a) (pos b) h k n m = ground (arith, div_le (suc a) b)
quot_bound (negsuc a) (negsuc b) h k n m =
    ground (arith, div_le (suc a) (suc b), half_le (suc a) (suc b))

-- Unless the divisor is 0 or the quotient overflows, `DIV` and `REM` give a quotient and a
-- remainder: the remainder is smaller than the divisor, and does not have the sign that the
-- dividend has not.
pub div-rem :
    (a b : ℕ)
    → a < 2 ^ 32
    → b < 2 ^ 32
    → b ≢ 0
    → (a ≢ 2 ^ 31) ⊎ (b ≢ 2 ^ 32 - 1)
    → (int32 b *ℤ int32 (div a b) +ℤ int32 (rem a b) ≡ int32 a)
      × (abs (int32 (rem a b)) < abs (int32 b))
      × (pos_part (int32 (rem a b)) ≤ pos_part (int32 a))
      × (neg_part (int32 (rem a b)) ≤ neg_part (int32 a))
unfolding div rem
div-rem a b h k n m =
    let nonzero : abs (int32 b) ≢ 0 = ground arith in
    let small : abs (int32 a) ≤ 2 ^ 31 = ground arith in
    let q = quot_bound (int32 a) (int32 b) nonzero small (ground arith) (ground arith) in
    let r = remainder_bound (int32 a) (int32 b) nonzero in
    let whole : ((a == 2 ^ 31) && (b == 2 ^ 32 - 1)) ≡ false = ground arith in
    let divides : (b == 0) ≡ false = ground arith in
    rw
      (
        divides,
        whole,
        int32-wrap (quot (int32 a) (int32 b)) q.0 q.1,
        int32-wrap (remainder (int32 a) (int32 b)) (ground arith) (ground arith),
      )
      (quot_rem (int32 a) (int32 b) nonzero, r.0, r.1, r.2)

-- Division by zero gives -1 and leaves the dividend; the overflow gives the dividend and leaves 0.
pub div-special :
    (a : ℕ)
    → (int32 (div a 0) ≡ negsuc 0)
      × (rem a 0 ≡ a)
      × (int32 (div (2 ^ 31) (2 ^ 32 - 1)) ≡ negsuc (2 ^ 31 - 1))
      × (rem (2 ^ 31) (2 ^ 32 - 1) ≡ 0)
unfolding div rem
div-special a = (refl, refl, refl, refl)
