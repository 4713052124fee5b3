-- ===== src/Base/Bits.antt =====
-- Laws of `&` and `|` at variables. The tactics take a call of either for an unknown.
use Prim.Native.Nat.{
  ℕ, zero, suc, ◌+◌, ◌-◌, ◌*◌, ◌/◌, ◌%◌, ◌^◌, ◌≤◌, ◌<◌, min, max, bit_and, bit_or, digits, bitwise,
  bit_and-bitwise, bit_or-bitwise,
}
use mathlib.Core.Path.{◌≡◌, refl, ap, sym, subst, ◌∙◌}
use mathlib.Core.Logic.{◌↔◌, ◌⊎◌, inl, inr}
use mathlib.Core.Bool.{true, not}
use riscv_vp.Base.Tests.{◌==◌}
use native.Mathlib.Nat.{le_refl, pow-suc, one-le-pow}
use native.Mathlib.Omega.{arith}

-- The digit recursion behind both operations does not depend on its fuel.
module _ (z : ℕ → ℕ) (f : ℕ → ℕ → ℕ) where
  digits_enough : (m n a b : ℕ) → a ≤ m → a ≤ n → digits z f m a b ≡ digits z f n a b
  digits_enough zero zero a b p q = refl
  digits_enough zero (suc n) zero b p q = refl
  digits_enough zero (suc n) (suc a) b p q = absurd (omega arith)
  digits_enough (suc m) zero zero b p q = refl
  digits_enough (suc m) zero (suc a) b p q = absurd (omega arith)
  digits_enough (suc m) (suc n) zero b p q = refl
  digits_enough (suc m) (suc n) (suc a) b p q =
      rw (digits_enough m n (suc a / 2) (b / 2) (omega arith) (omega arith))

  bitwise_digit :
      (a b : ℕ)
      → bitwise z f (suc a) b ≡ bitwise z f (suc a / 2) (b / 2) * 2 + f (suc a % 2) (b % 2)
  bitwise_digit a b =
      omega (arith, digits_enough a (suc a / 2) (suc a / 2) (b / 2) (omega arith) (le_refl _))

pub and_digit : (a b : ℕ) → bit_and a b ≡ bit_and (a / 2) (b / 2) * 2 + min (a % 2) (b % 2)
and_digit zero b = simp bit_and-bitwise (omega arith)
and_digit (suc a) b = simp bit_and-bitwise (bitwise_digit (λ y. 0) min a b)

pub or_digit : (a b : ℕ) → bit_or a b ≡ bit_or (a / 2) (b / 2) * 2 + max (a % 2) (b % 2)
or_digit zero b = simp bit_or-bitwise (omega arith)
or_digit (suc a) b = simp bit_or-bitwise (bitwise_digit (λ y. y) max a b)

and-half : (a b : ℕ) → bit_and a b / 2 ≡ bit_and (a / 2) (b / 2)
and-half a b = omega (arith, and_digit a b)

and-parity : (a b : ℕ) → bit_and a b % 2 ≡ min (a % 2) (b % 2)
and-parity a b = omega (arith, and_digit a b)

or-half : (a b : ℕ) → bit_or a b / 2 ≡ bit_or (a / 2) (b / 2)
or-half a b = omega (arith, or_digit a b)

or-parity : (a b : ℕ) → bit_or a b % 2 ≡ max (a % 2) (b % 2)
or-parity a b = omega (arith, or_digit a b)

-- Two numbers with one half and one parity are one.
by_digit : (a b : ℕ) → a / 2 ≡ b / 2 → a % 2 ≡ b % 2 → a ≡ b
by_digit a b h p = omega arith

pub zero-and : (b : ℕ) → bit_and 0 b ≡ 0
zero-and b = simp bit_and-bitwise

pub zero-or : (b : ℕ) → bit_or 0 b ≡ b
zero-or b = simp bit_or-bitwise

and_comm_fuel : (n a b : ℕ) → a ≤ n → b ≤ n → bit_and a b ≡ bit_and b a
and_comm_fuel zero zero zero h k = refl
and_comm_fuel zero zero (suc b) h k = absurd (omega arith)
and_comm_fuel zero (suc a) b h k = absurd (omega arith)
and_comm_fuel (suc n) a b h k = omega (
  arith,
  and_digit a b,
  and_digit b a,
  and_comm_fuel n (a / 2) (b / 2) (omega arith) (omega arith),
)

pub and_comm : (a b : ℕ) → bit_and a b ≡ bit_and b a
and_comm a b = and_comm_fuel (a + b) a b (omega arith) (omega arith)

pub and-zero : (a : ℕ) → bit_and a 0 ≡ 0
and-zero a = and_comm a 0 ∙ zero-and a

or_comm_fuel : (n a b : ℕ) → a ≤ n → b ≤ n → bit_or a b ≡ bit_or b a
or_comm_fuel zero zero zero h k = refl
or_comm_fuel zero zero (suc b) h k = absurd (omega arith)
or_comm_fuel zero (suc a) b h k = absurd (omega arith)
or_comm_fuel (suc n) a b h k =
    omega (
      arith,
      or_digit a b,
      or_digit b a,
      or_comm_fuel n (a / 2) (b / 2) (omega arith) (omega arith),
    )

pub or_comm : (a b : ℕ) → bit_or a b ≡ bit_or b a
or_comm a b = or_comm_fuel (a + b) a b (omega arith) (omega arith)

pub or-zero : (a : ℕ) → bit_or a 0 ≡ a
or-zero a = or_comm a 0 ∙ zero-or a

and_assoc_fuel : (n a b c : ℕ) → a ≤ n → bit_and (bit_and a b) c ≡ bit_and a (bit_and b c)
and_assoc_fuel zero zero b c h = rw (zero-and b, zero-and c, zero-and (bit_and b c))
and_assoc_fuel zero (suc a) b c h = absurd (omega arith)
and_assoc_fuel (suc n) zero b c h = rw (zero-and b, zero-and c, zero-and (bit_and b c))
and_assoc_fuel (suc n) (suc a) b c h =
    by_digit _ _
      (rw
        (
          and-half (bit_and (suc a) b) c,
          and-half (suc a) b,
          and-half (suc a) (bit_and b c),
          and-half b c,
        )
        (and_assoc_fuel n (suc a / 2) (b / 2) (c / 2) (omega arith)))
      (omega (
        arith,
        and-parity (bit_and (suc a) b) c,
        and-parity (suc a) b,
        and-parity (suc a) (bit_and b c),
        and-parity b c,
      ))

pub and_assoc : (a b c : ℕ) → bit_and (bit_and a b) c ≡ bit_and a (bit_and b c)
and_assoc a b c = and_assoc_fuel a a b c (omega arith)

or-and_fuel :
    (n a b c : ℕ) → a ≤ n → b ≤ n → bit_and (bit_or a b) c ≡ bit_or (bit_and a c) (bit_and b c)
or-and_fuel zero zero zero c h k = rw (zero-and c)
or-and_fuel zero zero (suc b) c h k = absurd (omega arith)
or-and_fuel zero (suc a) b c h k = absurd (omega arith)
or-and_fuel (suc n) a b c h k =
    by_digit _ _
      (rw
        (
          and-half (bit_or a b) c,
          or-half a b,
          or-half (bit_and a c) (bit_and b c),
          and-half a c,
          and-half b c,
        )
        (or-and_fuel n (a / 2) (b / 2) (c / 2) (omega arith) (omega arith)))
      (omega (
        arith,
        and-parity (bit_or a b) c,
        or-parity a b,
        or-parity (bit_and a c) (bit_and b c),
        and-parity a c,
        and-parity b c,
      ))

-- A mask goes into both sides of `|`.
pub or-and : (a b c : ℕ) → bit_and (bit_or a b) c ≡ bit_or (bit_and a c) (bit_and b c)
or-and a b c = or-and_fuel (a + b) a b c (omega arith) (omega arith)

double_pow : (q k : ℕ) → q * 2 ^ suc k ≡ 2 * (q * 2 ^ k)
double_pow q k = omega (arith, ap (λ (t : ℕ). q * t) (pow-suc 2 k))

-- Masking commutes with a shift to the left, whatever stands below the mask.
pub and-shifted :
    (k q r b : ℕ) → r < 2 ^ k → bit_and (q * 2 ^ k + r) (b * 2 ^ k) ≡ bit_and q b * 2 ^ k
and-shifted zero q r b h =
    let e : q * 2 ^ 0 + r ≡ q = omega arith in
    let e' : b * 2 ^ 0 ≡ b = omega arith in rw (e, e') (omega arith)
and-shifted (suc k) q r b h =
    by_digit _ _
      (rw (and-half (q * 2 ^ suc k + r) (b * 2 ^ suc k), half_left, half_right)
        (and-shifted k q (r / 2) b (omega (arith, pow-suc 2 k))
          ∙ omega (arith, double_pow (bit_and q b) k)))
      (omega (
        arith,
        and-parity (q * 2 ^ suc k + r) (b * 2 ^ suc k),
        double_pow b k,
        double_pow (bit_and q b) k,
      ))
  where
    half_left : (q * 2 ^ suc k + r) / 2 ≡ q * 2 ^ k + r / 2
    half_left = omega (arith, double_pow q k)

    half_right : b * 2 ^ suc k / 2 ≡ b * 2 ^ k
    half_right = omega (arith, double_pow b k)

pub and-shift : (k a b : ℕ) → bit_and (a * 2 ^ k) (b * 2 ^ k) ≡ bit_and a b * 2 ^ k
and-shift k a b =
    let e : a * 2 ^ k + 0 ≡ a * 2 ^ k = omega arith in
    rw (← e) (and-shifted k a 0 b (omega (arith, one-le-pow k 2)))

ones_digit : (w : ℕ) → 2 ^ suc w - 1 ≡ 2 * (2 ^ w - 1) + 1
ones_digit w = omega (arith, pow-suc 2 w, one-le-pow w 2)

and-ones_below : (w q r : ℕ) → r < 2 ^ w → bit_and (q * 2 ^ w + r) (2 ^ w - 1) ≡ r
and-ones_below zero q r h = rw (and-zero (q * 2 ^ 0 + r)) (omega arith)
and-ones_below (suc w) q r h =
    by_digit _ _
      (rw (and-half (q * 2 ^ suc w + r) (2 ^ suc w - 1), half_left, half_right)
        (and-ones_below w q (r / 2) (omega (arith, pow-suc 2 w))))
      (omega (arith, and-parity (q * 2 ^ suc w + r) (2 ^ suc w - 1), double_pow q w, ones_digit w))
  where
    half_left : (q * 2 ^ suc w + r) / 2 ≡ q * 2 ^ w + r / 2
    half_left = omega (arith, double_pow q w)

    half_right : (2 ^ suc w - 1) / 2 ≡ 2 ^ w - 1
    half_right = omega (arith, ones_digit w)

-- A mask of `w` ones is the remainder by `2 ^ w`.
pub and-ones : (w a : ℕ) → bit_and a (2 ^ w - 1) ≡ a % 2 ^ w
and-ones w a = ground (arith, one-le-pow w 2, and-ones_below w (a / 2 ^ w) (a % 2 ^ w))

-- A mask of `w` ones at `k` keeps the field that stands there.
pub and-field : (k w a : ℕ) → bit_and a ((2 ^ w - 1) * 2 ^ k) ≡ a / 2 ^ k % 2 ^ w * 2 ^ k
and-field k w a =
    let e : a / 2 ^ k * 2 ^ k + a % 2 ^ k ≡ a = ground (arith, one-le-pow k 2) in
    rw (
      ← and-ones w (a / 2 ^ k),
      ← and-shifted k (a / 2 ^ k) (a % 2 ^ k) (2 ^ w - 1) (ground (arith, one-le-pow k 2)),
      e,
    )

-- `|` of two numbers with no common place is their sum.
pub or-disjoint : (k q r : ℕ) → r < 2 ^ k → bit_or (q * 2 ^ k) r ≡ q * 2 ^ k + r
or-disjoint zero q r h = let e : r ≡ 0 = omega arith in rw (e, or-zero (q * 2 ^ 0)) (omega arith)
or-disjoint (suc k) q r h =
    by_digit _ _
      (rw (or-half (q * 2 ^ suc k) r, half_left, half_right)
        (or-disjoint k q (r / 2) (omega (arith, pow-suc 2 k))))
      (omega (arith, or-parity (q * 2 ^ suc k) r, double_pow q k))
  where
    half_left : q * 2 ^ suc k / 2 ≡ q * 2 ^ k
    half_left = omega (arith, double_pow q k)

    half_right : (q * 2 ^ suc k + r) / 2 ≡ q * 2 ^ k + r / 2
    half_right = omega (arith, double_pow q k)

-- What a wide mask shows of a number, a narrower mask shows too.
pub masked_field : (i m e f : ℕ) → bit_and i m ≡ e → bit_and m f ≡ f → bit_and i f ≡ bit_and e f
masked_field i m e f h g = ap (bit_and i) (sym g) ∙ sym (and_assoc i m f) ∙ ap (λ x. bit_and x f) h

-- A mask apart from a field does not see it.
pub and_apart : (a f m : ℕ) → bit_and f m ≡ 0 → bit_and (bit_and a f) m ≡ 0
and_apart a f m h = and_assoc a f m ∙ ap (bit_and a) h ∙ and-zero a

-- A field lies below a mask that covers it.
pub and_within : (a f m : ℕ) → bit_and f m ≡ f → bit_and (bit_and a f) m ≡ bit_and a f
and_within a f m h = and_assoc a f m ∙ ap (bit_and a) h

parity : (a : ℕ) → (a % 2 ≡ 0) ⊎ (a % 2 ≡ 1)
parity a = ground arith

-- The test of a bit is its digit.
pub bit_iff : (w i : ℕ) → (not (bit_and w (2 ^ i) == 0) ≡ true) ↔ (w / 2 ^ i % 2 ≡ 1)
bit_iff w i =
    let e : bit_and w ((2 ^ 1 - 1) * 2 ^ i) ≡ w / 2 ^ i % 2 ^ 1 * 2 ^ i = and-field i 1 w in
    let o : (2 ^ 1 - 1) * 2 ^ i ≡ 2 ^ i = omega arith in
    let f : bit_and w (2 ^ i) ≡ w / 2 ^ i % 2 * 2 ^ i =
      subst (λ m. bit_and w m ≡ w / 2 ^ i % 2 ^ 1 * 2 ^ i) o e in
    elim (parity (w / 2 ^ i)) [
      | inl z ↦ ground (arith, f, z, ap (λ (x : ℕ). x * 2 ^ i) z)
      | inr z ↦ ground (arith, f, z, ap (λ (x : ℕ). x * 2 ^ i) z, one-le-pow i 2)
    ]
