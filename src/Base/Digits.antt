-- ===== src/Base/Digits.antt =====
-- The binary digits of `&`, of a complement and of a number that is not 0.
use riscv_vp.Base.{
  ℕ, zero, suc, ◌-◌, ◌*◌, ◌/◌, ◌%◌, ◌^◌, ◌≤◌, ◌<◌, ◌≡◌, ◌≢◌, ◌↔◌, inl, inr, refl, sym, ap, subst,
  ◌∙◌, ◌==◌, leb, Bool-cases, bit_and, bit_iff, and_assoc, and-zero, and-field, arith,
}
use native.Mathlib.Nat.{
  pow-succ', pow-suc, one-le-pow, pow-le-pow_right, div-div-eq-div-mul, div-eq_of_lt,
}

-- The digit of `n` at place `i` is 1.
abbrev pub Digit : ℕ → ℕ → Type 0
Digit n i = n / 2 ^ i % 2 ≡ 1

pub digit_up : (n i : ℕ) → n / 2 ^ suc i ≡ n / 2 / 2 ^ i
digit_up n i =
    subst (λ m. n / m ≡ n / 2 / 2 ^ i) (sym (pow-succ' 2 i)) (sym (div-div-eq-div-mul n 2 (2 ^ i)))

nonzero_place_fuel : (f n : ℕ) → n ≤ f → n ≢ 0 → (i : ℕ) × Digit n i
nonzero_place_fuel f zero h z = absurd (z refl)
nonzero_place_fuel zero (suc n) h z = absurd (omega arith)
nonzero_place_fuel (suc f) (suc n) h z = elim (Bool-cases (suc n % 2 == 1)) [
  | inl c ↦ (0, ground arith)
  | inr c ↦
      let d = nonzero_place_fuel f (suc n / 2) (omega arith) (λ e. ground arith) in
      (suc d.0, subst (λ x. x % 2 ≡ 1) (sym (digit_up (suc n) d.0)) d.1)
]

-- A number other than 0 has a digit.
pub nonzero_place : (n : ℕ) → n ≢ 0 → (i : ℕ) × Digit n i
nonzero_place n z = nonzero_place_fuel n n (omega arith) z

pub zero-Digit : (i : ℕ) → ¬ Digit 0 i
zero-Digit i d = omega (arith, one-le-pow i 2)

pub Digit-and : (a b i : ℕ) → Digit (bit_and a b) i ↔ (Digit a i × Digit b i)
Digit-and a b i =
    let o : (2 ^ 1 - 1) * 2 ^ i ≡ 2 ^ i = omega arith in
    let f : bit_and b (2 ^ i) ≡ b / 2 ^ i % 2 * 2 ^ i =
      subst (λ m. bit_and b m ≡ b / 2 ^ i % 2 ^ 1 * 2 ^ i) o (and-field i 1 b) in
    let w = bit_iff (bit_and a b) i in
    let u = bit_iff a i in
    let e = and_assoc a b (2 ^ i) in
    elim (Bool-cases (b / 2 ^ i % 2 == 1)) [
      | inl c ↦
          let g : bit_and b (2 ^ i) ≡ 2 ^ i =
            let q : b / 2 ^ i % 2 ≡ 1 = ground arith in
            f ∙ ap (λ (x : ℕ). x * 2 ^ i) q ∙ omega arith in
          let k : bit_and (bit_and a b) (2 ^ i) ≡ bit_and a (2 ^ i) = e ∙ ap (bit_and a) g in
          (
            λ d. let t = w.1 d in (u.0 (ground arith), ground arith),
            λ d. let t = u.1 d.0 in w.0 (ground arith),
          )
      | inr c ↦
          let g : bit_and b (2 ^ i) ≡ 0 =
            let q : b / 2 ^ i % 2 ≡ 0 = ground arith in
            f ∙ ap (λ (x : ℕ). x * 2 ^ i) q ∙ omega arith in
          let k : bit_and (bit_and a b) (2 ^ i) ≡ 0 = e ∙ ap (bit_and a) g ∙ and-zero a in
          (λ d. let t = w.1 d in absurd (ground arith), λ d. absurd (ground (arith, d.1)))
    ]

Digit-complement_at :
    (i n b : ℕ) → i < n → b < 2 ^ n → (2 ^ n - 1 - b) / 2 ^ i % 2 ≡ 1 - b / 2 ^ i % 2
Digit-complement_at i zero b h l = absurd (omega arith)
Digit-complement_at zero (suc n) b h l = omega (arith, pow-suc 2 n)
Digit-complement_at (suc i) (suc n) b h l =
    let half : (2 ^ suc n - 1 - b) / 2 ≡ 2 ^ n - 1 - b / 2 = omega (arith, pow-suc 2 n) in
    rw (digit_up (2 ^ suc n - 1 - b) i, digit_up b i, half)
      (Digit-complement_at i n (b / 2) (omega arith) (omega (arith, pow-suc 2 n)))

-- The complement of a 32-bit word has the digits that the word has not.
pub Digit-complement :
    (i b : ℕ) → i < 32 → b < 2 ^ 32 → Digit (2 ^ 32 - 1 - b) i ↔ (b / 2 ^ i % 2 ≡ 0)
Digit-complement i b h l =
    let e = Digit-complement_at i 32 b h l in (λ d. omega arith, λ d. omega arith)

-- A digit of a 32-bit word is at a place below 32.
pub Digit-below : (n i : ℕ) → n < 2 ^ 32 → Digit n i → i < 32
Digit-below n i l d = elim (Bool-cases (leb 32 i)) [
  | inr c ↦ ground arith
  | inl c ↦
      let p : 2 ^ 32 ≤ 2 ^ i =
        pow-le-pow_right {n = 2} (omega arith) {i = 32} {j = i} (ground arith) in
      let z : n / 2 ^ i ≡ 0 = div-eq_of_lt (omega arith) in absurd (omega arith)
]
