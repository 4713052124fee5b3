-- ===== src/Mem/Dmi/Bytes.antt =====
-- Bytes of the host's memory read back as they were written.
use riscv_vp.Base.{
  ℕ, zero, suc, ◌+◌, ◌/◌, ◌%◌, ◌^◌, ◌<◌, ◌≤◌, ◌≡◌, ◌⊎◌, refl, ◌∙◌, true, false, ◌==◌, if◌then◌else◌,
  arith,
}
use native.Mathlib.Nat.{pow-suc}
use riscv_vp.Mem.Dmi.{read_bytes, write_bytes}

-- What is written above a byte does not reach it, nor what is written below.
pub write_bytes-apart :
    (n a v x : ℕ) (ram : ℕ → ℕ) → (x < a) ⊎ (a + n ≤ x) → write_bytes n a v ram x ≡ ram x
unfolding write_bytes
write_bytes-apart zero a v x ram h = refl
write_bytes-apart (suc n) a v x ram h =
    let e : (x == a) ≡ false = ground arith in
    write_bytes-apart n (a + 1) (v / 256) x _ (ground arith) ∙ rw e refl

-- Integers that fit read back as they were written.
pub read-write_bytes :
    (n a v : ℕ) (ram : ℕ → ℕ) → v < 256 ^ n → read_bytes n a (write_bytes n a v ram) ≡ v
unfolding read_bytes write_bytes
read-write_bytes zero a v ram h = omega arith
read-write_bytes (suc n) a v ram h =
    let stored : ℕ → ℕ = λ x. if x == a then v % 256 else ram x in
    let low = write_bytes-apart n (a + 1) (v / 256) a stored (ground arith) in
    let e : (a == a) ≡ true = ground arith in
    let k : v / 256 < 256 ^ n = omega (arith, pow-suc 256 n) in
    rw (low, e, read-write_bytes n (a + 1) (v / 256) stored k) (omega arith)
