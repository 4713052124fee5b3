-- ===== src/Iss/Step/Rights.antt =====
-- Accesses to CSRs of a higher privilege (`is_invalid_csr_access` and the CSR instructions of
-- vp/src/core/rv32/iss.cpp).
use riscv_vp.Base.{
  ℕ, ◌<◌, ◌/◌, ◌%◌, ◌^◌, ◌≡◌, refl, Bool, false, true, ◌&&◌, ◌||◌, not, ltb, ◌==◌, bit_and,
  and_comm, and-field, arith,
}
use riscv_vp.Instr.Mapping.{Mapping, csrrw, csrrs, csrrc, csrrwi, csrrsi, csrrci}
use riscv_vp.Instr.Fields.{csr}
use riscv_vp.Iss.State.{has_extension, isa_s, isa_u, supervisor_mode, user_mode}
use riscv_vp.Iss.Hart.{Hart, Environment, trap}
use riscv_vp.Iss.Exec.{Exec, Machine, ◌>>=◌}
use riscv_vp.Iss.Csr.Read.{illegal_instruction, is_float_csr, is_invalid_csr_access, lacks_access}
use riscv_vp.Iss.Step.System.{guarded, csr_instruction}

-- The six instructions that access a CSR.
abbrev pub IsCsrInstruction : Mapping → Type 0
IsCsrInstruction csrrw = Unit
IsCsrInstruction csrrs = Unit
IsCsrInstruction csrrc = Unit
IsCsrInstruction csrrwi = Unit
IsCsrInstruction csrrsi = Unit
IsCsrInstruction csrrci = Unit
IsCsrInstruction _ = ⊥

-- The lowest mode that may access a CSR, in bits 8 and 9 of its address.
abbrev pub lowest_mode : ℕ → ℕ
lowest_mode addr = addr / 2 ^ 8 % 4

lowest-mode : (addr : ℕ) → bit_and 0x300 addr / 2 ^ 8 ≡ lowest_mode addr
lowest-mode addr = omega (arith, and_comm 0x300 addr, and-field 8 2 addr)

float_csr-low : (addr p : ℕ) → p < lowest_mode addr → is_float_csr addr ≡ false
float_csr-low addr p h = ground arith

true_or : (a b : Bool) → a || (true || b) ≡ true
true_or true b = refl
true_or false b = refl

lacks_access-low :
    (addr : ℕ) (write : Bool) (h : Hart)
    → h.iss.prv < lowest_mode addr
    → lacks_access addr write h ≡ true
unfolding lacks_access
lacks_access-low addr write h k =
    let lt : ltb h.iss.prv (bit_and 0x300 addr / 2 ^ 8) ≡ true =
      rw (lowest-mode addr) (ground arith) in
    rw lt (
      true_or (write && (bit_and 0xc00 addr / 2 ^ 10 == 3)) (
        (bit_and 768 addr / 2 ^ 8 == supervisor_mode) && not (has_extension h.iss.misa isa_s)
        || (bit_and 768 addr / 2 ^ 8 == user_mode) && not (has_extension h.iss.misa isa_u)))

guarded-denied :
    {M : Type 0} (env : Environment M) (write : Bool) (i : ℕ) (body : Exec M (Unit {0}))
    (s : Machine M)
    → s.hart.iss.prv < lowest_mode (csr i)
    → guarded env write i body s ≡ (trap (record { reason = 2; mtval = s.hart.instr }), s)
unfolding guarded is_invalid_csr_access illegal_instruction ◌>>=◌
guarded-denied env write i body s k =
    rw (float_csr-low (csr i) s.hart.iss.prv k, lacks_access-low (csr i) write s.hart k) refl

module _ {M : Type 0} (env : Environment M) where
  -- A CSR instruction on a CSR whose lowest mode is above the mode of the hart raises the exception
  -- for an illegal instruction, and changes neither the hart nor the memory: not the CSR, not the
  -- destination register.
  pub csr_instruction-denied :
      (op : Mapping) (i : ℕ) (rest : Exec M (Unit {0})) (s : Machine M)
      → IsCsrInstruction op
      → s.hart.iss.prv < lowest_mode (csr i)
      → csr_instruction env op i rest s ≡ (trap (record { reason = 2; mtval = s.hart.instr }), s)
  unfolding csr_instruction
  csr_instruction-denied csrrw i rest s c k = guarded-denied env _ i _ s k
  csr_instruction-denied csrrs i rest s c k = guarded-denied env _ i _ s k
  csr_instruction-denied csrrc i rest s c k = guarded-denied env _ i _ s k
  csr_instruction-denied csrrwi i rest s c k = guarded-denied env _ i _ s k
  csr_instruction-denied csrrsi i rest s c k = guarded-denied env _ i _ s k
  csr_instruction-denied csrrci i rest s c k = guarded-denied env _ i _ s k
  csr_instruction-denied _ i rest s c k = absurd c
