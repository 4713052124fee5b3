-- ===== src/Iss/Step/Aligned/System.antt =====
-- System instructions and CSR accesses keep the program counter aligned.
use riscv_vp.Base.{ℕ, inl, inr, Bool, Option, none, some, Bool-cases, ◌==◌}
use riscv_vp.Instr.Mapping.{Mapping}
use riscv_vp.Iss.State.{Iss, machine_mode, supervisor_mode, user_mode}
use riscv_vp.Iss.Trap.{release_lr_sc_reservation, return_from_trap_handler}
use riscv_vp.Iss.Hart.{Hart, Environment}
use riscv_vp.Iss.Exec.{Exec, Machine, modify, gets, or_fail, ◌>>=◌}
use riscv_vp.Iss.Exec.Keeps.{Ends, Keeps, Keeps-bind, Keeps-if}
use riscv_vp.Iss.Step.Aligned.Csr.{is_invalid-Keeps, get_csr_value-Keeps, set_csr_value-Keeps}
use riscv_vp.Iss.Step.System.{
  ecall_trap, raise_ecall, emulate, call_environment, environment_call, system_call, csr_write,
  csr_modify, csr_write_register, csr_modify_register, guarded, csr_instruction,
}
use riscv_vp.Iss.Step.Privileged.{
  return_from, wait_for_interrupt, fence_translation, user_return, supervisor_return, privileged,
}
use riscv_vp.Iss.Step.Aligned.{aligned, IsReady, aligned_rules}
use riscv_vp.Iss.Step.Aligned.Groups.{register_rules, illegal-Keeps}
use riscv_vp.Instr.Fields.{csr}

module _ {M : Type 0} where
  ecall_trap-Keeps : (prv last_pc : ℕ) → Keeps {M = M} aligned (ecall_trap prv last_pc)
  unfolding ecall_trap
  ecall_trap-Keeps prv last_pc = search aligned_rules

  raise_ecall-Keeps : Keeps {M = M} aligned raise_ecall
  unfolding raise_ecall
  raise_ecall-Keeps = search (aligned_rules, ecall_trap-Keeps)

  emulate-Keeps : (call : (ℕ → ℕ) → M → ((ℕ → ℕ) × Bool) × M) → Keeps {M = M} aligned (emulate call)
  unfolding emulate
  emulate-Keeps call = search aligned_rules

  call_environment-Keeps :
      (call : Option ((ℕ → ℕ) → M → ((ℕ → ℕ) × Bool) × M))
      → Keeps {M = M} aligned (call_environment call)
  unfolding call_environment
  call_environment-Keeps none = raise_ecall-Keeps
  call_environment-Keeps (some call) = emulate-Keeps call

-- A state that some method of `ISS` computes without an action.
abbrev pub Returned : Hart → Option Iss → Type 0
Returned h none = Unit
Returned h (some t) = IsReady (record h { iss = t })

module _ {M : Type 0} where
  pub or_fail-Ends :
      (o : Option Iss) (s : Machine M)
      → Returned s.hart o
      → Ends aligned ((or_fail o >>= λ iss. modify (λ h. record h { iss = iss })) s)
  unfolding or_fail ◌>>=◌ modify
  or_fail-Ends none s r = tt
  or_fail-Ends (some t) s r = r

return-Returned :
    (mode : ℕ) (h : Hart) → IsReady h → Returned h (return_from_trap_handler mode h.iss)
unfolding return_from_trap_handler
return-Returned mode h r = elim (Bool-cases (mode == machine_mode)) [
  | inl m ↦ rw m (r.1.1, r.1)
  | inr m ↦ elim (Bool-cases (mode == supervisor_mode)) [
    | inl v ↦ rw (m, v) (r.1.2, r.1)
    | inr v ↦ elim (Bool-cases (mode == user_mode)) [
      | inl u ↦ rw (m, v, u) (r.1.3, r.1)
      | inr u ↦ rw (m, v, u) tt
    ]
  ]
]

module _ {M : Type 0} where
  return_from-Keeps : (mode : ℕ) → Keeps {M = M} aligned (return_from mode)
  unfolding return_from ◌>>=◌ gets
  return_from-Keeps mode = record {
    at = λ s h.
        or_fail-Ends (return_from_trap_handler mode s.hart.iss) s (return-Returned mode s.hart h);
  }

  user_return-Keeps : Keeps {M = M} aligned user_return
  unfolding user_return
  user_return-Keeps = search (register_rules, return_from-Keeps) depth 20

  supervisor_return-Keeps : Keeps {M = M} aligned supervisor_return
  unfolding supervisor_return
  supervisor_return-Keeps = search (register_rules, return_from-Keeps) depth 20

module _ {M : Type 0} (env : Environment M) where
  environment_call-Keeps : Keeps aligned (environment_call env)
  unfolding environment_call
  environment_call-Keeps = call_environment-Keeps env.execute_syscall

  csr_write-Keeps : (v i : ℕ) → Keeps aligned (csr_write env v i)
  unfolding csr_write
  csr_write-Keeps v i = search (register_rules, get_csr_value-Keeps, set_csr_value-Keeps) depth 20

  csr_modify-Keeps : (f : ℕ → ℕ) (w : Bool) (i : ℕ) → Keeps aligned (csr_modify env f w i)
  unfolding csr_modify
  csr_modify-Keeps f w i =
      search (register_rules, get_csr_value-Keeps, set_csr_value-Keeps) depth 20

  csr_write_register-Keeps : (i : ℕ) → Keeps aligned (csr_write_register env i)
  unfolding csr_write_register
  csr_write_register-Keeps i = search (register_rules, csr_write-Keeps) depth 20

  csr_modify_register-Keeps : (f : ℕ → ℕ → ℕ) (i : ℕ) → Keeps aligned (csr_modify_register env f i)
  unfolding csr_modify_register
  csr_modify_register-Keeps f i = search (register_rules, csr_modify-Keeps) depth 20

  guarded-Keeps :
      (w : Bool) (i : ℕ) (body : Exec M (Unit {0}))
      → Keeps aligned body
      → Keeps aligned (guarded env w i body)
  unfolding guarded
  guarded-Keeps w i body k =
      Keeps-bind _ _ (is_invalid-Keeps (csr i) w)
        (λ invalid. Keeps-if invalid _ _ (λ _. illegal-Keeps) (λ _. k))

  pub csr_instruction-Keeps :
      (op : Mapping) (i : ℕ) (rest : Exec M (Unit {0}))
      → Keeps aligned rest
      → Keeps aligned (csr_instruction env op i rest)
  unfolding csr_instruction
  csr_instruction-Keeps Mapping.csrrw i rest k = guarded-Keeps _ i _ (csr_write_register-Keeps i)
  csr_instruction-Keeps Mapping.csrrs i rest k = guarded-Keeps _ i _ (csr_modify_register-Keeps _ i)
  csr_instruction-Keeps Mapping.csrrc i rest k = guarded-Keeps _ i _ (csr_modify_register-Keeps _ i)
  csr_instruction-Keeps Mapping.csrrwi i rest k = guarded-Keeps _ i _ (csr_write-Keeps _ i)
  csr_instruction-Keeps Mapping.csrrsi i rest k = guarded-Keeps _ i _ (csr_modify-Keeps _ _ i)
  csr_instruction-Keeps Mapping.csrrci i rest k = guarded-Keeps _ i _ (csr_modify-Keeps _ _ i)
  csr_instruction-Keeps _ i rest k = k

  wait-Keeps : Keeps aligned (wait_for_interrupt env)
  unfolding wait_for_interrupt release_lr_sc_reservation
  wait-Keeps = search register_rules depth 30

  fence_translation-Keeps : Keeps aligned (fence_translation env)
  unfolding fence_translation
  fence_translation-Keeps = search register_rules depth 20

  pub privileged-Keeps :
      (op : Mapping) (i : ℕ) (rest : Exec M (Unit {0}))
      → Keeps aligned rest
      → Keeps aligned (privileged env op i rest)
  unfolding privileged
  privileged-Keeps Mapping.mret i rest k = search (return_from-Keeps)
  privileged-Keeps _ i rest k = search (
    register_rules, return_from-Keeps, wait-Keeps, fence_translation-Keeps, user_return-Keeps,
    supervisor_return-Keeps, k,
  )

  pub system_call-Keeps :
      (op : Mapping) (i : ℕ) (rest : Exec M (Unit {0}))
      → Keeps aligned rest
      → Keeps aligned (system_call env op i rest)
  unfolding system_call
  system_call-Keeps Mapping.ecall i rest k = environment_call-Keeps
  system_call-Keeps _ i rest k = k
