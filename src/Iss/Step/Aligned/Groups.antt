-- ===== src/Iss/Step/Aligned/Groups.antt =====
-- Every group of instructions on integers keeps the program counter aligned.
use riscv_vp.Base.{ℕ, ◌≡◌, inl, inr, Bool, true, ◌%◌, if◌then◌else◌, Bool-cases, ◌==◌, arith}
use riscv_vp.Instr.Mapping.{Mapping}
use riscv_vp.Iss.State.{has_extension, isa_c}
use riscv_vp.Iss.Hart.{Environment, Load, Store}
use riscv_vp.Iss.Exec.{Exec, Machine, pure, raise, fail, gets, modify, ◌>>=◌}
use riscv_vp.Iss.Exec.Keeps.{Keeps, Ends}
use riscv_vp.Iss.Csr.Read.{illegal_instruction, require_isa}
use riscv_vp.Iss.Step.Registers.{read_reg, write_rd, check_alignment, check_pc_alignment}
use riscv_vp.Iss.Step.Integer.{unary, binary, add_upper_to_pc, integer}
use riscv_vp.Iss.Step.Control.{jump, branch, jump_and_link, jump_register, control}
use riscv_vp.Iss.Step.Memory.{load, store, memory}
use riscv_vp.Iss.Step.Multiplication.{multiply_or_divide, multiplication}
use riscv_vp.Iss.Step.Atomic.{execute_amo, load_reserved, store_conditional, atomic}
use riscv_vp.Iss.Step.Aligned.{aligned, IsReady, aligned_rules}

module _ {M : Type 0} where
  pub read_reg-Keeps : (k : ℕ) → Keeps {M = M} aligned (read_reg k)
  unfolding read_reg
  read_reg-Keeps k = search aligned_rules

  pub write_rd-Keeps : (i v : ℕ) → Keeps {M = M} aligned (write_rd i v)
  unfolding write_rd
  write_rd-Keeps i v = search aligned_rules

  pub check_alignment-Keeps : (a e x : ℕ) → Keeps {M = M} aligned (check_alignment a e x)
  unfolding check_alignment
  check_alignment-Keeps a e x = search aligned_rules

  pub illegal-Keeps : {A : Type 0} → Keeps {M = M} {A = A} aligned illegal_instruction
  unfolding illegal_instruction
  illegal-Keeps = search aligned_rules

  pub require_isa-Keeps : (place : ℕ) → Keeps {M = M} aligned (require_isa place)
  unfolding require_isa
  require_isa-Keeps place = search (aligned_rules, illegal-Keeps)

pub ruleset register_rules = (
  aligned_rules, read_reg-Keeps, write_rd-Keeps, check_alignment-Keeps, illegal-Keeps,
  require_isa-Keeps,
)

module _ {M : Type 0} where
  unary-Keeps : (f : ℕ → ℕ) (i : ℕ) → Keeps {M = M} aligned (unary f i)
  unfolding unary
  unary-Keeps f i = search register_rules

  binary-Keeps : (f : ℕ → ℕ → ℕ) (i : ℕ) → Keeps {M = M} aligned (binary f i)
  unfolding binary
  binary-Keeps f i = search register_rules

  multiply-Keeps : (f : ℕ → ℕ → ℕ) (i : ℕ) → Keeps {M = M} aligned (multiply_or_divide f i)
  unfolding multiply_or_divide
  multiply-Keeps f i = search register_rules

  add_upper_to_pc-Keeps : (i : ℕ) → Keeps {M = M} aligned (add_upper_to_pc i)
  unfolding add_upper_to_pc
  add_upper_to_pc-Keeps i = search register_rules

  pub integer-Keeps :
      (op : Mapping) (i : ℕ) (rest : Exec M (Unit {0}))
      → Keeps aligned rest
      → Keeps aligned (integer op i rest)
  unfolding integer
  integer-Keeps Mapping.addi i rest k = search (unary-Keeps)
  integer-Keeps _ i rest k =
      search (unary-Keeps, binary-Keeps, add_upper_to_pc-Keeps, write_rd-Keeps, k)

  pub multiplication-Keeps :
      (op : Mapping) (i : ℕ) (rest : Exec M (Unit {0}))
      → Keeps aligned rest
      → Keeps aligned (multiplication op i rest)
  unfolding multiplication
  multiplication-Keeps Mapping.mul i rest k = search (multiply-Keeps)
  multiplication-Keeps _ i rest k = search (multiply-Keeps, k)

  half-aligned :
      (s : Machine M)
      → IsReady s.hart
      → (target : ℕ) → (target % 2 == 0) ≡ true
      → Ends aligned (
          (if has_extension s.hart.iss.misa isa_c then pure tt else raise 0 target)
            (record s { hart = record s.hart { iss = record s.hart.iss { pc = target } } }))
  unfolding pure raise
  half-aligned s h target even = elim (Bool-cases (has_extension s.hart.iss.misa isa_c)) [
    | inl c ↦ rw c (inr (ground arith, c), h.1)
    | inr none ↦ rw none h.1
  ]

  -- A jump either arrives at an aligned address or raises the trap for a misaligned one.
  jump-Keeps : (target : ℕ) → Keeps {M = M} aligned (jump target)
  unfolding jump check_pc_alignment ◌>>=◌ pure raise fail gets modify
  jump-Keeps target = record {
    at = λ s h. elim (Bool-cases (target % 2 == 0)) [
      | inl even ↦ rw even (elim (Bool-cases (target % 4 == 0)) [
        | inl four ↦ rw four (inl (ground arith), h.1)
        | inr other ↦ rw other (half-aligned s h target even)
      ])
      | inr odd ↦ rw odd tt
    ];
  }

  branch-Keeps : (test : ℕ → ℕ → Bool) (i : ℕ) → Keeps {M = M} aligned (branch test i)
  unfolding branch
  branch-Keeps test i = search (register_rules, jump-Keeps)

  jump_and_link-Keeps : (i : ℕ) → Keeps {M = M} aligned (jump_and_link i)
  unfolding jump_and_link
  jump_and_link-Keeps i = search (register_rules, jump-Keeps)

  jump_register-Keeps : (i : ℕ) → Keeps {M = M} aligned (jump_register i)
  unfolding jump_register
  jump_register-Keeps i = search (register_rules, jump-Keeps)

  pub control-Keeps :
      (op : Mapping) (i : ℕ) (rest : Exec M (Unit {0}))
      → Keeps aligned rest
      → Keeps aligned (control op i rest)
  unfolding control
  control-Keeps Mapping.beq i rest k = search (branch-Keeps)
  control-Keeps _ i rest k = search (branch-Keeps, jump_and_link-Keeps, jump_register-Keeps, k)

module _ {M : Type 0} (env : Environment M) where
  load-Keeps : (size : ℕ) (call : Load M) (i : ℕ) → Keeps aligned (load env size call i)
  unfolding load
  load-Keeps size call i = search register_rules

  store-Keeps : (size : ℕ) (call : Store M) (i : ℕ) → Keeps aligned (store env size call i)
  unfolding store
  store-Keeps size call i = search register_rules

  pub memory-Keeps :
      (op : Mapping) (i : ℕ) (rest : Exec M (Unit {0}))
      → Keeps aligned rest
      → Keeps aligned (memory env op i rest)
  unfolding memory
  memory-Keeps Mapping.sb i rest k = search (store-Keeps)
  memory-Keeps _ i rest k = search (aligned_rules, load-Keeps, store-Keeps, k)

  execute_amo-Keeps : (f : ℕ → ℕ → ℕ) (i : ℕ) → Keeps aligned (execute_amo env f i)
  unfolding execute_amo
  execute_amo-Keeps f i = search register_rules depth 20

  load_reserved-Keeps : (i : ℕ) → Keeps {M = M} aligned (load_reserved env i)
  unfolding load_reserved
  load_reserved-Keeps i = search register_rules depth 20

  store_conditional-Keeps : (i : ℕ) → Keeps {M = M} aligned (store_conditional env i)
  unfolding store_conditional
  store_conditional-Keeps i = search register_rules depth 20

  pub atomic-Keeps :
      (op : Mapping) (i : ℕ) (rest : Exec M (Unit {0}))
      → Keeps aligned rest
      → Keeps aligned (atomic env op i rest)
  unfolding atomic
  atomic-Keeps Mapping.amoadd_w i rest k = search (execute_amo-Keeps)
  atomic-Keeps _ i rest k =
      search (execute_amo-Keeps, load_reserved-Keeps, store_conditional-Keeps, k)
