-- ===== src/Plic/Signal.antt =====
-- What the FE310 interrupt controller (vp/src/platform/common/fe310_plic.h) tells the harts.
use riscv_vp.Base.{
  ℕ, zero, suc, ◌+◌, ◌/◌, ◌%◌, ◌^◌, ◌≤◌, ◌<◌, ◌≡◌, inl, inr, refl, sym, ap, subst, ◌∙◌, Bool, true,
  false, ◌&&◌, not, ltb, ◌==◌, if◌then◌else◌, Option, none, some, arith, Bool-cases, List, [], ◌∷◌,
}
use mathlib.Core.Option
use riscv_vp.Iss.State.{Iss, machine_mode}
use riscv_vp.Iss.Interrupt.Trigger.{
  set_bit, external_interrupt, trigger_external_interrupt, clear_external_interrupt,
}
use riscv_vp.Clint.{set_hart}
use riscv_vp.Plic.{
  in_hart_config, read_hart_config, hart_config_word, Plic, is_candidate,
  hart_has_pending_enabled_interrupts, gateway_trigger_interrupt, set_at, clear_pending_interrupt,
  claim, pre_read_hart_config, complete, post_write_interrupt_priorities, post_write_hart_config,
  write_hart_config, signal, signal_from, run,
}
use riscv_vp.Plic.Choice.{has_pending-false_iff}
use riscv_vp.Plic.Claim.{Open, gateway_trigger_interrupt-Arrived}

-- `meip`
abbrev pub meip : Iss → Bool
meip s = s.mip / 2 ^ 11 % 2 == 1

-- The controller signals to machine mode, and a hart's `meip` is set while the controller takes it for signalled.
pub record Told (p : Plic) : Type 0 where
  pub level : p.irq_level ≡ machine_mode
  pub told : (hart : ℕ) → p.hart_eip hart ≡ meip (p.target_harts hart)

trigger-meip :
    (level : ℕ) (s : Iss) → level ≡ machine_mode → meip (trigger_external_interrupt level s) ≡ true
unfolding trigger_external_interrupt external_interrupt set_bit
trigger-meip level s e = rw e (ground arith)

clear-meip :
    (level : ℕ) (s : Iss) → level ≡ machine_mode → meip (clear_external_interrupt level s) ≡ false
unfolding clear_external_interrupt external_interrupt set_bit
clear-meip level s e = rw e (ground arith)

-- A hart is told, and the flag is set to what it is told.
told_at :
    (eip : ℕ → Bool) (harts : ℕ → Iss) (i : ℕ) (b : Bool) (s : Iss)
    → ((j : ℕ) → eip j ≡ meip (harts j))
    → b ≡ meip s
    → (j : ℕ) → set_at eip i b j ≡ meip (set_hart harts i s j)
told_at eip harts i b s h e j = elim (Bool-cases (j == i)) [ inl c ↦ rw c e | inr c ↦ rw c (h j) ]

signal-Told : (i : ℕ) (p : Plic) → Told p → Told (signal i p)
unfolding signal
signal-Told i p t =
    elim (Bool-cases (not (p.hart_eip i) && hart_has_pending_enabled_interrupts p i)) [
      | inr c ↦ rw c t
      | inl c ↦ rw c (record {
        level = t.level;
        told =
            told_at p.hart_eip p.target_harts i true _ t.told
              (sym (trigger-meip p.irq_level (p.target_harts i) t.level));
      })
    ]

signal_from-Told : (left i : ℕ) (p : Plic) → Told p → Told (signal_from left i p)
unfolding signal_from
signal_from-Told zero i p t = t
signal_from-Told (suc left) i p t = signal_from-Told left (suc i) (signal i p) (signal-Told i p t)

run-Told : (p : Plic) → Told p → Told (run p)
unfolding run
run-Told p t =
    signal_from-Told p.number_cores 0 (record p { e_run = false })
      (record { level = t.level; told = t.told })

-- An interrupt stands that the hart is to be told of.
record Ready (hart irq : ℕ) (p : Plic) : Type 0 where
  positive : 1 ≤ irq
  below : irq < p.number_interrupts
  fits : is_candidate p hart true irq ≡ true

pending :
    (hart irq : ℕ) (p : Plic) → Ready hart irq p → hart_has_pending_enabled_interrupts p hart ≡ true
pending hart irq p r = elim (Bool-cases (hart_has_pending_enabled_interrupts p hart)) [
  | inl c ↦ c
  | inr c ↦
      let n : 1 ≤ p.number_interrupts = omega (arith, r.below) in
      let f = (has_pending-false_iff p hart n).0 c irq r.positive r.below in
      absurd (ground (arith, f, r.fits))
]

signal-Ready : (hart irq i : ℕ) (p : Plic) → Ready hart irq p → Ready hart irq (signal i p)
unfolding signal is_candidate
signal-Ready hart irq i p r =
    elim (Bool-cases (not (p.hart_eip i) && hart_has_pending_enabled_interrupts p i)) [
      | inr c ↦ rw c r
      | inl c ↦ rw c (record { positive = r.positive; below = r.below; fits = r.fits })
    ]

signal-hart_eip :
    (hart i : ℕ) (p : Plic) → p.hart_eip hart ≡ true → (signal i p).hart_eip hart ≡ true
unfolding signal
signal-hart_eip hart i p e =
    elim (Bool-cases (not (p.hart_eip i) && hart_has_pending_enabled_interrupts p i)) [
      | inr c ↦ rw c e
      | inl c ↦ rw c (ground arith)
    ]

signal-here : (hart irq : ℕ) (p : Plic) → Ready hart irq p → (signal hart p).hart_eip hart ≡ true
unfolding signal
signal-here hart irq p r =
    let c = pending hart irq p r in
    elim (Bool-cases (p.hart_eip hart)) [
      | inl e ↦ signal-hart_eip hart hart p e
      | inr e ↦ rw (e, c) (ground arith)
    ]

signal_from-hart_eip :
    (left hart i : ℕ) (p : Plic)
    → p.hart_eip hart ≡ true
    → (signal_from left i p).hart_eip hart ≡ true
unfolding signal_from
signal_from-hart_eip zero hart i p e = e
signal_from-hart_eip (suc left) hart i p e =
    signal_from-hart_eip left hart (suc i) (signal i p) (signal-hart_eip hart i p e)

signal_from-here :
    (left hart irq i : ℕ) (p : Plic)
    → i ≤ hart
    → hart < i + left
    → Ready hart irq p
    → (signal_from left i p).hart_eip hart ≡ true
unfolding signal_from
signal_from-here zero hart irq i p h l r = absurd (omega arith)
signal_from-here (suc left) hart irq i p h l r = elim (Bool-cases (i == hart)) [
  | inl c ↦
      let q : i ≡ hart = ground arith in
      signal_from-hart_eip left hart (suc i) (signal i p)
        (subst (λ x. (signal x p).hart_eip hart ≡ true) (sym q) (signal-here hart irq p r))
  | inr c ↦
      signal_from-here left hart irq (suc i) (signal i p) (ground arith) (omega arith)
        (signal-Ready hart irq i p r)
]

run-here :
    (hart irq : ℕ) (p : Plic)
    → hart < p.number_cores
    → Ready hart irq p
    → (run p).hart_eip hart ≡ true
unfolding run is_candidate
run-here hart irq p l r =
    signal_from-here p.number_cores hart irq 0 (record p { e_run = false }) (omega arith)
      (omega arith) (record { positive = r.positive; below = r.below; fits = r.fits })

-- What happens at the controller: an interrupt arrives, the guest reads or writes a word of
-- `regs_hart_config` or writes the priorities or the enables, `e_run` wakes the process, or a hart
-- runs, which changes its own state.
pub data Event : Type 0 where
  arrival : ℕ → Event
  config_read : ℕ → Event
  config_write : ℕ → ℕ → Event
  priorities_write : (ℕ → ℕ) → Event
  enables_write : (ℕ → ℕ) → Event
  wake_up : Event
  hart_runs : ℕ → (Iss → Iss) → Event

-- A hart that runs leaves its `meip` alone; the masks of the writes to `mip` have no such bit.
abbrev pub LeavesMeip : Event → Type 0
LeavesMeip (hart_runs hart f) = (s : Iss) → meip (f s) ≡ meip s
LeavesMeip _ = Unit

abbrev pub AllLeaveMeip : List Event → Type 0
AllLeaveMeip [] = Unit
AllLeaveMeip (e ∷ es) = LeavesMeip e × AllLeaveMeip es

unfoldable pub after_read : Option (ℕ × Plic) → Option Plic
after_read none = none
after_read (some (word, p)) = some p

-- After each event the run of the program goes on, or an assertion has ended it.
unfoldable pub step : Event → Plic → Option Plic
step (arrival irq) p = gateway_trigger_interrupt irq p
step (config_read addr) p = after_read (read_hart_config addr p)
step (config_write addr value) p = write_hart_config addr value p
step (priorities_write words) p =
    some (post_write_interrupt_priorities (record p { interrupt_priorities = words }))
step (enables_write words) p = some (record p { hart_enabled_interrupts = words })
step (hart_runs hart f) p =
    some (record p { target_harts = set_hart p.target_harts hart (f (p.target_harts hart)) })
step wake_up p = if p.e_run then some (run p) else none

abbrev step_then : (Plic → Option Plic) → Option Plic → Option Plic
step_then f none = none
step_then f (some p) = f p

unfoldable pub steps : List Event → Plic → Option Plic
steps [] p = some p
steps (e ∷ es) p = step_then (steps es) (step e p)

-- If there is a controller.
abbrev pub AllTold : Option Plic → Type 0
AllTold none = Unit
AllTold (some p) = Told p

if_some : (b : Bool) (p : Plic) → Told p → AllTold (if b then some p else none)
if_some true p t = t
if_some false p t = tt

clear_pending_interrupt-AllTold :
    (irq : ℕ) (p : Plic) → Told p → AllTold (clear_pending_interrupt irq p)
unfolding clear_pending_interrupt
clear_pending_interrupt-AllTold irq p t =
    if_some (ltb irq p.number_interrupts) _ (record { level = t.level; told = t.told })

claim-AllTold : (idx : ℕ) (p : Plic) → Told p → AllTold (claim idx p)
unfolding claim
claim-AllTold idx p t = elim (Bool-cases (ltb idx p.number_cores)) [
  | inr c ↦ rw c tt
  | inl c ↦ rw c (clear_pending_interrupt-AllTold _ _ (record { level = t.level; told = t.told }))
]

complete-AllTold : (idx : ℕ) (p : Plic) → Told p → AllTold (complete idx p)
unfolding complete
complete-AllTold idx p t = elim (Bool-cases (ltb idx p.number_cores)) [
  | inr c ↦ rw c tt
  | inl c ↦ elim (Bool-cases (hart_has_pending_enabled_interrupts p idx)) [
    | inr d ↦
        rw (c, d)
          (record {
            level = t.level;
            told =
                told_at p.hart_eip p.target_harts idx false _ t.told
                  (sym (clear-meip p.irq_level (p.target_harts idx) t.level));
          })
    | inl d ↦ elim (Bool-cases (p.hart_eip idx)) [
      | inr e ↦ rw (c, d, e) tt
      | inl e ↦
          let again : (j : ℕ)
              → p.hart_eip j
                ≡ meip (
                    set_hart p.target_harts idx
                      (trigger_external_interrupt p.irq_level (p.target_harts idx)) j) =
            λ j. elim (Bool-cases (j == idx)) [
              | inl g ↦
                  let q : j ≡ idx = ground arith in
                  rw g (
                    ap p.hart_eip q
                    ∙ e
                    ∙ sym (trigger-meip p.irq_level (p.target_harts idx) t.level))
              | inr g ↦ rw g (t.told j)
            ] in
          let w : Told (record p {
            target_harts =
                set_hart p.target_harts idx
                  (trigger_external_interrupt p.irq_level (p.target_harts idx));
          }) =
            record { level = t.level; told = again } in
          rw (c, d, e) w
    ]
  ]
]

-- At a word of `regs_hart_config`, the threshold or the claim.
at_word :
    (aligned odd : Bool) (p : Plic) (o : Option Plic)
    → Told p
    → AllTold o
    → AllTold (if not aligned then none else if not odd then some p else if true then o else none)
at_word false odd p o t u = tt
at_word true false p o t u = t
at_word true true p o t u = u

config_read-AllTold : (addr : ℕ) (p : Plic) → Told p → AllTold (pre_read_hart_config addr 4 p)
unfolding pre_read_hart_config
config_read-AllTold addr p t = at_word _ _ p _ t (claim-AllTold _ p t)

config_write-AllTold : (addr : ℕ) (p : Plic) → Told p → AllTold (post_write_hart_config addr 4 p)
unfolding post_write_hart_config
config_write-AllTold addr p t = at_word _ _ p _ t (complete-AllTold _ p t)

written-Told :
    (b : Bool) (p : Plic) (c d : ℕ → ℕ)
    → Told p
    → Told (if b then record p { claim_response = c } else record p { priority_threshold = d })
written-Told true p c d t = record { level = t.level; told = t.told }
written-Told false p c d t = record { level = t.level; told = t.told }

guarded-AllTold : (b : Bool) (o : Option Plic) → AllTold o → AllTold (if b then o else none)
guarded-AllTold true o t = t
guarded-AllTold false o t = tt

mapped-AllTold :
    (f : Plic → ℕ) (o : Option Plic)
    → AllTold o
    → AllTold (after_read (Option.map (λ q. (f q, q)) o))
unfolding after_read
mapped-AllTold f none t = tt
mapped-AllTold f (some q) t = t

guarded_read :
    (b : Bool) (o : Option (ℕ × Plic))
    → AllTold (after_read o)
    → AllTold (after_read (if b then o else none))
unfolding after_read
guarded_read true o t = t
guarded_read false o t = tt

read-AllTold : (addr : ℕ) (p : Plic) → Told p → AllTold (after_read (read_hart_config addr p))
unfolding read_hart_config
read-AllTold addr p t =
    guarded_read _ _ (mapped-AllTold (hart_config_word addr) _ (config_read-AllTold addr p t))

ran-Told :
    (hart : ℕ) (f : Iss → Iss) (p : Plic)
    → ((s : Iss) → meip (f s) ≡ meip s)
    → Told p
    → Told (record p { target_harts = set_hart p.target_harts hart (f (p.target_harts hart)) })
ran-Told hart f p k t =
    let told : (j : ℕ)
        → p.hart_eip j ≡ meip (set_hart p.target_harts hart (f (p.target_harts hart)) j) =
      λ j. elim (Bool-cases (j == hart)) [
        | inl c ↦
            let q : j ≡ hart = ground arith in
            rw c (ap p.hart_eip q ∙ t.told hart ∙ sym (k (p.target_harts hart)))
        | inr c ↦ rw c (t.told j)
      ] in
    record { level = t.level; told = told }

step-AllTold : (e : Event) (p : Plic) → LeavesMeip e → Told p → AllTold (step e p)
unfolding step gateway_trigger_interrupt write_hart_config post_write_interrupt_priorities
step-AllTold (arrival irq) p k t =
    if_some (ltb 0 irq && ltb irq p.number_interrupts) _ (record { level = t.level; told = t.told })
step-AllTold (config_read addr) p k t = read-AllTold addr p t
step-AllTold (config_write addr value) p k t =
    guarded-AllTold (in_hart_config addr p) _
      (config_write-AllTold addr _ (written-Told (addr / 4 % 2 == 1) p _ _ t))
step-AllTold (priorities_write words) p k t = record { level = t.level; told = t.told }
step-AllTold (enables_write words) p k t = record { level = t.level; told = t.told }
step-AllTold wake_up p k t = if_some p.e_run _ (run-Told p t)
step-AllTold (hart_runs hart f) p k t = ran-Told hart f p k t

then-AllTold :
    (f : Plic → Option Plic)
    → ((p : Plic) → Told p → AllTold (f p))
    → (o : Option Plic) → AllTold o
    → AllTold (step_then f o)
then-AllTold f h none t = tt
then-AllTold f h (some p) t = h p t

-- Through all sequences of arrivals, guest accesses to the registers, wake-ups and runs of the harts,
-- where a running hart leaves its own `meip` alone: a controller that signals to machine mode, and has
-- signalled just the harts with `meip` set, stays so, unless an assertion fails.
pub steps-AllTold : (es : List Event) (p : Plic) → AllLeaveMeip es → Told p → AllTold (steps es p)
unfolding steps
steps-AllTold [] p k t = t
steps-AllTold (e ∷ es) p k t =
    then-AllTold (steps es) (λ q u. steps-AllTold es q k.1 u) (step e p) (step-AllTold e p k.0 t)

-- An interrupt that arrives is signalled when `e_run` wakes the controller: each hart for which it is
-- enabled, and whose threshold is below its positive priority, has `meip` set then, provided that the
-- controller signals to machine mode and has signalled just the harts with `meip` set.
pub arrival-wake :
    (p : Plic) (irq hart : ℕ)
    → Told p
    → 0 < irq
    → irq < p.number_interrupts
    → hart < p.number_cores
    → Open p hart irq
    → (q : Plic) × (steps (arrival irq ∷ wake_up ∷ []) p ≡ some q)
      × (meip (q.target_harts hart) ≡ true)
unfolding steps step
arrival-wake p irq hart t h l m o =
    let a = gateway_trigger_interrupt-Arrived p irq h l in
    let k : Ready hart irq a.0 = record {
      positive = h;
      below = ground (arith, a.2.number_interrupts);
      fits = a.2.fits hart o;
    } in
    let w = run-here hart irq a.0 (ground (arith, a.2.number_cores)) k in
    let u : Told (run a.0) = run-Told a.0 (subst AllTold a.1 (step-AllTold (arrival irq) p tt t)) in
    (run a.0, rw (a.1, a.2.waits) refl, sym (u.told hart) ∙ w)
