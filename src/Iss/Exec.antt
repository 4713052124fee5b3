-- ===== src/Iss/Exec.antt =====
-- The methods of `ISS` as actions on a hart and its environment. What was written before an
-- exception stays written.
pub mod Keeps
use riscv_vp.Base.{ℕ, Bool, true, false, Option, none, some, if◌then◌else◌}
use riscv_vp.Iss.State.{Iss}
use riscv_vp.Iss.Trap.{SimulationTrap}
use riscv_vp.Iss.Hart.{Hart, Result, ok, trap, failed, Access}

pub record Machine (M : Type 0) : Type 0 where
  pub hart : Hart
  pub memory : M

abbrev pub Exec : Type 0 → Type 0 → Type 0
Exec M A = Machine M → Result A × Machine M

module _ {M A : Type 0} where
  unfoldable pub pure : A → Exec M A
  pure a s = (ok a, s)

  -- `raise_trap`
  unfoldable pub raise : ℕ → ℕ → Exec M A
  raise reason mtval s = (trap (record { reason = reason; mtval = mtval }), s)

  -- An exception other than a trap, or a failed assertion.
  unfoldable pub fail : Exec M A
  fail s = (failed, s)

  unfoldable pub gets : (Hart → A) → Exec M A
  gets f s = (ok (f s.hart), s)

  -- A call of the memory.
  unfoldable pub access : (Hart → M → Access A M) → Exec M A
  access call s =
      let a = call s.hart s.memory in
      (
        a.result,
        record {
          hart = record s.hart {
            iss = record s.hart.iss { bus_locked = a.bus_locked; mip = a.mip };
          };
          memory = a.memory;
        },
      )

  -- A call of another part of the environment.
  unfoldable pub consult : (M → A × M) → Exec M A
  consult call s = let (a, m) = call s.memory in (ok a, record s { memory = m })

  -- A method that ends without a value if it throws.
  unfoldable pub or_fail : Option A → Exec M A
  or_fail none s = (failed, s)
  or_fail (some a) s = (ok a, s)

module _ {M : Type 0} where
  unfoldable pub modify : (Hart → Hart) → Exec M (Unit {0})
  modify f s = (ok tt, record s { hart = f s.hart })

module _ {M A B : Type 0} where
  abbrev continue : Result A → (A → Exec M B) → Exec M B
  continue (ok a) f s = f a s
  continue (trap e) f s = (trap e, s)
  continue failed f s = (failed, s)

  infixl 10 ◌>>=◌ ◌>>◌
  -- Unfolding this unfolds the actions above too.
  unfoldable pub ◌>>=◌ : Exec M A → (A → Exec M B) → Exec M B
  unfolding pure raise fail gets access consult or_fail modify
  ◌>>=◌ m f s = let (r, s') = m s in continue r f s'

  abbrev pub ◌>>◌ : Exec M A → Exec M B → Exec M B
  m >> n = m >>= λ _. n

module _ {M : Type 0} where
  abbrev pub when : Bool → Exec M (Unit {0}) → Exec M (Unit {0})
  when b m = if b then m else pure tt

  abbrev pub require : Bool → Exec M (Unit {0})
  require b = if b then pure tt else fail
