-- ===== src/Iss/Exec/Keeps.antt =====
-- Invariants of actions, one rule for each way to build an action.
use riscv_vp.Base.{◌≡◌, refl, Bool, true, false, if◌then◌else◌, ℕ, Option, none, some}
use riscv_vp.Iss.Hart.{Hart, Result, ok, trap, failed, Access}
use riscv_vp.Iss.Exec.{
  Exec, Machine, pure, raise, fail, gets, access, consult, or_fail, modify, ◌>>=◌,
}

abbrev pub relock : Hart → Bool → ℕ → Hart
relock h b mip = record h { iss = record h.iss { bus_locked = b; mip = mip } }

-- What holds between actions, and what holds when a trap is raised.
pub record Invariant : Type 1 where
  pub Ready : Hart → Type 0
  pub Stable : Hart → Type 0

-- An action that fails says nothing more.
abbrev pub Ends : {M A : Type 0} → Invariant → Result A × Machine M → Type 0
Ends v (ok a, s) = v.Ready s.hart
Ends v (trap e, s) = v.Stable s.hart
Ends v (failed, s) = Unit

pub record Keeps {M A : Type 0} (v : Invariant) (m : Exec M A) : Type 0 where
  pub at : (s : Machine M) → v.Ready s.hart → Ends v (m s)

access-Ends :
    {M A : Type 0} (v : Invariant) (r : Result A) (s : Machine M)
    → v.Ready s.hart
    → v.Stable s.hart
    → Ends v (r, s)
access-Ends v (ok a) s h k = h
access-Ends v (trap e) s h k = k
access-Ends v failed s h k = tt

module _ {M A : Type 0} {v : Invariant} where
  pub Keeps-pure : (a : A) → Keeps {M = M} v (pure a)
  unfolding pure
  Keeps-pure a = record { at = λ s h. h }

  pub Keeps-raise :
      (reason mtval : ℕ)
      → ((h : Hart) → v.Ready h → v.Stable h)
      → Keeps {M = M} {A = A} v (raise reason mtval)
  unfolding raise
  Keeps-raise reason mtval weaken = record { at = λ s h. weaken s.hart h }

  pub Keeps-fail : Keeps {M = M} {A = A} v fail
  unfolding fail
  Keeps-fail = record { at = λ s h. tt }

  pub Keeps-gets : (f : Hart → A) → Keeps {M = M} v (gets f)
  unfolding gets
  Keeps-gets f = record { at = λ s h. h }

  pub Keeps-consult : (call : M → A × M) → Keeps v (consult call)
  unfolding consult
  Keeps-consult call = record { at = λ s h. h }

  pub Keeps-or_fail : (o : Option A) → Keeps {M = M} v (or_fail o)
  unfolding or_fail
  Keeps-or_fail none = record { at = λ s h. tt }
  Keeps-or_fail (some a) = record { at = λ s h. h }

  -- The invariant does not look at what the memory changes.
  pub Keeps-access :
      (call : Hart → M → Access A M)
      → ((h : Hart) → v.Ready h → v.Stable h)
      → ((h : Hart) (b : Bool) (mip : ℕ) → v.Ready h → v.Ready (relock h b mip))
      → Keeps v (access call)
  unfolding access
  Keeps-access call weaken change = record {
    at = λ s h.
        let a = call s.hart s.memory in
        let h' = change s.hart a.bus_locked a.mip h in
        access-Ends v a.result
          (record { hart = relock s.hart a.bus_locked a.mip; memory = a.memory }) h'
          (weaken (relock s.hart a.bus_locked a.mip) h');
  }

  pub Keeps-if :
      (b : Bool) (m n : Exec M A)
      → (b ≡ true → Keeps v m)
      → (b ≡ false → Keeps v n)
      → Keeps v (if b then m else n)
  Keeps-if true m n km kn = km refl
  Keeps-if false m n km kn = kn refl

module _ {M : Type 0} {v : Invariant} where
  pub Keeps-modify :
      (f : Hart → Hart) → ((h : Hart) → v.Ready h → v.Ready (f h)) → Keeps {M = M} v (modify f)
  unfolding modify
  Keeps-modify f k = record { at = λ s h. k s.hart h }

module _ {M A B : Type 0} {v : Invariant} where
  continue-Ends :
      (r : Result A × Machine M) (f : A → Exec M B)
      → Ends v r
      → ((a : A) → Keeps v (f a))
      → Ends v ((((λ _. r) >>= f)) r.1)
  unfolding ◌>>=◌
  continue-Ends (ok a, s) f e k = (k a).at s e
  continue-Ends (trap t, s) f e k = e
  continue-Ends (failed, s) f e k = e

  pub Keeps-bind :
      (m : Exec M A) (f : A → Exec M B) → Keeps v m → ((a : A) → Keeps v (f a)) → Keeps v (m >>= f)
  unfolding ◌>>=◌
  Keeps-bind m f km kf = record { at = λ s h. continue-Ends (m s) f (km.at s h) kf }

-- A block whose parts have different invariants.
module _ {M A B : Type 0} (v w : Invariant) where
  continue_with :
      (r : Result A × Machine M) (f : A → Exec M B)
      → Ends v r
      → ((h : Hart) → v.Stable h → w.Stable h)
      → ((a : A) (s : Machine M) → v.Ready s.hart → Ends w (f a s))
      → Ends w (((λ _. r) >>= f) r.1)
  unfolding ◌>>=◌
  continue_with (ok a, s) f e k n = n a s e
  continue_with (trap t, s) f e k n = k s.hart e
  continue_with (failed, s) f e k n = tt

  pub Ends-bind :
      (m : Exec M A) (f : A → Exec M B) (s : Machine M)
      → Ends v (m s)
      → ((h : Hart) → v.Stable h → w.Stable h)
      → ((a : A) (s : Machine M) → v.Ready s.hart → Ends w (f a s))
      → Ends w ((m >>= f) s)
  unfolding ◌>>=◌
  Ends-bind m f s e k n = continue_with (m s) f e k n

pub ruleset keeps_rules = (
  Keeps-pure, Keeps-fail, Keeps-gets, Keeps-consult, Keeps-or_fail, Keeps-if, Keeps-modify,
  Keeps-bind,
)
