-- ===== src/Mem/Interface/Ram.antt =====
-- Loads of memory behind a DMI range find what was stored there (`_raw_load_data` and
-- `_raw_store_data` of vp/src/core/rv32/mem.h, `MemoryDMI` of vp/src/core/common/dmi.h).
use riscv_vp.Base.{
  ℕ, ◌+◌, ◌-◌, ◌^◌, ◌<◌, ◌≡◌, ◌⊎◌, inl, inr, refl, ap, ◌∙◌, Bool, true, false, if◌then◌else◌, some,
  List, [], ◌∷◌,
}
use riscv_vp.Iss.Hart.{ok}
use riscv_vp.Iss.Exec.{Machine, pure, or_fail, ◌>>=◌, ◌>>◌}
use riscv_vp.Mem.State.{Shared, Memory}
use riscv_vp.Mem.Dmi.{Dmi, contains, read_bytes, write_bytes, get_mem_ptr_to_global_addr}
use riscv_vp.Mem.Dmi.Bytes.{read-write_bytes}
use riscv_vp.Mem.Interface.{
  Bus, wait_until_unlocked, set_locked, atomic_unlock, wait_for_access_rights, spend, load_dmi,
  store_dmi, load_from, store_to, raw_load_data, raw_store_data,
}

-- No range contains the address.
abbrev pub Outside : ℕ → List Dmi → Type 0
Outside addr [] = Unit
Outside addr (d ∷ ds) = (contains d addr ≡ false) × Outside addr ds

-- `d` alone contains the address.
abbrev pub Only : Dmi → ℕ → List Dmi → Type 0
Only d addr [] = ⊥
Only d addr (e ∷ ds) =
    ((e ≡ d) × (contains d addr ≡ true) × Outside addr ds)
    ⊎ ((contains e addr ≡ false) × Only d addr ds)

-- The time of an access changes neither the memory nor the lock.
pub record Timed {P : Type 0} (bus : Bus P) : Type 0 where
  pub ram : (n : ℕ) (s : Shared P) → (bus.inc n s).ram ≡ s.ram
  pub locked : (n : ℕ) (s : Shared P) → (bus.inc n s).locked_by_other ≡ s.locked_by_other

module _ {P : Type 0} (bus : Bus P) (d : Dmi) (addr n : ℕ) where
  store_to-Outside :
      (ds : List Dmi) (v : ℕ) (s : Machine (Memory P))
      → Outside addr ds
      → store_to bus ds true n addr v s ≡ (ok tt, s)
  unfolding store_to pure
  store_to-Outside [] v s h = refl
  store_to-Outside (e ∷ ds) v s h = rw h.0 (store_to-Outside ds v s h.1)

  abbrev place : ℕ
  place = d.mem + (addr - d.start)

  -- The shared state after a store to the range.
  abbrev stored : ℕ → Shared P → Shared P
  stored v x = let y = bus.inc 4 x in record y { ram = write_bytes n place v y.ram }

  store_to-Only :
      (ds : List Dmi) (v : ℕ) (s : Machine (Memory P))
      → Only d addr ds
      → get_mem_ptr_to_global_addr n d addr ≡ some place
      → store_to bus ds false n addr v s
        ≡ (ok tt, record s { memory = record s.memory { shared = stored v s.memory.shared } })
  unfolding store_to store_dmi ◌>>=◌ or_fail spend
  store_to-Only [] v s h p = absurd h
  store_to-Only (e ∷ ds) v s (inl (q, c, o)) p = rw (q, c, p) (store_to-Outside ds v _ o)
  store_to-Only (e ∷ ds) v s (inr (c, o)) p = rw c (store_to-Only ds v s o p)

  load_from-Only :
      (ds : List Dmi) (s : Machine (Memory P))
      → Only d addr ds
      → get_mem_ptr_to_global_addr n d addr ≡ some place
      → (load_from bus ds n addr s).0 ≡ ok (read_bytes n place (bus.inc 4 s.memory.shared).ram)
  unfolding load_from load_dmi ◌>>=◌ or_fail spend
  load_from-Only [] s h p = absurd h
  load_from-Only (e ∷ ds) s (inl (q, c, o)) p = rw (q, c, p) refl
  load_from-Only (e ∷ ds) s (inr (c, o)) p = rw c (load_from-Only ds s o p)

  load_from-state :
      (ds : List Dmi) (s : Machine (Memory P))
      → Only d addr ds
      → get_mem_ptr_to_global_addr n d addr ≡ some place
      → (load_from bus ds n addr s).1
        ≡ record s { memory = record s.memory { shared = bus.inc 4 s.memory.shared } }
  unfolding load_from load_dmi ◌>>=◌ or_fail spend
  load_from-state [] s h p = absurd h
  load_from-state (e ∷ ds) s (inl (q, c, o)) p = rw (q, c, p) refl
  load_from-state (e ∷ ds) s (inr (c, o)) p = rw c (load_from-state ds s o p)

  not_waiting :
      (b : Bool) (s : Machine (Memory P))
      → b ≡ false
      → (if b then wait_until_unlocked bus else pure tt) s ≡ (ok tt, s)
  unfolding pure
  not_waiting true s e = cc
  not_waiting false s e = refl

  wait-free :
      (s : Machine (Memory P))
      → s.memory.shared.locked_by_other ≡ false
      → wait_for_access_rights bus s ≡ (ok tt, s)
  unfolding wait_for_access_rights ◌>>=◌
  wait-free s l = not_waiting s.memory.shared.locked_by_other s l

  pub raw_load :
      (s : Machine (Memory P))
      → Timed bus
      → Only d addr bus.dmi_ranges
      → get_mem_ptr_to_global_addr n d addr ≡ some place
      → s.memory.shared.locked_by_other ≡ false
      → (raw_load_data bus n addr s).0 ≡ ok (read_bytes n place s.memory.shared.ram)
  unfolding raw_load_data ◌>>=◌
  raw_load s t o p l = rw (wait-free s l) (
      load_from-Only bus.dmi_ranges s o p
      ∙ ap (λ r. ok (read_bytes n place r)) (t.ram 4 s.memory.shared))

  pub raw_load-state :
      (s : Machine (Memory P))
      → Only d addr bus.dmi_ranges
      → get_mem_ptr_to_global_addr n d addr ≡ some place
      → s.memory.shared.locked_by_other ≡ false
      → (raw_load_data bus n addr s).1
        ≡ record s { memory = record s.memory { shared = bus.inc 4 s.memory.shared } }
  unfolding raw_load_data ◌>>=◌
  raw_load-state s o p l = rw (wait-free s l) (load_from-state bus.dmi_ranges s o p)

  pub raw_store :
      (v : ℕ) (s : Machine (Memory P))
      → Only d addr bus.dmi_ranges
      → get_mem_ptr_to_global_addr n d addr ≡ some place
      → s.memory.shared.locked_by_other ≡ false
      → raw_store_data bus n addr v s ≡ (
        ok tt,
        record {
          hart = record s.hart { iss = record s.hart.iss { bus_locked = false } };
          memory = record s.memory { shared = stored v s.memory.shared };
        },
      )
  unfolding raw_store_data atomic_unlock set_locked ◌>>=◌
  raw_store v s o p l = rw (wait-free s l, store_to-Only bus.dmi_ranges v s o p) refl

  -- If exactly one DMI range contains an address and the access fits in it, then where no other
  -- hart holds the bus lock, a value that is stored there and fits its size is what a load of the
  -- same size reads back.
  pub raw_load-store :
      (v : ℕ) (s : Machine (Memory P))
      → Timed bus
      → Only d addr bus.dmi_ranges
      → get_mem_ptr_to_global_addr n d addr ≡ some (d.mem + (addr - d.start))
      → s.memory.shared.locked_by_other ≡ false
      → v < 256 ^ n
      → ((raw_store_data bus n addr v >> raw_load_data bus n addr) s).0 ≡ ok v
  unfolding ◌>>=◌
  raw_load-store v s t o p l h = rw (raw_store v s o p l) (
      raw_load _ t o p (t.locked 4 s.memory.shared ∙ l)
      ∙ ap ok (read-write_bytes n place v (bus.inc 4 s.memory.shared).ram h))
