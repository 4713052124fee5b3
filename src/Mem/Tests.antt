-- ===== src/Mem/Tests.antt =====
-- The theorems on the memory of a hart at a concrete address space and a concrete bus.
use riscv_vp.Base.{
  ◌⊎◌, ℕ, zero, suc, ◌+◌, ◌*◌, ◌/◌, ◌%◌, ◌^◌, ◌≤◌, ◌≡◌, inl, inr, refl, sym, ap, ◌∙◌, true, false,
  ◌==◌, Option, none, some, [], ◌∷◌, leb, Bool-cases, bit_and, switch, arith,
}
use riscv_vp.Instr.Mapping.{undef}
use riscv_vp.Iss.State.{Handler, Mstatus, supervisor_mode}
use riscv_vp.Iss.Trap.{SimulationTrap}
use riscv_vp.Iss.Hart.{Csrs, runnable, Result, ok, trap, failed}
use riscv_vp.Iss.Exec.{Machine, Exec, pure, raise, fail, or_fail, ◌>>=◌, ◌>>◌}
use riscv_vp.Mem.State.{AccessType, load, Memory}
use riscv_vp.Mem.Mmu.{
  ad_flags, MmuPorts, VmInfo, Rights, Verdict, pointer, leaf, refused, pgshift, flush_tlb, load_pte,
  judge, follow, take_leaf, no_translation, leaf_paddr, walk_from, walk, decode_vm_info,
  translate_in,
}
use riscv_vp.Mem.Mmu.Walk.{Tables, walk-Answers}
use riscv_vp.Mem.Mmu.Cache.{Pages, Agrees, Good, Holds, translate_in-Good}
use riscv_vp.Mem.Dmi.{Dmi, contains, get_mem_ptr_to_global_addr}
use riscv_vp.Mem.Interface.{Bus, raw_store_data, raw_load_data}
use riscv_vp.Mem.Interface.Tables.{entry}
use riscv_vp.Mem.Interface.Ram.{raw_load-store}

abbrev vector : Handler
vector = record {
  epc = 0;
  cause = record { interrupt = false; exception_code = 0 };
  tval = 0;
  tvec = record { mode = 1; base = 0x100 };
}

abbrev status : Mstatus
status = record {
  uie = false;
  sie = true;
  mie = true;
  upie = false;
  spie = false;
  mpie = true;
  spp = 1;
  mpp = 3;
  fs = 1;
  xs = 0;
  mprv = false;
  sum = true;
  mxr = false;
  tvm = true;
  tw = false;
  tsr = true;
  sd = false;
}

-- The root table is at 0x1000.
abbrev csrs : Csrs
csrs = record {
  cycle = 0;
  time = 0;
  instret = 0;
  mvendorid = 0;
  marchid = 0;
  mimpid = 0;
  mhartid = 0;
  mcounteren = 0;
  scounteren = 0;
  mcountinhibit = 0;
  mscratch = 0;
  sscratch = 0;
  uscratch = 0;
  satp = 0x80000001;
  fcsr = 0;
  pmpaddr = λ _. 0;
  pmpcfg = λ _. 0;
}

-- All of the cache is empty, and `platform` is the time.
abbrev start : Machine (Memory ℕ)
unfolding flush_tlb
start = record {
  hart = record {
    iss = record {
      pc = 0x1000;
      last_pc = 0x1000;
      prv = supervisor_mode;
      mstatus = status;
      machine = vector;
      supervisor = vector;
      user = vector;
      medeleg = 0;
      sedeleg = 0;
      mideleg = 0;
      sideleg = 0;
      mie = 0;
      mip = 0;
      misa = 0x40141105;
      lr_sc_counter = 5;
      bus_locked = true;
    };
    csrs = csrs;
    regs = λ index. 0;
    fp_regs = λ _. 0;
    instr = 0;
    op = undef;
    status = runnable;
    shall_exit = false;
    ignore_wfi = false;
    debug_mode = false;
    breakpoints = λ _. false;
    total_num_instr = 0;
    cycle_counter = 0;
    exception_flags = 0;
  };
  memory = flush_tlb (record {
    tlb = λ mode type idx. record { ppn = 0; vpn = 0 };
    lr_addr = 0;
    shared = record { ram = λ _. 0; locked_by_other = false; platform = 0 };
  });
}

-- A bus with 64 KiB of memory behind DMI, and nothing else.
abbrev dmi : Dmi
dmi = record { mem = 0; start = 0x80000000; size = 0x10000 }

abbrev bus : Bus ℕ
bus = record {
  dmi_ranges = dmi ∷ [];
  has_mmu = true;
  page_fault_on_ad = false;
  inc = λ n s. record s { platform = s.platform + n };
  read = λ n a mip s. (none, mip, s);
  write = λ n a v mip s. (false, mip, s);
  wait = λ mip s. (mip, s);
}

true-false : true ≡ false → ⊥
true-false e = cc

-- Tables at 0x1000 and 0x2000 of the memory map 0x12345000 to 0x80055000.
abbrev table_bytes : ℕ → ℕ
table_bytes a =
    switch a
      ((0x1120, 0x01)
        ∷ (0x1121, 0x08)
        ∷ (0x2d14, 0xcf)
        ∷ (0x2d15, 0x54)
        ∷ (0x2d16, 0x15)
        ∷ (0x2d17, 0x20)
        ∷ [])
      0

abbrev sv32 : VmInfo
sv32 = record { levels = 2; idxbits = 10; ptesize = 4; ptbase = 0x1000 }

abbrev low_dmi : Dmi
low_dmi = record { mem = 0; start = 0; size = 0x10000 }

abbrev low_bus : Bus ℕ
low_bus = record bus { dmi_ranges = low_dmi ∷ [] }

abbrev tabled : Machine (Memory ℕ)
tabled = record start {
  memory = record start.memory { shared = record start.memory.shared { ram = table_bytes } };
}

abbrev IsBase : ℕ → Type 0
IsBase base = (base ≡ 0x1000) ⊎ (base ≡ 0x2000)

-- The loads of the entries find `entry` in every state.
abbrev ports_of : (ℕ → ℕ) → MmuPorts ℕ
ports_of entry = record {
  mmu_load_pte32 = λ a. pure (entry a);
  mmu_load_pte64 = λ a. pure (entry a);
  mmu_store_pte32 = λ a v. pure tt;
  inc = λ n s. record s { platform = s.platform + n };
  page_fault_on_ad = false;
  xlen = 32;
  satp_mode = λ h. h.csrs.satp / 2 ^ 31;
  satp_ppn = λ h. h.csrs.satp % 2 ^ 22;
}

tables :
    (vaddr : ℕ) (entry : ℕ → ℕ) → Tables (ports_of entry) sv32 vaddr entry (λ s. Unit) (λ b. Unit)
unfolding load_pte pure
tables vaddr entry = record {
  load_entry = λ i base s l b z. refl;
  stays = λ i base s l b z. tt;
  next_base = λ i base l b p. tt;
  store_entry = λ i base v s l b z. refl;
}

-- Every entry is a leaf of 4 MiB at 0x80000000 for supervisor mode.
abbrev uniform : MmuPorts ℕ
uniform = ports_of (λ a. 0x200000cf)

abbrev pages : Pages
pages mode type vpn = some ((0x80000 + vpn % 2 ^ 10) * 2 ^ 12)

abbrev Rooted : Machine (Memory ℕ) → Type 0
Rooted s = s.hart.csrs.satp ≡ 0x80000001

take_leaf-still :
    (type : AccessType) (vaddr k a pte : ℕ) (s : Machine (Memory ℕ))
    → (take_leaf uniform type vaddr k a pte s).1 ≡ s
unfolding take_leaf pure ◌>>=◌
take_leaf-still type vaddr k a pte s =
    elim (Bool-cases (bit_and pte (ad_flags type) == ad_flags type)) [
      | inl e ↦ rw e refl
      | inr e ↦ rw e refl
    ]

follow-still :
    (v : Verdict) (m n o : Exec (Memory ℕ) ℕ) (s : Machine (Memory ℕ))
    → (m s).1 ≡ s
    → (n s).1 ≡ s
    → (o s).1 ≡ s
    → (follow uniform v m n o s).1 ≡ s
unfolding follow
follow-still pointer m n o s a b c = a
follow-still leaf m n o s a b c = b
follow-still refused m n o s a b c = c

walk_from-still :
    (r : Rights) (vaddr levels base : ℕ) (s : Machine (Memory ℕ))
    → (walk_from uniform r sv32 vaddr levels base s).1 ≡ s
unfolding walk_from load_pte no_translation raise pure ◌>>=◌
walk_from-still r vaddr zero base s = refl
walk_from-still r vaddr (suc i) base s =
    follow-still (judge r (i * 10) 0x200000cf) _ _ _ s (walk_from-still r vaddr i _ s)
      (take_leaf-still r.type vaddr (i * 10) _ 0x200000cf s) refl

failed_ok : {x : ℕ} → ◌≡◌ {A = Result ℕ} failed (ok x) → ⊥
failed_ok e = cc

trap_ok : {x : ℕ} {t : SimulationTrap} → ◌≡◌ {A = Result ℕ} (trap t) (ok x) → ⊥
trap_ok e = cc

ok_inj : {x y : ℕ} → ◌≡◌ {A = Result ℕ} (ok x) (ok y) → x ≡ y
ok_inj e = cc

some_inj : {x y : ℕ} → ◌≡◌ {A = Option ℕ} (some x) (some y) → x ≡ y
some_inj e = cc

start-Rooted : Rooted start
unfolding start
start-Rooted = refl

decoded :
    (s : Machine (Memory ℕ))
    → Rooted s
    → decode_vm_info (uniform.satp_mode s.hart) (uniform.satp_ppn s.hart) ≡ some sv32
unfolding decode_vm_info switch
decoded s z = rw z refl

not_low :
    (vaddr mode paddr : ℕ) (type : AccessType) (s : Machine (Memory ℕ))
    → (walk uniform vaddr type mode s).0 ≡ ok paddr
    → leb mode supervisor_mode ≡ false
    → ⊥
unfolding walk fail ◌>>=◌
not_low vaddr mode paddr type s e l = failed_ok (sym (rw l refl) ∙ e)

mapped :
    (vaddr mode paddr : ℕ) (type : AccessType) (s : Machine (Memory ℕ))
    → Rooted s
    → (walk uniform vaddr type mode s).0 ≡ ok paddr
    → mode ≤ 1
    → (page : ℕ) × (pages mode type (vaddr / 2 ^ pgshift) ≡ some page)
      × (paddr ≡ page + vaddr % 2 ^ pgshift)
unfolding leaf_paddr
mapped vaddr mode paddr type s z e h =
    elim (walk-Answers uniform sv32 (λ a. 0x200000cf) (λ x. Unit) (λ b. Unit) type mode vaddr
      (tables vaddr (λ a. 0x200000cf)) s tt tt h (decoded s z)) [
        | inl (p, (c, inl (q, m)), f) ↦ absurd (true-false q.1)
        | inl (p, (c, inr (l, d, q)), f) ↦ (_, refl, ok_inj (sym e ∙ f) ∙ q ∙ omega arith)
        | inr (n, f) ↦ absurd (trap_ok (sym f ∙ e))
      ]

still :
    (vaddr mode : ℕ) (type : AccessType) (s : Machine (Memory ℕ))
    → Rooted s
    → (walk uniform vaddr type mode s).1 ≡ s
unfolding walk fail or_fail ◌>>=◌
still vaddr mode type s z = elim (Bool-cases (leb mode supervisor_mode)) [
  | inl l ↦ rw (l, decoded s z) (walk_from-still _ vaddr _ _ s)
  | inr l ↦ rw l refl
]

uniform-Agrees : Agrees uniform Rooted pages
uniform-Agrees = record {
  answers = λ vaddr mode paddr type s z e. elim (Bool-cases (leb mode supervisor_mode)) [
    | inl l ↦ mapped vaddr mode paddr type s z e (ground arith)
    | inr l ↦ absurd (not_low vaddr mode paddr type s e l)
  ];
  keeps = λ vaddr mode type s z.
      ap (λ (w : Machine (Memory ℕ)). w.memory.tlb) (still vaddr mode type s z);
  timed = λ n s z. z;
  low = λ mode vpn page type e.
      (let q = some_inj e in omega arith, let q = some_inj e in omega arith);
}

start-Holds : Holds pages start.memory.tlb
unfolding start flush_tlb
start-Holds mode idx type = inl refl

translate_in-Good_example :
    Good pages 1 load 0x12345678 (translate_in uniform 1 0x12345678 load start)
translate_in-Good_example =
    translate_in-Good uniform Rooted pages uniform-Agrees 1 0x12345678 load start (omega arith)
      start-Rooted start-Holds

raw_load-store_example :
    ((raw_store_data bus 4 0x80000010 0xdeadbeef >> raw_load_data bus 4 0x80000010) start).0
    ≡ ok 0xdeadbeef
unfolding flush_tlb contains get_mem_ptr_to_global_addr
raw_load-store_example =
    raw_load-store bus dmi 0x80000010 4 0xdeadbeef start
      (record { ram = λ n s. refl; locked = λ n s. refl }) (inl (refl, refl, tt)) refl refl
      (omega arith)
