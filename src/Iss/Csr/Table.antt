-- ===== src/Iss/Csr/Table.antt =====
-- `csr_table::register_mapping` (vp/src/core/rv32/csr.h): the registers that are read and written
-- without a mask.
use riscv_vp.Base.{
  ℕ, ◌+◌, ◌-◌, ◌*◌, ◌/◌, ◌%◌, ◌^◌, ◌&&◌, leb, ◌==◌, if◌then◌else◌, switch, Option, none, some, [],
  ◌∷◌,
}
use riscv_vp.Iss.Hart.{Hart}
use riscv_vp.Iss.Csr.Address
use riscv_vp.Iss.Csr.Fields.{mstatus_reg, mstatus_of, cause_reg, cause_of, tvec_reg, tvec_of}

-- The halves of `csr_64`.
abbrev pub low : ℕ → ℕ
low reg = reg % 2 ^ 32

abbrev pub high : ℕ → ℕ
high reg = reg / 2 ^ 32

abbrev set_low : ℕ → ℕ → ℕ
set_low reg v = high reg * 2 ^ 32 + v

abbrev set_high : ℕ → ℕ → ℕ
set_high reg v = v * 2 ^ 32 + low reg

-- `default_read32`; `none` is an address that is not in the mapping.
unfoldable pub read32 : ℕ → Hart → Option ℕ
read32 addr h =
    if leb 0x3b0 addr && leb addr 0x3bf
    then some (h.csrs.pmpaddr (addr - 0x3b0))
    else if leb 0x3a0 addr && leb addr 0x3a3
    then some (h.csrs.pmpcfg (addr - 0x3a0))
    else switch addr
        ((Address.cycle, some (low h.csrs.cycle))
          ∷ (Address.cycleh, some (high h.csrs.cycle))
          ∷ (Address.time, some (low h.csrs.time))
          ∷ (Address.timeh, some (high h.csrs.time))
          ∷ (Address.instret, some (low h.csrs.instret))
          ∷ (Address.instreth, some (high h.csrs.instret))
          ∷ (Address.mcycle, some (low h.csrs.cycle))
          ∷ (Address.mcycleh, some (high h.csrs.cycle))
          ∷ (Address.mtime, some (low h.csrs.time))
          ∷ (Address.mtimeh, some (high h.csrs.time))
          ∷ (Address.minstret, some (low h.csrs.instret))
          ∷ (Address.minstreth, some (high h.csrs.instret))
          ∷ (Address.mvendorid, some (h.csrs.mvendorid))
          ∷ (Address.marchid, some (h.csrs.marchid))
          ∷ (Address.mimpid, some (h.csrs.mimpid))
          ∷ (Address.mhartid, some (h.csrs.mhartid))
          ∷ (Address.mstatus, some (mstatus_reg h.iss.mstatus))
          ∷ (Address.misa, some (h.iss.misa))
          ∷ (Address.medeleg, some (h.iss.medeleg))
          ∷ (Address.mideleg, some (h.iss.mideleg))
          ∷ (Address.mie, some (h.iss.mie))
          ∷ (Address.mtvec, some (tvec_reg h.iss.machine.tvec))
          ∷ (Address.mcounteren, some (h.csrs.mcounteren))
          ∷ (Address.mcountinhibit, some (h.csrs.mcountinhibit))
          ∷ (Address.mscratch, some (h.csrs.mscratch))
          ∷ (Address.mepc, some (h.iss.machine.epc))
          ∷ (Address.mcause, some (cause_reg h.iss.machine.cause))
          ∷ (Address.mtval, some (h.iss.machine.tval))
          ∷ (Address.mip, some (h.iss.mip))
          ∷ (Address.sedeleg, some (h.iss.sedeleg))
          ∷ (Address.sideleg, some (h.iss.sideleg))
          ∷ (Address.stvec, some (tvec_reg h.iss.supervisor.tvec))
          ∷ (Address.scounteren, some (h.csrs.scounteren))
          ∷ (Address.sscratch, some (h.csrs.sscratch))
          ∷ (Address.sepc, some (h.iss.supervisor.epc))
          ∷ (Address.scause, some (cause_reg h.iss.supervisor.cause))
          ∷ (Address.stval, some (h.iss.supervisor.tval))
          ∷ (Address.satp, some (h.csrs.satp))
          ∷ (Address.utvec, some (tvec_reg h.iss.user.tvec))
          ∷ (Address.uscratch, some (h.csrs.uscratch))
          ∷ (Address.uepc, some (h.iss.user.epc))
          ∷ (Address.ucause, some (cause_reg h.iss.user.cause))
          ∷ (Address.utval, some (h.iss.user.tval))
          ∷ (Address.fcsr, some (h.csrs.fcsr))
          ∷ [])
        none

abbrev update : (ℕ → ℕ) → ℕ → ℕ → ℕ → ℕ
update f k v j = if j == k then v else f j

-- `default_write32`.
unfoldable pub write32 : ℕ → ℕ → Hart → Option Hart
write32 addr v h =
    if leb 0x3b0 addr && leb addr 0x3bf
    then some
        (record h { csrs = record h.csrs { pmpaddr = update h.csrs.pmpaddr (addr - 0x3b0) v } })
    else if leb 0x3a0 addr && leb addr 0x3a3
    then some (record h { csrs = record h.csrs { pmpcfg = update h.csrs.pmpcfg (addr - 0x3a0) v } })
    else switch addr
        ((
          Address.cycle,
          some (record h { csrs = record h.csrs { cycle = set_low h.csrs.cycle v } }),
        )
          ∷ (
            Address.cycleh,
            some (record h { csrs = record h.csrs { cycle = set_high h.csrs.cycle v } }),
          )
          ∷ (
            Address.time,
            some (record h { csrs = record h.csrs { time = set_low h.csrs.time v } }),
          )
          ∷ (
            Address.timeh,
            some (record h { csrs = record h.csrs { time = set_high h.csrs.time v } }),
          )
          ∷ (
            Address.instret,
            some (record h { csrs = record h.csrs { instret = set_low h.csrs.instret v } }),
          )
          ∷ (
            Address.instreth,
            some (record h { csrs = record h.csrs { instret = set_high h.csrs.instret v } }),
          )
          ∷ (
            Address.mcycle,
            some (record h { csrs = record h.csrs { cycle = set_low h.csrs.cycle v } }),
          )
          ∷ (
            Address.mcycleh,
            some (record h { csrs = record h.csrs { cycle = set_high h.csrs.cycle v } }),
          )
          ∷ (
            Address.mtime,
            some (record h { csrs = record h.csrs { time = set_low h.csrs.time v } }),
          )
          ∷ (
            Address.mtimeh,
            some (record h { csrs = record h.csrs { time = set_high h.csrs.time v } }),
          )
          ∷ (
            Address.minstret,
            some (record h { csrs = record h.csrs { instret = set_low h.csrs.instret v } }),
          )
          ∷ (
            Address.minstreth,
            some (record h { csrs = record h.csrs { instret = set_high h.csrs.instret v } }),
          )
          ∷ (Address.mvendorid, some (record h { csrs = record h.csrs { mvendorid = v } }))
          ∷ (Address.marchid, some (record h { csrs = record h.csrs { marchid = v } }))
          ∷ (Address.mimpid, some (record h { csrs = record h.csrs { mimpid = v } }))
          ∷ (Address.mhartid, some (record h { csrs = record h.csrs { mhartid = v } }))
          ∷ (Address.mstatus, some (record h { iss = record h.iss { mstatus = mstatus_of v } }))
          ∷ (Address.misa, some (record h { iss = record h.iss { misa = v } }))
          ∷ (Address.medeleg, some (record h { iss = record h.iss { medeleg = v } }))
          ∷ (Address.mideleg, some (record h { iss = record h.iss { mideleg = v } }))
          ∷ (Address.mie, some (record h { iss = record h.iss { mie = v } }))
          ∷ (
            Address.mtvec,
            some (record h {
              iss = record h.iss { machine = record h.iss.machine { tvec = tvec_of v } };
            }),
          )
          ∷ (Address.mcounteren, some (record h { csrs = record h.csrs { mcounteren = v } }))
          ∷ (Address.mcountinhibit, some (record h { csrs = record h.csrs { mcountinhibit = v } }))
          ∷ (Address.mscratch, some (record h { csrs = record h.csrs { mscratch = v } }))
          ∷ (
            Address.mepc,
            some (record h { iss = record h.iss { machine = record h.iss.machine { epc = v } } }),
          )
          ∷ (
            Address.mcause,
            some (record h {
              iss = record h.iss { machine = record h.iss.machine { cause = cause_of v } };
            }),
          )
          ∷ (
            Address.mtval,
            some (record h { iss = record h.iss { machine = record h.iss.machine { tval = v } } }),
          )
          ∷ (Address.mip, some (record h { iss = record h.iss { mip = v } }))
          ∷ (Address.sedeleg, some (record h { iss = record h.iss { sedeleg = v } }))
          ∷ (Address.sideleg, some (record h { iss = record h.iss { sideleg = v } }))
          ∷ (
            Address.stvec,
            some (record h {
              iss = record h.iss { supervisor = record h.iss.supervisor { tvec = tvec_of v } };
            }),
          )
          ∷ (Address.scounteren, some (record h { csrs = record h.csrs { scounteren = v } }))
          ∷ (Address.sscratch, some (record h { csrs = record h.csrs { sscratch = v } }))
          ∷ (
            Address.sepc,
            some (record h {
              iss = record h.iss { supervisor = record h.iss.supervisor { epc = v } };
            }),
          )
          ∷ (
            Address.scause,
            some (record h {
              iss = record h.iss { supervisor = record h.iss.supervisor { cause = cause_of v } };
            }),
          )
          ∷ (
            Address.stval,
            some (record h {
              iss = record h.iss { supervisor = record h.iss.supervisor { tval = v } };
            }),
          )
          ∷ (Address.satp, some (record h { csrs = record h.csrs { satp = v } }))
          ∷ (
            Address.utvec,
            some
                (record h { iss = record h.iss { user = record h.iss.user { tvec = tvec_of v } } }),
          )
          ∷ (Address.uscratch, some (record h { csrs = record h.csrs { uscratch = v } }))
          ∷ (
            Address.uepc,
            some (record h { iss = record h.iss { user = record h.iss.user { epc = v } } }),
          )
          ∷ (
            Address.ucause,
            some (record h {
              iss = record h.iss { user = record h.iss.user { cause = cause_of v } };
            }),
          )
          ∷ (
            Address.utval,
            some (record h { iss = record h.iss { user = record h.iss.user { tval = v } } }),
          )
          ∷ (Address.fcsr, some (record h { csrs = record h.csrs { fcsr = v } }))
          ∷ [])
        none
