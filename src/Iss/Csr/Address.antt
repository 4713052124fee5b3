-- ===== src/Iss/Csr/Address.antt =====
-- The addresses of the CSRs (namespace `csr` of vp/src/core/rv32/csr.h).
use riscv_vp.Base.{ℕ, Bool, ◌&&◌, ◌||◌, leb}

abbrev pub cycle : ℕ
cycle = 0xc00

abbrev pub cycleh : ℕ
cycleh = 0xc80

abbrev pub time : ℕ
time = 0xc01

abbrev pub timeh : ℕ
timeh = 0xc81

abbrev pub instret : ℕ
instret = 0xc02

abbrev pub instreth : ℕ
instreth = 0xc82

abbrev pub mcycle : ℕ
mcycle = 0xb00

abbrev pub mcycleh : ℕ
mcycleh = 0xb80

abbrev pub mtime : ℕ
mtime = 0xb01

abbrev pub mtimeh : ℕ
mtimeh = 0xb81

abbrev pub minstret : ℕ
minstret = 0xb02

abbrev pub minstreth : ℕ
minstreth = 0xb82

abbrev pub tselect : ℕ
tselect = 0x7a0

abbrev pub tdata1 : ℕ
tdata1 = 0x7a1

abbrev pub tdata2 : ℕ
tdata2 = 0x7a2

abbrev pub tdata3 : ℕ
tdata3 = 0x7a3

abbrev pub dcsr : ℕ
dcsr = 0x7b0

abbrev pub dpc : ℕ
dpc = 0x7b1

abbrev pub dscratch0 : ℕ
dscratch0 = 0x7b2

abbrev pub dscratch1 : ℕ
dscratch1 = 0x7b3

abbrev pub mvendorid : ℕ
mvendorid = 0xf11

abbrev pub marchid : ℕ
marchid = 0xf12

abbrev pub mimpid : ℕ
mimpid = 0xf13

abbrev pub mhartid : ℕ
mhartid = 0xf14

abbrev pub mstatus : ℕ
mstatus = 0x300

abbrev pub misa : ℕ
misa = 0x301

abbrev pub medeleg : ℕ
medeleg = 0x302

abbrev pub mideleg : ℕ
mideleg = 0x303

abbrev pub mie : ℕ
mie = 0x304

abbrev pub mtvec : ℕ
mtvec = 0x305

abbrev pub mcounteren : ℕ
mcounteren = 0x306

abbrev pub mcountinhibit : ℕ
mcountinhibit = 0x320

abbrev pub mscratch : ℕ
mscratch = 0x340

abbrev pub mepc : ℕ
mepc = 0x341

abbrev pub mcause : ℕ
mcause = 0x342

abbrev pub mtval : ℕ
mtval = 0x343

abbrev pub mip : ℕ
mip = 0x344

abbrev pub pmpcfg0 : ℕ
pmpcfg0 = 0x3a0

abbrev pub pmpcfg1 : ℕ
pmpcfg1 = 0x3a1

abbrev pub pmpcfg2 : ℕ
pmpcfg2 = 0x3a2

abbrev pub pmpcfg3 : ℕ
pmpcfg3 = 0x3a3

abbrev pub pmpaddr0 : ℕ
pmpaddr0 = 0x3b0

abbrev pub pmpaddr1 : ℕ
pmpaddr1 = 0x3b1

abbrev pub pmpaddr2 : ℕ
pmpaddr2 = 0x3b2

abbrev pub pmpaddr3 : ℕ
pmpaddr3 = 0x3b3

abbrev pub pmpaddr4 : ℕ
pmpaddr4 = 0x3b4

abbrev pub pmpaddr5 : ℕ
pmpaddr5 = 0x3b5

abbrev pub pmpaddr6 : ℕ
pmpaddr6 = 0x3b6

abbrev pub pmpaddr7 : ℕ
pmpaddr7 = 0x3b7

abbrev pub pmpaddr8 : ℕ
pmpaddr8 = 0x3b8

abbrev pub pmpaddr9 : ℕ
pmpaddr9 = 0x3b9

abbrev pub pmpaddr10 : ℕ
pmpaddr10 = 0x3ba

abbrev pub pmpaddr11 : ℕ
pmpaddr11 = 0x3bb

abbrev pub pmpaddr12 : ℕ
pmpaddr12 = 0x3bc

abbrev pub pmpaddr13 : ℕ
pmpaddr13 = 0x3bd

abbrev pub pmpaddr14 : ℕ
pmpaddr14 = 0x3be

abbrev pub pmpaddr15 : ℕ
pmpaddr15 = 0x3bf

abbrev pub sstatus : ℕ
sstatus = 0x100

abbrev pub sedeleg : ℕ
sedeleg = 0x102

abbrev pub sideleg : ℕ
sideleg = 0x103

abbrev pub sie : ℕ
sie = 0x104

abbrev pub stvec : ℕ
stvec = 0x105

abbrev pub scounteren : ℕ
scounteren = 0x106

abbrev pub sscratch : ℕ
sscratch = 0x140

abbrev pub sepc : ℕ
sepc = 0x141

abbrev pub scause : ℕ
scause = 0x142

abbrev pub stval : ℕ
stval = 0x143

abbrev pub sip : ℕ
sip = 0x144

abbrev pub satp : ℕ
satp = 0x180

abbrev pub ustatus : ℕ
ustatus = 0x000

abbrev pub uie : ℕ
uie = 0x004

abbrev pub utvec : ℕ
utvec = 0x005

abbrev pub uscratch : ℕ
uscratch = 0x040

abbrev pub uepc : ℕ
uepc = 0x041

abbrev pub ucause : ℕ
ucause = 0x042

abbrev pub utval : ℕ
utval = 0x043

abbrev pub uip : ℕ
uip = 0x044

abbrev pub fflags : ℕ
fflags = 0x001

abbrev pub frm : ℕ
frm = 0x002

abbrev pub fcsr : ℕ
fcsr = 0x003

-- `SWITCH_CASE_MATCH_ANY_HPMCOUNTER_RV32`.
abbrev pub is_hpm_counter : ℕ → Bool
is_hpm_counter a =
    leb 0xc03 a && leb a 0xc1f
    || (leb 0xc83 a && leb a 0xc9f
        || (leb 0xb03 a && leb a 0xb1f
            || (leb 0xb83 a && leb a 0xb9f || leb 0x323 a && leb a 0x33f)))
