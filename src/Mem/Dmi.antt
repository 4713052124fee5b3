-- ===== src/Mem/Dmi.antt =====
-- Direct access to the host's memory (`MemoryDMI` of vp/src/core/common/dmi.h). The host is
-- little-endian.
pub mod Bytes
use riscv_vp.Base.{
  ℕ, zero, suc, ◌+◌, ◌-◌, ◌*◌, ◌/◌, ◌%◌, ◌^◌, Bool, ◌&&◌, ltb, leb, ◌==◌, if◌then◌else◌, Option,
  none, some,
}

-- The constructor makes `end` the sum of start and size. `mem` is an address of the host.
pub record Dmi : Type 0 where
  pub mem : ℕ
  pub start : ℕ
  pub size : ℕ

unfoldable pub contains : Dmi → ℕ → Bool
contains d addr = leb d.start addr && ltb addr (d.start + d.size)

-- `memcpy` of an integer of `n` bytes.
unfoldable pub read_bytes : ℕ → ℕ → (ℕ → ℕ) → ℕ
read_bytes zero a ram = 0
read_bytes (suc n) a ram = ram a + 256 * read_bytes n (a + 1) ram

unfoldable pub write_bytes : ℕ → ℕ → ℕ → (ℕ → ℕ) → ℕ → ℕ
write_bytes zero a v ram = ram
write_bytes (suc n) a v ram =
    write_bytes n (a + 1) (v / 256) (λ x. if x == a then v % 256 else ram x)

-- `get_mem_ptr_to_global_addr`, of which the assertions may fail.
unfoldable pub get_mem_ptr_to_global_addr : ℕ → Dmi → ℕ → Option ℕ
get_mem_ptr_to_global_addr n d addr =
    if contains d addr && leb ((addr + n) % 2 ^ 64) (d.start + d.size)
    then some (d.mem + (addr - d.start))
    else none
