-- ===== src/Iss/Csr.antt =====
-- Reads and writes of CSRs and the rights to them (`is_invalid_csr_access`,
-- `validate_csr_counter_read_access_rights`, `get_csr_value` and `set_csr_value` of
-- vp/src/core/rv32/iss.cpp, and `csr_table` of csr.h).
pub mod Address
pub mod Fields
pub mod Table
pub mod Read
pub mod Write
pub mod Status
pub mod Views
