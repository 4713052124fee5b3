-- ===== src/Bus.antt =====
-- The routes of an access: the ports of the bus (`PortMapping` and `SimpleBus` of
-- vp/src/platform/common/bus.h), the register ranges of a device (`RegisterRange` and `route` of
-- vp/src/util/memory_map.h) and the memory (`SimpleMemory` of vp/src/platform/common/memory.h).
pub mod Routes
mod Tests
use riscv_vp.Base.{
  ℕ, zero, suc, ◌+◌, ◌-◌, ◌%◌, ◌^◌, Bool, true, false, ◌&&◌, ◌||◌, not, ltb, leb, ◌==◌,
  if◌then◌else◌, Option, none, some, List, [], ◌∷◌,
}

-- `tlm_command`, without the one that the program does not use.
pub data Command : Type 0 where
  read_command write_command : Command

-- What a route reads and writes of a `tlm_generic_payload`, with its data as bytes by their place.
pub record Payload : Type 0 where
  pub command : Command
  pub address : ℕ
  pub data_length : ℕ
  pub data_ptr : ℕ → ℕ
  pub address_error : Bool

pub record PortMapping : Type 0 where
  pub start : ℕ
  pub end : ℕ

unfoldable pub port_contains : PortMapping → ℕ → Bool
port_contains m addr = leb m.start addr && leb addr m.end

unfoldable pub global_to_local : PortMapping → ℕ → ℕ
global_to_local m addr = addr - m.start

-- The loop of `decode`, at port `i`; `none` is -1.
unfoldable pub decode_from : ℕ → List PortMapping → ℕ → Option ℕ
decode_from i [] addr = none
decode_from i (m ∷ ms) addr =
    let later = decode_from (suc i) ms addr in if port_contains m addr then some i else later

unfoldable pub decode_port : List PortMapping → ℕ → Option ℕ
decode_port ms addr = decode_from 0 ms addr

-- The port at a place of the array.
unfoldable pub port_at : List PortMapping → ℕ → Option PortMapping
port_at [] i = none
port_at (m ∷ ms) zero = some m
port_at (m ∷ ms) (suc i) = port_at ms i

module _ {S : Type 0} (isocks : ℕ → Payload → S → Payload × S) where
  -- The access goes on to the target of a port, at its local address.
  unfoldable pub forward : ℕ → Payload → S → Option PortMapping → Payload × S
  forward id trans s none = (trans, s)
  forward id trans s (some m) =
      isocks id (record trans { address = global_to_local m trans.address }) s

  unfoldable pub send : List PortMapping → Payload → S → Option ℕ → Payload × S
  send ms trans s none = (record trans { address_error = true }, s)
  send ms trans s (some id) = forward id trans s (port_at ms id)

  -- `SimpleBus::transport`, over what the targets do with an access.
  unfoldable pub bus_transport : List PortMapping → Payload → S → Payload × S
  bus_transport ms trans s = send ms trans s (decode_port ms trans.address)

-- A `RegisterRange` over the state `S` of its device, which has its bytes. Its callbacks get the
-- local address and the length; a callback that fails an assertion is `none`.
pub record RegisterRange (S : Type 0) : Type 0 where
  pub start : ℕ
  pub size : ℕ
  pub readonly : Bool
  pub alignment : ℕ
  pub mem : S → ℕ → ℕ
  pub set_mem : (ℕ → ℕ) → S → S
  pub pre_write_callback : ℕ → ℕ → S → Option (Bool × S)
  pub post_write_callback : ℕ → ℕ → S → Option S
  pub pre_read_callback : ℕ → ℕ → S → Option (Bool × S)
  pub post_read_callback : ℕ → ℕ → S → Option S

-- Bytes with those of `src` from `dst` on.
abbrev pub memcpy : (ℕ → ℕ) → ℕ → (ℕ → ℕ) → ℕ → ℕ → ℕ
memcpy mem dst src len = λ a. if leb dst a && ltb a (dst + len) then src (a - dst) else mem a

unfoldable pub finished : {S : Type 0} → Payload → Option S → Option (Payload × S)
finished trans none = none
finished trans (some s) = some (trans, s)

module _ {S : Type 0} (r : RegisterRange S) where
  unfoldable pub range_contains : ℕ → Bool
  range_contains addr = leb r.start addr && leb addr (r.start + r.size - 1)

  unfoldable pub to_local : ℕ → ℕ
  to_local addr = addr - r.start

  unfoldable pub finish_write : Payload → Option (Bool × S) → Option (Payload × S)
  finish_write trans none = none
  finish_write trans (some (false, s)) = some (trans, s)
  finish_write trans (some (true, s)) =
      let a = to_local trans.address in
      let t = r.set_mem (memcpy (r.mem s) a trans.data_ptr trans.data_length) s in
      finished trans (r.post_write_callback a trans.data_length t)

  unfoldable pub write_range : Payload → S → Option (Payload × S)
  write_range trans s =
      let a = to_local trans.address in
      if range_contains trans.address && leb (a + trans.data_length) r.size
      then finish_write trans (r.pre_write_callback a trans.data_length s)
      else none

  -- The payload has the bytes of the range in the end.
  unfoldable pub finish_read : Payload → Option (Bool × S) → Option (Payload × S)
  finish_read trans none = none
  finish_read trans (some (false, s)) = some (trans, s)
  finish_read trans (some (true, s)) =
      let a = to_local trans.address in
      let bytes = memcpy trans.data_ptr 0 (λ i. r.mem s (a + i)) trans.data_length in
      finished (record trans { data_ptr = bytes }) (r.post_read_callback a trans.data_length s)

  unfoldable pub read_range : Payload → S → Option (Payload × S)
  read_range trans s =
      let a = to_local trans.address in
      if range_contains trans.address && leb (a + trans.data_length) r.size
      then finish_read trans (r.pre_read_callback a trans.data_length s)
      else none

  unfoldable pub execute : Command → Payload → S → Option (Payload × S)
  execute read_command trans s = read_range trans s
  execute write_command trans s = if r.readonly then none else write_range trans s

  -- A thrown `runtime_error` is `none`, too.
  unfoldable pub process : Payload → S → Option (Payload × S)
  process trans s =
      if (trans.address % r.alignment == 0) && (trans.data_length % r.alignment == 0)
      then execute trans.command trans s
      else none

unfoldable pub route : {S : Type 0} → List (RegisterRange S) → Payload → S → Option (Payload × S)
route [] trans s = none
route (r ∷ rs) trans s =
    let later = route rs trans s in
    if range_contains r trans.address then process r trans s else later

-- The flag `read_only` is read by `get_direct_mem_ptr` only.
pub record SimpleMemory : Type 0 where
  pub bytes : ℕ → ℕ
  pub size : ℕ

-- `write_data`, whose parameters and whose sum are `unsigned`.
unfoldable pub write_data : ℕ → (ℕ → ℕ) → ℕ → SimpleMemory → Option SimpleMemory
write_data addr src num_bytes m =
    let written : SimpleMemory = record m { bytes = memcpy m.bytes addr src num_bytes } in
    if leb ((addr + num_bytes) % 2 ^ 32) m.size then some written else none

-- `read_data` into `dst`.
unfoldable pub read_data : ℕ → (ℕ → ℕ) → ℕ → SimpleMemory → Option (ℕ → ℕ)
read_data addr dst num_bytes m =
    if leb ((addr + num_bytes) % 2 ^ 32) m.size
    then some (memcpy dst 0 (λ i. m.bytes (addr + i)) num_bytes)
    else none

unfoldable pub read_into : Payload → SimpleMemory → Option (ℕ → ℕ) → Option (Payload × SimpleMemory)
read_into trans m none = none
read_into trans m (some bytes) = some (record trans { data_ptr = bytes }, m)

unfoldable pub access : Command → ℕ → Payload → SimpleMemory → Option (Payload × SimpleMemory)
access write_command addr trans m =
    finished trans (write_data addr trans.data_ptr trans.data_length m)
access read_command addr trans m =
    read_into trans m (read_data addr trans.data_ptr trans.data_length m)

-- `SimpleMemory::transport_dbg`, which `transport` calls; the address is cut to 32 bits.
unfoldable pub transport_dbg : Payload → SimpleMemory → Option (Payload × SimpleMemory)
transport_dbg trans m =
    let addr = trans.address % 2 ^ 32 in
    if ltb addr m.size then access trans.command addr trans m else none
