-- ===== src/Bus/Tests.antt =====
-- A bus of two ports at a concrete access.
use riscv_vp.Base.{
  ℕ, zero, suc, ◌≡◌, refl, sym, subst, true, false, ◌+◌, Option, none, some, List, [], ◌∷◌, arith,
}
use riscv_vp.Bus.{
  Payload, write_command, read_command, PortMapping, port_contains, port_at, bus_transport,
  SimpleMemory, transport_dbg, access, write_data, read_data, read_into, finished,
}
use riscv_vp.Bus.Routes.{Disjoint, Routed, bus_transport-Routed}

abbrev clint_port : PortMapping
clint_port = record { start = 0x2000000; end = 0x200ffff }

abbrev memory_port : PortMapping
memory_port = record { start = 0; end = 0x1ffffff }

abbrev ports : List PortMapping
ports = clint_port ∷ memory_port ∷ []

apart :
    (addr : ℕ) (m n : PortMapping)
    → clint_port ≡ m
    → memory_port ≡ n
    → port_contains m addr ≡ true
    → port_contains n addr ≡ true
    → ⊥
unfolding port_contains
apart addr m n e f c d =
    let k : port_contains clint_port addr ≡ true =
      subst (λ x. port_contains x addr ≡ true) (sym e) c in
    let l : port_contains memory_port addr ≡ true =
      subst (λ x. port_contains x addr ≡ true) (sym f) d in
    ground arith

ports-Disjoint : Disjoint ports
unfolding port_at port_contains
ports-Disjoint zero zero addr m n p q c d = refl
ports-Disjoint zero (suc zero) addr m n p q c d = absurd (apart addr m n (cc) (cc) c d)
ports-Disjoint zero (suc (suc j)) addr m n p q c d = cc
ports-Disjoint (suc zero) zero addr m n p q c d = absurd (apart addr n m (cc) (cc) d c)
ports-Disjoint (suc zero) (suc zero) addr m n p q c d = refl
ports-Disjoint (suc zero) (suc (suc j)) addr m n p q c d = cc
ports-Disjoint (suc (suc i)) j addr m n p q c d = cc

abbrev word : Payload
word = record {
  command = write_command;
  address = 0x1000;
  data_length = 4;
  data_ptr = λ i. 7 + i;
  address_error = false;
}

-- The targets add up the addresses that they get.
abbrev adding : ℕ → Payload → ℕ → Payload × ℕ
adding id trans s = (trans, s + trans.address)

bus_transport-Routed_example : Routed adding ports word 0 (bus_transport adding ports word 0)
bus_transport-Routed_example = bus_transport-Routed adding ports word 0 ports-Disjoint

abbrev ram : SimpleMemory
ram = record { bytes = λ a. 0; size = 0x2000 }

abbrev first_byte : Option (Payload × SimpleMemory) → Option ℕ
first_byte none = none
first_byte (some (trans, m)) = some (trans.data_ptr 0)

-- The byte that a read of the memory gives, after a write.
abbrev first_read : Option (Payload × SimpleMemory) → Option ℕ
first_read none = none
first_read (some (trans, m)) =
    first_byte (transport_dbg (record word { address = 0x1001; command = read_command }) m)

written-read : first_read (transport_dbg word ram) ≡ some 8
unfolding transport_dbg access write_data finished read_data read_into
written-read = refl
