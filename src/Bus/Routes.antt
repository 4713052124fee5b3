-- ===== src/Bus/Routes.antt =====
-- Where the bus sends an access (`SimpleBus` of vp/src/platform/common/bus.h).
use riscv_vp.Base.{
  ℕ, zero, suc, ◌+◌, ◌-◌, ◌≡◌, ◌≢◌, ◌⊎◌, inl, inr, refl, subst, true, false, Option, none, some,
  List, [], ◌∷◌, arith, Bool-cases,
}
use riscv_vp.Bus.{
  Payload, PortMapping, port_contains, global_to_local, decode_from, decode_port, port_at, forward,
  send, bus_transport,
}

-- No address lies in two ports.
abbrev pub Disjoint : List PortMapping → Type 0
Disjoint ms =
    (i j addr : ℕ) (m n : PortMapping)
    → port_at ms i ≡ some m
    → port_at ms j ≡ some n
    → port_contains m addr ≡ true
    → port_contains n addr ≡ true
    → i ≡ j

-- What `decode` finds: a port that has the address, or that none has it.
abbrev pub Decoded : List PortMapping → ℕ → ℕ → Option ℕ → Type 0
Decoded ms base addr none =
    (i : ℕ) (m : PortMapping) → port_at ms i ≡ some m → port_contains m addr ≡ false
Decoded ms base addr (some id) =
    (i : ℕ) × (m : PortMapping) × (id ≡ base + i)
    × (port_at ms i ≡ some m)
    × (port_contains m addr ≡ true)

none_later :
    (m : PortMapping) (ms : List PortMapping) (addr : ℕ)
    → port_contains m addr ≡ false
    → ((i : ℕ) (n : PortMapping) → port_at ms i ≡ some n → port_contains n addr ≡ false)
    → (i : ℕ) (n : PortMapping) → port_at (m ∷ ms) i ≡ some n
    → port_contains n addr ≡ false
unfolding port_at
none_later m ms addr c h zero n e =
    let q : m ≡ n = cc in subst (λ x. port_contains x addr ≡ false) q c
none_later m ms addr c h (suc i) n e = h i n e

later-Decoded :
    (base : ℕ) (m : PortMapping) (ms : List PortMapping) (addr : ℕ) (o : Option ℕ)
    → port_contains m addr ≡ false
    → Decoded ms (suc base) addr o
    → Decoded (m ∷ ms) base addr o
unfolding port_at
later-Decoded base m ms addr none c h = none_later m ms addr c h
later-Decoded base m ms addr (some id) c h = (suc h.0, h.1, omega (arith, h.2), h.3, h.4)

decode_from-Decoded :
    (base : ℕ) (ms : List PortMapping) (addr : ℕ) → Decoded ms base addr (decode_from base ms addr)
unfolding decode_from port_at
decode_from-Decoded base [] addr = λ i m e. cc
decode_from-Decoded base (m ∷ ms) addr = elim (Bool-cases (port_contains m addr)) [
  | inl c ↦ rw c (0, m, omega arith, refl, c)
  | inr c ↦ rw c (
      later-Decoded base m ms addr (decode_from (suc base) ms addr) c
        (decode_from-Decoded (suc base) ms addr))
]

-- What the bus does with an access: the one port that has its address gets it, at the local address,
-- or no port has it and the access is marked.
abbrev pub Routed :
    {S : Type 0}
    → (ℕ → Payload → S → Payload × S)
    → List PortMapping
    → Payload
    → S
    → Payload × S
    → Type 0
Routed isocks ms trans s w =
    ((i : ℕ) × (m : PortMapping) × (port_at ms i ≡ some m)
      × (port_contains m trans.address ≡ true)
      × ((j : ℕ) (n : PortMapping)
          → port_at ms j ≡ some n
          → j ≢ i
          → port_contains n trans.address ≡ false)
      × (w ≡ isocks i (record trans { address = trans.address - m.start }) s))
    ⊎ (((j : ℕ) (n : PortMapping) → port_at ms j ≡ some n → port_contains n trans.address ≡ false)
        × (w ≡ (record trans { address_error = true }, s)))

send-Routed :
    {S : Type 0} (isocks : ℕ → Payload → S → Payload × S) (ms : List PortMapping) (trans : Payload)
    (s : S) (o : Option ℕ)
    → Disjoint ms
    → Decoded ms 0 trans.address o
    → Routed isocks ms trans s (send isocks ms trans s o)
unfolding send forward global_to_local
send-Routed isocks ms trans s none d h = inr (h, refl)
send-Routed isocks ms trans s (some id) d h =
    let i = h.0 in
    let m = h.1 in
    let p = h.3 in
    let c = h.4 in
    let q : id ≡ i = omega (arith, h.2) in
    inl (
      i,
      m,
      p,
      c,
      (λ j n k u. elim (Bool-cases (port_contains n trans.address)) [
        | inr f ↦ f
        | inl f ↦ absurd (u (d j i trans.address n m k p f c))
      ]),
      rw (q, p) refl,
    )

-- On a bus whose ports are disjoint, an access goes to the target of the one port that has its address, with
-- that address from the start of the port, whatever the order of the ports; if no port has it, the
-- access is marked as an address error and no target sees it.
pub bus_transport-Routed :
    {S : Type 0} (isocks : ℕ → Payload → S → Payload × S) (ms : List PortMapping) (trans : Payload)
    (s : S)
    → Disjoint ms
    → Routed isocks ms trans s (bus_transport isocks ms trans s)
unfolding bus_transport decode_port
bus_transport-Routed isocks ms trans s d =
    send-Routed isocks ms trans s (decode_port ms trans.address) d
      (decode_from-Decoded 0 ms trans.address)
