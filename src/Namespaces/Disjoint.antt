-- ===== src/Namespaces/Disjoint.antt =====
-- The indices of the namespaces, and the addresses that they give.
use hydrascale.Common.{
  ℕ, ◌+◌, ◌-◌, ◌*◌, ◌≤◌, ◌<◌, true, ◌≡◌, ◌≢◌, refl, some, List, [], ◌∷◌, ◌++◌, Text, txt, text_eq,
  same_text, arith, ok,
}
use hydrascale.Namespaces.{
  namespace_name, tailnet_from_namespace, veth_index, listen_port, Blocks, host_ip, ns_ip, VethIps,
  veth_ips,
}

-- The tailnet of a namespace name is read back from it.
pub tailnet_from_namespace-namespace_name :
    (id : Text) → id ≢ [] → tailnet_from_namespace (namespace_name id) ≡ id
unfolding tailnet_from_namespace namespace_name same_text
tailnet_from_namespace-namespace_name [] h = absurd (h refl)
tailnet_from_namespace-namespace_name (c ∷ s) h = refl

-- An index is between 1 and 254, and the listen port that it gives is a port above that of the host.
pub veth_index-listen_port :
    (sha256 : Text → List ℕ) (ns : Text)
    → (1 ≤ veth_index sha256 ns)
      × (veth_index sha256 ns ≤ 254)
      × (41642 ≤ listen_port (veth_index sha256 ns))
      × (listen_port (veth_index sha256 ns) ≤ 41895)
unfolding veth_index listen_port
veth_index-listen_port sha256 ns = (omega arith, omega arith, omega arith, omega arith)

host_ip_within :
    (base index : ℕ)
    → base + 65536 ≤ 4294967296
    → 1 ≤ index
    → index ≤ 254
    → (base ≤ host_ip base index)
      × (ns_ip base index < base + 65536)
      × (host_ip base index + 1 ≡ ns_ip base index)
      × (host_ip base index ≡ base + (index - 1) * 4 + 1)
unfolding host_ip ns_ip
host_ip_within base index wide low high = (
  omega (arith, wide, low, high),
  omega (arith, wide, low, high),
  omega (arith, wide, low, high),
  omega (arith, wide, low, high),
)

-- The addresses that an index gives.
abbrev pair : Blocks → ℕ → ℕ → VethIps
pair env base index = record {
  host_address = env.ip_string (host_ip base index) ++ txt "/30";
  ns_address = env.ip_string (ns_ip base index) ++ txt "/30";
  host_gateway = env.ip_string (host_ip base index);
  ns_gateway = env.ip_string (ns_ip base index);
}

-- A block of at least 65536 addresses gives every index its addresses, and two namespaces of different
-- indices share none of them.
pub veth_ips_disjoint :
    (env : Blocks) (subnet : Text) (base i j : ℕ)
    → env.base_of subnet ≡ some base
    → base + 65536 ≤ 4294967296
    → ((ip : ℕ) → base ≤ ip → ip < base + 65536 → env.holds subnet ip ≡ true)
    → ((a b : ℕ) → a < 4294967296 → b < 4294967296 → env.ip_string a ≡ env.ip_string b → a ≡ b)
    → 1 ≤ i
    → i ≤ 254
    → 1 ≤ j
    → j ≤ 254
    → i ≢ j
    → (p : VethIps) × (q : VethIps) × (veth_ips env subnet i ≡ ok p)
      × (veth_ips env subnet j ≡ ok q)
      × (p.host_gateway ≢ q.host_gateway)
      × (p.host_gateway ≢ q.ns_gateway)
      × (p.ns_gateway ≢ q.ns_gateway)
unfolding veth_ips
veth_ips_disjoint env subnet base i j known wide held injective il ih jl jh other =
    let (ia, ib, ic, id) = host_ip_within base i wide il ih in
    let (ja, jb, jc, jd) = host_ip_within base j wide jl jh in
    let h1 : env.holds subnet (host_ip base i) ≡ true =
      held (host_ip base i) ia (omega (arith, ib, ic)) in
    let n1 : env.holds subnet (ns_ip base i) ≡ true =
      held (ns_ip base i) (omega (arith, ia, ic)) ib in
    let h2 : env.holds subnet (host_ip base j) ≡ true =
      held (host_ip base j) ja (omega (arith, jb, jc)) in
    let n2 : env.holds subnet (ns_ip base j) ≡ true =
      held (ns_ip base j) (omega (arith, ja, jc)) jb in
    (
      pair env base i,
      pair env base j,
      rw (known, veth_ips) (rw (h1, n1) refl),
      rw (known, veth_ips) (rw (h2, n2) refl),
      λ e. ground (
        arith,
        injective (host_ip base i) (host_ip base j) (omega (arith, ib, ic, wide))
            (omega (arith, jb, jc, wide)) e,
        ic,
        id,
        jc,
        jd,
        other,
        il,
        jl,
      ),
      λ e. ground (
        arith,
        injective (host_ip base i) (ns_ip base j) (omega (arith, ib, ic, wide))
            (omega (arith, jb, jc, wide)) e,
        ic,
        id,
        jc,
        jd,
        other,
        il,
        jl,
      ),
      λ e. ground (
        arith,
        injective (ns_ip base i) (ns_ip base j) (omega (arith, ib, ic, wide))
            (omega (arith, jb, jc, wide)) e,
        ic,
        id,
        jc,
        jd,
        other,
        il,
        jl,
      ),
    )
