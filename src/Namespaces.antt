-- ===== src/Namespaces.antt =====
-- internal/namespaces/ns.go: the names, the indices and the addresses of the namespaces.
pub mod Disjoint
pub mod Rules
pub mod Ipv6
pub mod Reap
mod Examples
use hydrascale.Common.{
  ℕ, zero, suc, ◌/◌, ltb, ◌+◌, ◌-◌, ◌*◌, ◌%◌, ◌^◌, ◌≤◌, Bool, true, false, not, ◌&&◌, ◌≡◌, refl,
  Option, none, some, List, [], ◌∷◌, ◌++◌, Text, txt, text_eq, ◌==◌, same_text, Result, ok, err,
  if◌then◌else◌, arith,
}

-- `GetNamespaceName`
unfoldable pub namespace_name : Text → Text
namespace_name id = txt "ns-" ++ id

-- `GetTailnetFromNamespace`
unfoldable pub tailnet_from_namespace : Text → Text
tailnet_from_namespace (a ∷ b ∷ c ∷ d ∷ s) = if (a ∷ b ∷ c ∷ []) == txt "ns-" then d ∷ s else []
tailnet_from_namespace _ = []

-- binary.BigEndian.Uint32 of the first four bytes.
unfoldable pub uint32_of : List ℕ → ℕ
uint32_of (a ∷ b ∷ c ∷ d ∷ s) = ((a * 256 + b) * 256 + c) * 256 + d
uint32_of _ = 0

-- `VethIndex`; `sha256` answers the bytes of the digest.
unfoldable pub veth_index : (Text → List ℕ) → Text → ℕ
veth_index sha256 ns = uint32_of (sha256 ns) % 254 + 1

abbrev pub listen_port_base : ℕ
listen_port_base = 41641

-- `ListenPort`
unfoldable pub listen_port : ℕ → ℕ
listen_port index = listen_port_base + index

-- The lower-case hexadecimal digit of a number below 16.
unfoldable pub hex_digit : ℕ → ℕ
hex_digit n = if ltb n 10 then 48 + n else 87 + n

-- The hexadecimal text of the first n bytes.
hex_prefix : ℕ → List ℕ → Text
unfolding hex_digit
hex_prefix zero bs = []
hex_prefix (suc n) [] = []
hex_prefix (suc n) (b ∷ bs) = hex_digit (b / 16) ∷ hex_digit (b % 16) ∷ hex_prefix n bs

-- `VethNames`, the device of the host and the device of the namespace.
unfoldable pub veth_names : (Text → List ℕ) → Text → Text × Text
unfolding hex_prefix
veth_names sha256 ns = let tag = hex_prefix 6 (sha256 ns) in (txt "vh" ++ tag, txt "vn" ++ tag)

-- The Go library on an IPv4 block: its base address as a number, whether it holds an address, and the
-- text of an address.
pub record Blocks : Type 0 where
  pub base_of : Text → Option ℕ
  pub holds : Text → ℕ → Bool
  pub ip_string : ℕ → Text

-- The two addresses of a veth pair as numbers of 32 bits.
unfoldable pub host_ip : ℕ → ℕ → ℕ
host_ip base index = (base + (index - 1) * 4 + 1) % 2 ^ 32

unfoldable pub ns_ip : ℕ → ℕ → ℕ
ns_ip base index = (base + (index - 1) * 4 + 2) % 2 ^ 32

pub record VethIps : Type 0 where
  pub host_address : Text
  pub ns_address : Text
  pub host_gateway : Text
  pub ns_gateway : Text

pub data VethError : Type 0 where
  bad_subnet : Text → VethError
  out_of_range : ℕ → Text → VethError

-- `VethIPs`.
unfoldable pub veth_ips : Blocks → Text → ℕ → Result VethError VethIps
veth_ips env subnet index = elim (env.base_of subnet) [
  | none ↦ err (bad_subnet subnet)
  | some base ↦
      let ip1 = host_ip base index in
      let ip2 = ns_ip base index in
      if not (env.holds subnet ip1 && env.holds subnet ip2)
      then err (out_of_range index subnet)
      else ok (record {
        host_address = env.ip_string ip1 ++ txt "/30";
        ns_address = env.ip_string ip2 ++ txt "/30";
        host_gateway = env.ip_string ip1;
        ns_gateway = env.ip_string ip2;
      })
]
