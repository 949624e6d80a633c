-- ===== src/Access/Compile/HostRanges.antt =====
-- The ranges that CompileIPv6 takes the prefixes of the host for.
use Prim.Native.Nat.{bit_or}
use hydrascale.Common.{
  ℕ, zero, suc, ◌+◌, ◌-◌, ◌*◌, ◌^◌, ◌≤◌, ◌<◌, Bool, true, ◌≡◌, refl, ◌∙◌, some, List, [], ◌∷◌, ◌++◌,
  Text, txt, eqb, ok, bind_parts, Option-cases, Bool-cases, inl, inr, ◌&&◌, arith,
}
use hydrascale.Access.Compile.{Net, prefix_range, last_address, host_ranges}

-- A byte of a network address and of its mask: the mask has k zero bits at the end, and so has the
-- address.
abbrev pub IsMaskedByte : ℕ → ℕ → Type 0
IsMaskedByte a m =
    (k : ℕ) × (high : ℕ) × (k ≤ 8) × (high < 2 ^ (8 - k)) × (m ≡ 256 - 2 ^ k) × (a ≡ high * 2 ^ k)

-- The bytes of a masked network address and of its mask.
unfoldable pub IsNetwork : List ℕ → List ℕ → Type 0
IsNetwork [] mask = Unit
IsNetwork (a ∷ ip) [] = Unit
IsNetwork (a ∷ ip) (m ∷ mask) = IsMaskedByte a m × IsNetwork ip mask

-- The last address of a network: the host part of each byte is added to it.
unfoldable pub top_address : List ℕ → List ℕ → List ℕ
top_address [] mask = []
top_address (a ∷ ip) [] = []
top_address (a ∷ ip) (m ∷ mask) = (a + (255 - m)) ∷ top_address ip mask

-- The ranges of a list of prefixes, one for each and in order.
unfoldable pub AreRanges : Net → List Text → List Text → Type 0
unfolding top_address
AreRanges net [] [] = Unit
AreRanges net [] (range ∷ ranges) = ⊥
AreRanges net (prefix ∷ prefixes) [] = ⊥
AreRanges net (prefix ∷ prefixes) (range ∷ ranges) =
    ((ip : List ℕ) × (mask : List ℕ) × (net.parse_cidr prefix ≡ some (ip, mask))
      × (range ≡ net.ip_string ip ++ (txt "-" ++ net.ip_string (top_address ip mask))))
    × AreRanges net prefixes ranges

-- The bits of a host part lie under those of a network byte.
under : ℕ → ℕ → Bool
under k high =
    eqb (bit_or (high * 2 ^ k) (255 - (256 - 2 ^ k))) (high * 2 ^ k + (255 - (256 - 2 ^ k)))

-- A test on every number below a bound.
every : ℕ → (ℕ → Bool) → Bool
every zero p = true
every (suc n) p = let rest = every n p in p n && rest

every_lem : (n : ℕ) (p : ℕ → Bool) → every n p ≡ true → (i : ℕ) → i < n → p i ≡ true
unfolding every
every_lem zero p h i small = absurd (omega (arith, small))
every_lem (suc n) p h i small = elim (Bool-cases (eqb i n)) [
  | inl same ↦ (let e : i ≡ n = ground (arith, same) in rw e (ground (arith, h)))
  | inr other ↦ every_lem n p (ground (arith, h)) i (ground (arith, other, small))
]

-- The 511 network bytes of the nine masks.
under-every : every 9 (λ k. every (2 ^ (8 - k)) (under k)) ≡ true
unfolding every under
under-every = refl

bit_or-under :
    (k high : ℕ)
    → k ≤ 8
    → high < 2 ^ (8 - k)
    → bit_or (high * 2 ^ k) (255 - (256 - 2 ^ k)) ≡ high * 2 ^ k + (255 - (256 - 2 ^ k))
unfolding under
bit_or-under k high small low =
    let row =
      every_lem 9 (λ k. every (2 ^ (8 - k)) (under k)) under-every k (omega (arith, small)) in
    let fact : under k high ≡ true = every_lem (2 ^ (8 - k)) (under k) row high low in
    ground (arith, fact)

last_address-top_address :
    (ip mask : List ℕ) → IsNetwork ip mask → last_address ip mask ≡ top_address ip mask
unfolding last_address top_address IsNetwork
last_address-top_address [] mask h = refl
last_address-top_address (a ∷ ip) [] h = refl
last_address-top_address (a ∷ ip) (m ∷ mask) ((k, high, small, low, em, ea), rest) =
    rw (ea, em, bit_or-under k high small low, last_address-top_address ip mask rest) refl

pub host_ranges-AreRanges :
    (net : Net)
    → ((prefix : Text) (ip mask : List ℕ)
        → net.parse_cidr prefix ≡ some (ip, mask)
        → IsNetwork ip mask)
    → (prefixes ranges : List Text) → host_ranges net prefixes ≡ ok ranges
    → AreRanges net prefixes ranges
unfolding host_ranges prefix_range AreRanges
host_ranges-AreRanges net masked [] [] h = tt
host_ranges-AreRanges net masked [] (r ∷ rs) h = absurd (ground (arith, h))
host_ranges-AreRanges net masked (prefix ∷ prefixes) ranges h =
    let (r, first, h2) = bind_parts (prefix_range net prefix) _ h in
    let (rs, more, h3) = bind_parts (host_ranges net prefixes) _ h2 in
    elim (Option-cases (net.parse_cidr prefix)) [
      | inl bad ↦ absurd (ground (arith, first, bad))
      | inr ((ip, mask), parsed) ↦
          let top = last_address-top_address ip mask (masked prefix ip mask parsed) in
          let e : r ∷ rs ≡ ranges = ground (arith, h3) in
          let text : r ≡ net.ip_string ip ++ (txt "-" ++ net.ip_string (last_address ip mask)) =
            ground (arith, first, parsed) in
          rw (← e) (
            (ip, mask, parsed, text ∙ rw top refl),
            host_ranges-AreRanges net masked prefixes rs more,
          )
    ]
