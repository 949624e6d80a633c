-- ===== src/Access/Ports/Forms.antt =====
-- The port entries that the parser accepts, and the ports that it returns.
use hydrascale.Common.{
  ℕ, ◌≤◌, ◌≡◌, ◌⊎◌, inl, inr, refl, false, some, [], ◌∷◌, ◌++◌, append-nil, Text, txt, text_eq,
  same_text, ◌==◌, eqb, if◌then◌else◌, is_digit, IsDigit, value, itoa, value-itoa, itoa-IsDigit,
  length-itoa, length, All, ok, arith, Bool-cases, Option-cases,
}
use hydrascale.Access.Ports.{
  Port, tcp, udp, max_port, span_digits, second_number, numbers, find_submatch, second_port,
  checked_port, parse_port,
}

-- A port entry names tcp or udp and a range within 1 to 65535.
pub record IsPort (q : Port) : Type 0 where
  pub protocol : (q.protocol ≡ tcp) ⊎ (q.protocol ≡ udp)
  pub low : 1 ≤ q.low
  pub ordered : q.low ≤ q.high
  pub high : q.high ≤ max_port

checked_port-IsPort :
    (entry protocol low_text high_text : Text) (q : Port)
    → (protocol ≡ tcp) ⊎ (protocol ≡ udp)
    → checked_port entry (protocol, low_text, high_text) ≡ ok q
    → IsPort q
unfolding checked_port
checked_port-IsPort entry protocol low_text [] q known h = ground arith
checked_port-IsPort entry protocol low_text (c ∷ s) q known h = ground arith

second_number-protocol :
    (protocol low rest : Text) {found : Text × Text × Text}
    → second_number protocol low rest ≡ some found
    → found.0 ≡ protocol
unfolding second_number
second_number-protocol protocol low [] h = ground arith
second_number-protocol protocol low (c ∷ rest) h = ground arith

numbers-protocol :
    (protocol s : Text) (found : Text × Text × Text)
    → numbers protocol s ≡ some found
    → found.0 ≡ protocol
unfolding numbers
numbers-protocol protocol s found h =
    second_number-protocol protocol (span_digits s).0 (span_digits s).1 h

find_submatch-protocol :
    (entry : Text) (found : Text × Text × Text)
    → find_submatch entry ≡ some found
    → (found.0 ≡ tcp) ⊎ (found.0 ≡ udp)
unfolding find_submatch
find_submatch-protocol (a ∷ b ∷ c ∷ slash ∷ s) found h = elim (Bool-cases (eqb slash b'/')) [
  | inl cut ↦ elim (Bool-cases ((a ∷ b ∷ c ∷ []) == tcp)) [
    | inl t ↦ inl (numbers-protocol tcp s found (rw (cut, t, find_submatch) at h))
    | inr t ↦ elim (Bool-cases ((a ∷ b ∷ c ∷ []) == udp)) [
      | inl u ↦ inr (numbers-protocol udp s found (rw (cut, t, u, find_submatch) at h))
      | inr u ↦ absurd (ground (arith, cut, t, u))
    ]
  ]
  | inr other ↦ absurd (ground (arith, other))
]
find_submatch-protocol _ found h = cc

-- An entry that the parser accepts names tcp or udp and a range within 1 to 65535.
pub parse_port-IsPort : (entry : Text) (q : Port) → parse_port entry ≡ ok q → IsPort q
unfolding parse_port
parse_port-IsPort entry q h = elim (Option-cases (find_submatch entry)) [
  | inl e ↦ absurd (ground (arith, e))
  | inr (found, e) ↦
      checked_port-IsPort entry found.0 found.1 found.2 q (find_submatch-protocol entry found e)
        (rw (e, parse_port) at h)
]

span_digits-append :
    (ds : Text) (c : ℕ) (rest : Text)
    → All IsDigit ds
    → is_digit c ≡ false
    → span_digits (ds ++ c ∷ rest) ≡ (ds, c ∷ rest)
unfolding span_digits
span_digits-append [] c rest h other = rw other
span_digits-append (d ∷ ds) c rest (hd, h) other =
    ground (arith, span_digits-append ds c rest h other)

span_digits_whole : (ds : Text) → All IsDigit ds → span_digits ds ≡ (ds, [])
unfolding span_digits
span_digits_whole [] h = refl
span_digits_whole (d ∷ ds) (hd, h) = ground (arith, span_digits_whole ds h)

numbers_single :
    (protocol : Text) (n : ℕ)
    → n ≤ max_port
    → numbers protocol (itoa n) ≡ some (protocol, itoa n, [])
unfolding numbers
numbers_single protocol n h =
    rw (span_digits_whole (itoa n) (itoa-IsDigit n)) (ground (arith, length-itoa n))

numbers_range :
    (protocol : Text) (m n : ℕ)
    → m ≤ max_port
    → n ≤ max_port
    → numbers protocol (itoa m ++ (txt "-" ++ itoa n)) ≡ some (protocol, itoa m, itoa n)
unfolding numbers
numbers_range protocol m n hm hn =
    rw
      (
        span_digits-append (itoa m) b'-' (itoa n) (itoa-IsDigit m) refl,
        span_digits_whole (itoa n) (itoa-IsDigit n),
      )
      (ground (arith, length-itoa m, length-itoa n))

-- `match[3]` where it is not empty.
second_port_lem :
    (entry protocol : Text) (low : ℕ) (s : Text)
    → 1 ≤ length s
    → low ≤ value s 0
    → value s 0 ≤ max_port
    → 1 ≤ low
    → second_port entry protocol low s
      ≡ ok (record { protocol = protocol; low = low; high = value s 0 })
unfolding second_port
second_port_lem entry protocol low [] h ordered top bottom = absurd (omega arith)
second_port_lem entry protocol low (c ∷ s) h ordered top bottom = ground arith

-- The entry that spells a port, as the configuration file holds it.
abbrev pub spell : Port → Text
spell q =
    q.protocol
    ++ (txt "/" ++ (itoa q.low ++ (if eqb q.high q.low then [] else txt "-" ++ itoa q.high)))

abbrev found_numbers : Port → Text × Text × Text
found_numbers q = (q.protocol, itoa q.low, if eqb q.high q.low then [] else itoa q.high)

numbers_lem :
    (q : Port)
    → IsPort q
    → numbers q.protocol (itoa q.low ++ (if eqb q.high q.low then [] else txt "-" ++ itoa q.high))
      ≡ some (found_numbers q)
numbers_lem q w = elim (Bool-cases (eqb q.high q.low)) [
  | inl single ↦
      rw (single, append-nil) (numbers_single q.protocol q.low (omega (arith, w.ordered, w.high)))
  | inr several ↦
      rw several (numbers_range q.protocol q.low q.high (omega (arith, w.ordered, w.high)) w.high)
]

checked_port_lem :
    (entry : Text) (q : Port) → IsPort q → checked_port entry (found_numbers q) ≡ ok q
unfolding checked_port
checked_port_lem entry q w = elim (Bool-cases (eqb q.high q.low)) [
  | inl single ↦ rw (value-itoa, single) (ground arith)
  | inr several ↦
      rw (value-itoa, several)
        (ground (
          arith,
          value-itoa q.high,
          length-itoa q.high,
          second_port_lem entry q.protocol q.low (itoa q.high),
        ))
]

find_submatch_lem : (q : Port) → IsPort q → find_submatch (spell q) ≡ some (found_numbers q)
unfolding find_submatch same_text
find_submatch_lem q w = elim w.protocol [
  | inl t ↦ rw t (rw t at (numbers_lem q w))
  | inr u ↦ rw u (rw u at (numbers_lem q w))
]

-- The parser reads the spelling of a port back.
pub parse_port-spell : (q : Port) → IsPort q → parse_port (spell q) ≡ ok q
unfolding parse_port
parse_port-spell q w = rw (find_submatch_lem q w, parse_port) (checked_port_lem (spell q) q w)
