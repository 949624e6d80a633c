-- ===== src/Access/Ports.antt =====
-- internal/access/rules.go: the port entries of a rule, such as tcp/22 or udp/1-1024.
pub mod Forms
use hydrascale.Common.{
  ℕ, ◌+◌, ◌≤◌, ◌≡◌, refl, Bool, true, false, ◌&&◌, ◌||◌, Option, none, some, List, [], ◌∷◌, ◌++◌,
  Text, txt, text_eq, ◌==◌, ltb, leb, eqb, if◌then◌else◌, is_digit, value, itoa, length, not,
  same_text, Result, ok, err, ◌>>=◌, ◌>>◌, refuse_if,
}

pub data PortError : Type 0 where
  bad_form out_of_range reversed is_range : Text → PortError

pub record Port : Type 0 where
  pub protocol : Text
  pub low : ℕ
  pub high : ℕ

abbrev pub tcp : Text
tcp = txt "tcp"

abbrev pub udp : Text
udp = txt "udp"

abbrev pub max_port : ℕ
max_port = 65535

-- The longest run of digits at the head of a text, and what follows it.
pub span_digits : Text → Text × Text
span_digits [] = ([], [])
span_digits (c ∷ s) =
    let (run, rest) = span_digits s in if is_digit c then (c ∷ run, rest) else ([], c ∷ s)

-- `[0-9]{1,5}`
abbrev number_length : Text → Bool
number_length s = leb 1 (length s) && leb (length s) 5

-- What follows the first number: the end of the entry, or a hyphen and a second number.
second_number : Text → Text → Text → Option (Text × Text × Text)
second_number protocol low [] = if number_length low then some (protocol, low, []) else none
second_number protocol low (c ∷ rest) =
    let (high, end) = span_digits rest in
    if number_length low && eqb c b'-' && number_length high && eqb (length end) 0
    then some (protocol, low, high)
    else none

numbers : Text → Text → Option (Text × Text × Text)
unfolding second_number span_digits
numbers protocol s = let (low, rest) = span_digits s in second_number protocol low rest

-- `portPattern.FindStringSubmatch`: the protocol, the first number, and the second one, which is
-- empty where the entry holds one number.
pub find_submatch : Text → Option (Text × Text × Text)
unfolding numbers
find_submatch (a ∷ b ∷ c ∷ slash ∷ s) =
    if eqb slash b'/'
    then (if (a ∷ b ∷ c ∷ []) == tcp
        then numbers tcp s
        else if (a ∷ b ∷ c ∷ []) == udp
        then numbers udp s
        else none)
    else none
find_submatch _ = none

in_port_range : ℕ → Bool
in_port_range n = leb 1 n && leb n max_port

-- The second half of `parsePort`: `match[3]`, where it is not empty.
second_port : Text → Text → ℕ → Text → Result PortError Port
unfolding in_port_range
second_port entry protocol low [] = ok (record { protocol = protocol; low = low; high = low })
second_port entry protocol low (c ∷ s) = do
  let high = value (c ∷ s) 0
  refuse_if (not (in_port_range high)) (out_of_range entry)
  refuse_if (ltb high low) (reversed entry)
  ok (record { protocol = protocol; low = low; high = high })

checked_port : Text → Text × Text × Text → Result PortError Port
unfolding in_port_range second_port
checked_port entry (protocol, low_text, high_text) = do
  let low = value low_text 0
  refuse_if (not (in_port_range low)) (out_of_range entry)
  second_port entry protocol low high_text

unfoldable pub parse_port : Text → Result PortError Port
unfolding find_submatch checked_port value
parse_port entry = elim (find_submatch entry) [
  | none ↦ err (bad_form entry)
  | some found ↦ checked_port entry found
]

-- The parser accepts the entry.
abbrev pub Parses : Text → Type 0
Parses entry = (q : Port) × (parse_port entry ≡ ok q)

-- `port.match`: the iptables arguments that select the entry.
unfoldable pub match : Port → List Text
match p =
    txt "-p"
    ∷ p.protocol
    ∷ txt "--dport"
    ∷ (if eqb p.high p.low then itoa p.low else itoa p.low ++ txt ":" ++ itoa p.high)
    ∷ []

pub record PublishedPort : Type 0 where
  pub protocol : Text
  pub number : ℕ

unfoldable pub parse_publish_port : Text → Result PortError PublishedPort
parse_publish_port entry = do
  p ← parse_port entry
  refuse_if (not (eqb p.high p.low)) (is_range entry)
  ok (record { protocol = p.protocol; number = p.low })

parse_port_forms :
    (parse_port (txt "tcp/22") ≡ ok (record { protocol = tcp; low = 22; high = 22 }))
    × (parse_port (txt "udp/1-1024") ≡ ok (record { protocol = udp; low = 1; high = 1024 }))
    × (parse_port (txt "tcp/0022") ≡ ok (record { protocol = tcp; low = 22; high = 22 }))
unfolding parse_port same_text
parse_port_forms = (refl, refl, refl)

parse_port_errors :
    (parse_port (txt "icmp/1") ≡ err (bad_form (txt "icmp/1")))
    × (parse_port (txt "tcp/000022") ≡ err (bad_form (txt "tcp/000022")))
    × (parse_port (txt "tcp/0") ≡ err (out_of_range (txt "tcp/0")))
    × (parse_port (txt "tcp/1-65536") ≡ err (out_of_range (txt "tcp/1-65536")))
    × (parse_port (txt "tcp/9-8") ≡ err (reversed (txt "tcp/9-8")))
unfolding parse_port same_text
parse_port_errors = (refl, refl, refl, refl, refl)
