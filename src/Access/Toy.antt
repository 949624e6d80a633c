-- ===== src/Access/Toy.antt =====
-- A small packet filter that meets the interface of Access/Netfilter.antt.
use hydrascale.Common.{
  ℕ, Bool, true, false, ◌&&◌, ◌||◌, ◌≡◌, refl, sym, ◌∙◌, [], ◌∷◌, ◌++◌, Text, txt, text_eq,
  same_text, ◌==◌, ==_iff, append_assoc, leb, eqb, itoa, value, value-itoa, itoa-IsDigit, IsDigit,
  All, if◌then◌else◌, mem, arith, Bool-cases, inl, inr,
}
use mathlib.Core.Bool.{false≢true}
use hydrascale.Access.Netfilter.{Netfilter, Verdict, accept, drop, next, match_options}
use hydrascale.Access.Compile.{Args}

pub record ToyPacket : Type 0 where
  pub in_device : Text
  pub out_device : Text
  pub protocol : Text
  pub state : Text
  pub port : ℕ

abbrev pub has_colon : Text → Bool
has_colon [] = false
has_colon (c ∷ s) = eqb c b':' || has_colon s

-- The text before and after the first colon.
abbrev pub before_colon : Text → Text
before_colon [] = []
before_colon (c ∷ s) = let rest = before_colon s in if eqb c b':' then [] else c ∷ rest

abbrev pub after_colon : Text → Text
after_colon [] = []
after_colon (c ∷ s) = let rest = after_colon s in if eqb c b':' then s else rest

port_in : Text → ℕ → Bool
port_in s port =
    if has_colon s
    then leb (value (before_colon s) 0) port && leb port (value (after_colon s) 0)
    else eqb port (value s 0)

digits-no_colon : (s : Text) → All IsDigit s → has_colon s ≡ false
digits-no_colon [] h = refl
digits-no_colon (c ∷ s) (hc, h) = ground (arith, digits-no_colon s h)

has_colon-append : (s t : Text) → has_colon (s ++ b':' ∷ t) ≡ true
has_colon-append [] t = refl
has_colon-append (c ∷ s) t = ground (arith, has_colon-append s t)

before_colon-append : (s t : Text) → All IsDigit s → before_colon (s ++ b':' ∷ t) ≡ s
before_colon-append [] t h = refl
before_colon-append (c ∷ s) t (hc, h) = ground (arith, before_colon-append s t h)

after_colon-append : (s t : Text) → All IsDigit s → after_colon (s ++ b':' ∷ t) ≡ t
after_colon-append [] t h = refl
after_colon-append (c ∷ s) t (hc, h) = ground (arith, after_colon-append s t h)

unfoldable pub toy_holds : Text → Text → ToyPacket → Bool
unfolding port_in
toy_holds option value p =
    if option == txt "-i"
    then value == p.in_device
    else if option == txt "-o"
    then value == p.out_device
    else if option == txt "-p"
    then value == p.protocol
    else if option == txt "--ctstate"
    then value == p.state
    else if option == txt "--dport"
    then port_in value p.port
    else false

target_verdict : Text → Verdict
target_verdict target =
    if target == txt "ACCEPT" then accept else if target == txt "DROP" then drop else next

unfoldable pub toy_judge : Args → ToyPacket → Verdict
unfolding target_verdict
toy_judge [] p = next
toy_judge (a ∷ []) p = next
toy_judge (a ∷ b ∷ []) p = if a == txt "-j" then target_verdict b else next
toy_judge (a ∷ b ∷ c ∷ rest) p =
    let plain = toy_judge (c ∷ rest) p in
    let behind = toy_judge rest p in
    if a == txt "!"
    then (if toy_holds b c p then next else behind)
    else if a == txt "-m"
    then plain
    else if a == txt "-j"
    then target_verdict b
    else if toy_holds a b p
    then plain
    else next

not_reserved :
    (option reserved : Text)
    → mem reserved match_options ≡ false
    → mem option match_options ≡ true
    → (option == reserved) ≡ false
not_reserved option reserved none_such h = elim (Bool-cases (option == reserved)) [
  | inl same ↦
      let e : option ≡ reserved = (==_iff option reserved).0 same in
      absurd (false≢true (sym none_such ∙ rw e at h))
  | inr other ↦ other
]

pub toy_judge_option :
    (option value : Text) (rest : Args) (p : ToyPacket)
    → mem option match_options ≡ true
    → toy_judge (option ∷ value ∷ rest) p
      ≡ (if toy_holds option value p then toy_judge rest p else next)
unfolding toy_judge toy_holds same_text
toy_judge_option option v [] p h =
    rw (not_reserved option (txt "-j") refl h, toy_judge) (ground arith)
toy_judge_option option v (c ∷ rest) p h =
    rw
      (
        toy_judge,
        not_reserved option (txt "-j") refl h,
        not_reserved option (txt "-m") refl h,
        not_reserved option (txt "!") refl h,
      )
      refl

pub toy_judge_module :
    (name : Text) (rest : Args) (p : ToyPacket)
    → toy_judge (txt "-m" ∷ name ∷ rest) p ≡ toy_judge rest p
unfolding toy_judge same_text
toy_judge_module name [] p = refl
toy_judge_module name (c ∷ rest) p = refl

pub toy_holds_port : (n : ℕ) (p : ToyPacket) → toy_holds (txt "--dport") (itoa n) p ≡ eqb p.port n
unfolding toy_holds same_text
toy_holds_port n p = rw (digits-no_colon (itoa n) (itoa-IsDigit n), value-itoa)

pub toy_holds_ports :
    (low high : ℕ) (p : ToyPacket)
    → toy_holds (txt "--dport") (itoa low ++ txt ":" ++ itoa high) p
      ≡ (leb low p.port && leb p.port high)
unfolding toy_holds same_text
toy_holds_ports low high p =
    rw
      (
        append_assoc (itoa low) (txt ":") (itoa high),
        has_colon-append (itoa low) (itoa high),
        before_colon-append (itoa low) (itoa high) (itoa-IsDigit low),
        after_colon-append (itoa low) (itoa high) (itoa-IsDigit low),
        value-itoa low,
        value-itoa high,
      )
      refl

pub toy_judge_not :
    (option v : Text) (rest : Args) (p : ToyPacket)
    → mem option match_options ≡ true
    → toy_judge (txt "!" ∷ option ∷ v ∷ rest) p
      ≡ (if toy_holds option v p then next else toy_judge rest p)
unfolding toy_judge same_text
toy_judge_not option v rest p h = refl

pub toy_judge_jumps :
    (prefix : Text) (p : ToyPacket)
    → (toy_judge (txt "-j" ∷ txt "ACCEPT" ∷ []) p ≡ accept)
      × (toy_judge (txt "-j" ∷ txt "DROP" ∷ []) p ≡ drop)
      × (toy_judge (txt "-j" ∷ txt "LOG" ∷ txt "--log-prefix" ∷ prefix ∷ []) p ≡ next)
unfolding toy_judge same_text
toy_judge_jumps prefix p = (refl, refl, refl)

abbrev pub toy : Netfilter
toy = record {
  Packet = ToyPacket;
  holds = toy_holds;
  destination_port = λ p. p.port;
  judge = toy_judge;
  judge_option = toy_judge_option;
  judge_not = toy_judge_not;
  judge_module = toy_judge_module;
  judge_accept = λ p. (toy_judge_jumps [] p).0;
  judge_drop = λ p. (toy_judge_jumps [] p).1;
  judge_log = λ prefix p. (toy_judge_jumps prefix p).2;
  holds_port = toy_holds_port;
  holds_ports = toy_holds_ports;
}
