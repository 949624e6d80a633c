-- ===== src/Access/Netfilter.antt =====
-- The packet filter of the kernel, as an interface: what the documentation of iptables says of the
-- arguments that the compiler of internal/access/compile.go writes. No part of it is in the
-- repository.
use hydrascale.Common.{
  ℕ, Bool, true, false, not, ◌&&◌, ◌||◌, ◌≡◌, refl, List, [], ◌∷◌, ◌++◌, Text, txt, text_eq, leb,
  eqb, itoa, if◌then◌else◌, mem, sym, append_assoc, arith, ◌∙◌,
}
use hydrascale.Access.Compile.{Args}

pub data Verdict : Type 0 where
  accept drop next : Verdict

abbrev pub match_options : List Text
match_options =
    txt "-i"
    ∷ txt "-o"
    ∷ txt "-d"
    ∷ txt "-p"
    ∷ txt "--dport"
    ∷ txt "--ctstate"
    ∷ txt "--icmpv6-type"
    ∷ txt "--dst-range"
    ∷ txt "--limit"
    ∷ []

-- `judge` is the verdict of one rule without its `-A <chain>`; `next` goes on with the next rule.
pub record Netfilter : Type 1 where
  pub Packet : Type 0
  -- one match option with its value
  pub holds : Text → Text → Packet → Bool
  pub destination_port : Packet → ℕ
  pub judge : Args → Packet → Verdict
  pub judge_option :
      (option value : Text) (rest : Args) (p : Packet)
      → mem option match_options ≡ true
      → judge (option ∷ value ∷ rest) p ≡ (if holds option value p then judge rest p else next)
  pub judge_not :
      (option value : Text) (rest : Args) (p : Packet)
      → mem option match_options ≡ true
      → judge (txt "!" ∷ option ∷ value ∷ rest) p
        ≡ (if holds option value p then next else judge rest p)
  pub judge_module :
      (name : Text) (rest : Args) (p : Packet) → judge (txt "-m" ∷ name ∷ rest) p ≡ judge rest p
  pub judge_accept : (p : Packet) → judge (txt "-j" ∷ txt "ACCEPT" ∷ []) p ≡ accept
  pub judge_drop : (p : Packet) → judge (txt "-j" ∷ txt "DROP" ∷ []) p ≡ drop
  pub judge_log :
      (prefix : Text) (p : Packet)
      → judge (txt "-j" ∷ txt "LOG" ∷ txt "--log-prefix" ∷ prefix ∷ []) p ≡ next
  pub holds_port :
      (n : ℕ) (p : Packet) → holds (txt "--dport") (itoa n) p ≡ eqb (destination_port p) n
  pub holds_ports :
      (low high : ℕ) (p : Packet)
      → holds (txt "--dport") (itoa low ++ txt ":" ++ itoa high) p
        ≡ (leb low (destination_port p) && leb (destination_port p) high)

-- A verdict, and what follows where it is `next`.
abbrev pub or_else : Verdict → Verdict → Verdict
or_else accept v = accept
or_else drop v = drop
or_else next v = v

abbrev pub accept_if : Bool → Verdict
accept_if b = if b then accept else next

pub or_else_assoc : (u v w : Verdict) → or_else (or_else u v) w ≡ or_else u (or_else v w)
or_else_assoc accept v w = refl
or_else_assoc drop v w = refl
or_else_assoc next v w = refl

pub or_else_next : (v : Verdict) → or_else v next ≡ v
or_else_next accept = refl
or_else_next drop = refl
or_else_next next = refl

pub or_else-accept_if : (a b : Bool) → or_else (accept_if a) (accept_if b) ≡ accept_if (a || b)
or_else-accept_if a b = ground arith

module _ (nf : Netfilter) where
  open nf use {Packet, holds, judge, judge_option, judge_not, judge_module}

  -- The verdict of a rule with its `-A <chain>`.
  abbrev pub judge_rule : Args → Packet → Verdict
  judge_rule [] p = next
  judge_rule (a ∷ []) p = next
  judge_rule (a ∷ chain ∷ args) p = judge args p

  -- The rules of a chain in order; the first verdict counts.
  abbrev pub traverse : List Args → Packet → Verdict
  traverse [] p = next
  traverse (rule ∷ rules) p = or_else (judge_rule rule p) (traverse rules p)

  pub traverse-append :
      (xs ys : List Args) (p : Packet)
      → traverse (xs ++ ys) p ≡ or_else (traverse xs p) (traverse ys p)
  traverse-append [] ys p = refl
  traverse-append (x ∷ xs) ys p =
      rw (traverse-append xs ys p)
        (sym (or_else_assoc (judge_rule x p) (traverse xs p) (traverse ys p)))

  -- The arguments test `b`, and leave the verdict to what follows them.
  abbrev pub Tests : Args → Packet → Bool → Type 0
  Tests args p b = (rest : Args) → judge (args ++ rest) p ≡ (if b then judge rest p else next)

  pub Tests-append :
      (xs ys : Args) (p : Packet) (b c : Bool)
      → Tests xs p b
      → Tests ys p c
      → Tests (xs ++ ys) p (b && c)
  Tests-append xs ys p true c f g rest = rw (append_assoc xs ys rest) (f (ys ++ rest) ∙ g rest)
  Tests-append xs ys p false c f g rest = rw (append_assoc xs ys rest) (f (ys ++ rest))

  pub Tests-option :
      (option value : Text) (p : Packet)
      → mem option match_options ≡ true
      → Tests (option ∷ value ∷ []) p (holds option value p)
  Tests-option option value p h rest = judge_option option value rest p h

  pub Tests-not :
      (option value : Text) (p : Packet)
      → mem option match_options ≡ true
      → Tests (txt "!" ∷ option ∷ value ∷ []) p (not (holds option value p))
  Tests-not option value p h rest = rw (judge_not option value rest p h) (ground arith)

  -- One more match option in front.
  pub Tests-cons :
      (option value : Text) (args : Args) (p : Packet) (c : Bool)
      → mem option match_options ≡ true
      → Tests args p c
      → Tests (option ∷ value ∷ args) p (holds option value p && c)
  Tests-cons option value args p c h t rest =
      judge_option option value (args ++ rest) p h ∙ ground (arith, t rest)

  pub Tests-module :
      (name : Text) (args : Args) (p : Packet) (c : Bool)
      → Tests args p c
      → Tests (txt "-m" ∷ name ∷ args) p c
  Tests-module name args p c t rest = judge_module name (args ++ rest) p ∙ t rest
