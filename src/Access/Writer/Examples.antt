-- ===== src/Access/Writer/Examples.antt =====
-- The Writer on a small host whose chains hold one mark.
use hydrascale.Common.{
  eqb, not, ◌||◌, ◌==◌, arith, Bool, true, false, ◌≡◌, refl, sym, none, some, Answer, List, [], ◌∷◌,
  ◌++◌, Text, txt, text_eq, same_text, fields, split_lines, ok, if◌then◌else◌, contains,
}
use hydrascale.Access.Compile.{Compiled, chain_forward, chain_out}
use hydrascale.Access.Writer.{
  Host, forward_jump, placement_of, target_of, marker_of, fingerprint, rule_line,
}
use hydrascale.Access.Writer.Commands.{
  mark_in, live_fingerprints, read_placement, insert_jump, ensure_jump, ensure_jumps, apply_live,
  apply_rules,
}
use hydrascale.Access.Writer.Commands.Chains.{Chains, jump_of, insertion}
use hydrascale.Access.Writer.Commands.Again.{apply_rules_again}

-- Whether a restore ran, and whether the two parent chains hold their jump rules.
record Small : Type 0 where
  restored : Bool
  forward : Bool
  input : Bool

abbrev when : Bool → Text → Text
when true s = s
when false s = []

abbrev listing : Bool → Text
listing ran = when ran (txt "-N X\n-A X -m comment --comment \"hydrascale:ab12\"\n")

abbrev shown : Text → Small → Text
shown chain w =
    if chain == txt "FORWARD"
    then when w.forward (txt "-A FORWARD -j HYDRASCALE-FWD\n")
    else if chain == txt "INPUT"
    then when w.input (txt "-A INPUT -j HYDRASCALE-OUT\n")
    else listing w.restored

-- A listing of a chain, or an insertion into a parent chain.
run_small : List Text → Small → Small × Answer
run_small (tool ∷ operation ∷ chain ∷ []) w = (w, record { output = shown chain w; failed = none })
run_small (tool ∷ operation ∷ chain ∷ more) w = (
  record {
    restored = w.restored;
    forward = w.forward || chain == txt "FORWARD";
    input = w.input || chain == txt "INPUT";
  },
  record { output = []; failed = none },
)
run_small _ w = (w, record { output = []; failed = none })

-- Every digest has the same text.
abbrev host : Host Small
host = record {
  run = run_small;
  run_input = λ file args w. (record w { restored = true }, record { output = []; failed = none });
  sha256_hex = λ bytes. txt "ab12";
}

abbrev held : Small → Text
held w = when w.restored (txt "ab12")

read_listing :
    (chain : Text) (ran : Bool)
    → mark_in (txt "iptables") chain (record { output = listing ran; failed = none })
      ≡ ok (when ran (txt "ab12"))
unfolding mark_in marker_of fields split_lines same_text
read_listing chain true = refl
read_listing chain false = refl

digest : (c : Compiled) → fingerprint host.sha256_hex c ≡ txt "ab12"
unfolding fingerprint
digest c = refl

shows_jump :
    (first held : Bool) (w : Small)
    → (if first then w.forward else w.input) ≡ held
    → eqb
        (placement_of
          (run_small (txt "iptables" ∷ txt "-S" ∷ (jump_of first).parent ∷ []) w).1.output
          (jump_of first)).position
        0
      ≡ not held
unfolding run_small placement_of target_of fields split_lines same_text
shows_jump true true w h = rw h refl
shows_jump true false w h = rw h refl
shows_jump false true w h = rw h refl
shows_jump false false w h = rw h refl

abbrev jump_held : Bool → Small → Bool
jump_held first w = if first then w.forward else w.input

inserts :
    (first : Bool) (w : Small)
    → jump_held first (run_small (insertion (txt "iptables") (jump_of first)) w).0 ≡ true
unfolding run_small same_text
inserts true w = ground arith
inserts false w = ground arith

keeps_jump :
    (first other : Bool) (w : Small)
    → jump_held other w ≡ true
    → jump_held other (run_small (insertion (txt "iptables") (jump_of first)) w).0 ≡ true
unfolding run_small same_text
keeps_jump first true w h = ground (arith, h)
keeps_jump first false w h = ground (arith, h)

chains : Chains host (txt "iptables")
unfolding run_small same_text
chains = record {
  forward_mark = held;
  out_mark = held;
  list_forward = λ w. refl;
  list_out = λ w. refl;
  read_forward = λ w. read_listing chain_forward w.restored;
  read_out = λ w. read_listing chain_out w.restored;
  restored = λ c w fine. (sym (digest c), sym (digest c));
  list_parent = λ parent w. refl;
  inserted = λ parent chain w. (refl, refl);
  has_jump = jump_held;
  listed = λ first w. refl;
  shows = λ first w. shows_jump first (jump_held first w) w refl;
  inserted_jump = λ first w fine. inserts first w;
  inserted_keeps = keeps_jump;
}

abbrev compiled : Compiled
compiled = record {
  guard = [];
  forward = (txt "-A" ∷ chain_forward ∷ txt "-j" ∷ txt "DROP" ∷ []) ∷ [];
  out = [];
}

abbrev blank : Small
blank = record { restored = false; forward = false; input = true }

abbrev after_one : Small
after_one = (apply_rules host (txt "iptables") compiled blank).0

apply_rules_again_example :
    ((apply_rules host (txt "iptables") compiled blank).1.wrote ≡ true)
    × ((held after_one ≡ txt "ab12") × (held after_one ≡ txt "ab12"))
    × (after_one.forward ≡ true)
    × (after_one.input ≡ true)
    × ((apply_rules host (txt "iptables") compiled after_one).0 ≡ after_one)
    × ((apply_rules host (txt "iptables") compiled after_one).1.wrote ≡ false)
    × ((apply_rules host (txt "iptables") compiled after_one).2 ≡ [])
unfolding apply_rules apply_live live_fingerprints mark_in marker_of fields split_lines same_text
    fingerprint ensure_jumps ensure_jump read_placement insert_jump placement_of run_small chains
apply_rules_again_example = apply_rules_again host (txt "iptables") chains compiled blank refl

placement_test :
    placement_of
      (txt "-P FORWARD ACCEPT\n-A FORWARD -i eth0 -j DROP\n-A FORWARD -j HYDRASCALE-FWD\n")
      forward_jump
    ≡ record { parent = txt "FORWARD"; position = 2; above = txt "DROP" ∷ [] }
unfolding placement_of target_of fields split_lines same_text
placement_test = refl

quoting_test : rule_line (txt "--log-prefix" ∷ txt "a b" ∷ []) ≡ txt "--log-prefix \"a b\""
unfolding rule_line hydrascale.Common.join
quoting_test = refl
