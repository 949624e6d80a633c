-- ===== src/Dns/Examples.antt =====
-- The theorems on internal/dns on small files.
use hydrascale.Common.{◌≡◌, refl, some, [], ◌∷◌, txt, text_eq, same_text, ok, err}
use hydrascale.Common.{
  Bool, true, false, List, ℕ, not, Text, ◌==◌, none, ◌&&◌, ◌||◌, inl, if◌then◌else◌, Map, mem,
  lookup, has_suffix, trim_suffix, take,
}
use hydrascale.Config.{to_lower}
use hydrascale.Dns.Alias.{AliasZone, Question, Match, plain_name, match_alias_zone, answer_alias}
use hydrascale.Dns.Alias.Below.{IsEntry, IsIn, match_alias_zone-IsIn}
use hydrascale.Dns.Listeners.{Listeners, Sockets, source_is_host}
use hydrascale.Dns.Listeners.Exact.{Ports, is_ok}
use hydrascale.Dns.Forwarder.{
  Forwarder, route_of, zone_of, handle_dns_request, veth_handler, failed_reply,
}
use hydrascale.Dns.Forwarder.Home.{veth_handler_home}
use hydrascale.Dns.HostFile.{
  Files, symlink, content, HostFileMonitor, new_host_file_monitor, read_host_file_state,
  check_monitor, first_line_of,
}

abbrev linked : Files
linked = record {
  lstat = λ path. symlink (ok (txt "stub"));
  read_file = λ path. content (txt "nameserver ::1");
  sha256_hex = λ s. s;
}

abbrev broken : Files
broken = record linked { lstat = λ path. symlink (err (txt "denied")) }

abbrev monitor : HostFileMonitor
monitor = record (new_host_file_monitor []) { started = true }

reports_change : (check_monitor linked 5 monitor).1.changed ≡ true
unfolding same_text check_monitor new_host_file_monitor read_host_file_state
reports_change = refl

cuts_line : first_line_of (97 ∷ 13 ∷ 10 ∷ 98 ∷ []) ≡ txt "a"
unfolding first_line_of
cuts_line = refl

abbrev zone : AliasZone
zone = record { v4 = (txt "a.b", txt "100.64.0.9") ∷ []; v6 = [] }

abbrev zones : Map Text AliasZone
zones = (txt "mmo.ts.internal", zone) ∷ []

abbrev question : Question
question = record { name = txt "A.b.MMO.ts.internal."; qtype = 1; qclass = 1 }

abbrev found : Match
found = record { zone = zone; host = txt "a.b" }

match_alias_zone-IsIn_example :
    (z : Text) × IsEntry z zone zones × IsIn (plain_name (txt "A.b.MMO.ts.internal.")) found z
unfolding match_alias_zone same_text to_lower trim_suffix has_suffix take
match_alias_zone-IsIn_example = match_alias_zone-IsIn zones (txt "A.b.MMO.ts.internal.") found refl

abbrev forwarder : Forwarder
forwarder = record {
  upstreams = txt "9.9.9.9" ∷ [];
  domain_routes = (txt "corp.example", txt "10.200.0.2") ∷ [];
  alias_zones = zones;
  round_robin = 0;
}

abbrev listeners : Listeners ℕ
listeners = record { listeners = []; host_addrs = txt "10.200.0.1" ∷ [] }

answers_address : (handle_dns_request (λ server qs. none) (question ∷ []) forwarder).1.rcode ≡ 0
unfolding handle_dns_request zone_of match_alias_zone same_text to_lower trim_suffix has_suffix
    answer_alias take lookup
answers_address = refl

-- The suffix of a domain route carries no dot, so a name of another domain takes its server.
routes_other_domain : route_of forwarder.domain_routes (txt "evilcorp.example") ≡ txt "10.200.0.2"
unfolding route_of has_suffix same_text
routes_other_domain = refl

veth_handler_home_example :
    (veth_handler listeners (λ server qs. none) none (question ∷ []) forwarder
      ≡ veth_handler listeners (λ server qs. some failed_reply) none (question ∷ []) forwarder)
    × ((veth_handler listeners (λ server qs. none) none (question ∷ []) forwarder).0 ≡ forwarder)
unfolding source_is_host
veth_handler_home_example =
    veth_handler_home listeners (λ server qs. none) (λ server qs. some failed_reply) none question
      forwarder (inl refl)

-- A host with the bound addresses of the daemon, where every address but one can be bound.
abbrev opens : Text → Bool
opens addr = not (addr == txt "10.200.0.5")

abbrev Bound : Type 0
Bound = Text → Bool

abbrev sockets : Sockets Bound (Unit {0})
sockets = record {
  read_host_addrs = λ w. ok [];
  start = λ addr w. (
    (λ a. w a || (addr == a && opens addr)),
    if opens addr && not (w addr) then ok tt else err (txt "in use"),
  );
  stop = λ addr p w. ((λ a. w a && not (addr == a)), []);
}

is_ok-if : (b : Bool) → is_ok {A = Unit {0}} (if b then ok tt else err (txt "in use")) ≡ b
is_ok-if true = refl
is_ok-if false = refl

ports : Ports sockets
ports = record {
  bound = λ w. w;
  opens = opens;
  starts = λ addr w. is_ok-if (opens addr && not (w addr));
  started = λ addr w a. refl;
  stopped = λ addr p w a. refl;
  stops = λ addr p w. refl;
}

-- One listener, on an address that the next call names again.
abbrev one_listener : Listeners (Unit {0})
one_listener = record { listeners = (txt "10.200.0.1", tt) ∷ []; host_addrs = [] }

abbrev bound_one : Bound
bound_one = λ a. mem a (txt "10.200.0.1" ∷ [])

abbrev three_addrs : List Text
three_addrs = txt "10.200.0.1" ∷ [] ∷ txt "10.200.0.5" ∷ []
