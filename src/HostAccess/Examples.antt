-- ===== src/HostAccess/Examples.antt =====
-- The theorems on internal/hostaccess at a concrete host.
use hydrascale.Common.{
  Answer, Bool, true, false, not, ◌&&◌, ◌||◌, ◌≡◌, refl, none, some, List, [], ◌∷◌, Text, txt,
  text_eq, same_text, ◌==◌, ==_iff, mem, keep, mem-keep, if◌then◌else◌, fields, split_lines,
  trim_space, contains, arith, has_prefix,
}
use hydrascale.HostAccess.Destinations.{Addresses, in_infra, net_of, valid_route_dest}
use hydrascale.HostAccess.Tables.{parse_host_routes}
use hydrascale.HostAccess.Sets.{diff_routes}
use hydrascale.HostAccess.Sync.{Runner, add_v4, add_v6, del_route, route_args, run_all}
use hydrascale.HostAccess.Sync.Write.{Settings, write_routes}
use hydrascale.HostAccess.Device.{RouteDevice, same_family, write_routes-holds}

-- The IPv4 and the IPv6 routes of a device.
pub record Toy : Type 0 where
  pub v4 : List Text
  pub v6 : List Text

abbrev fine : Answer
fine = record { output = []; failed = none }

abbrev without : Text → List Text → List Text
without ip routes = keep (λ r. not (r == ip)) routes

-- The commands of the two families.
toy_route : List Text → Toy → Toy
toy_route (route ∷ action ∷ ip ∷ more) t =
    if action == txt "replace"
    then record t { v4 = ip ∷ t.v4 }
    else if action == txt "del"
    then record t { v4 = without ip t.v4 }
    else t
toy_route _ t = t

toy_route_v6 : List Text → Toy → Toy
toy_route_v6 (route ∷ action ∷ ip ∷ more) t =
    if action == txt "replace"
    then record t { v6 = ip ∷ t.v6 }
    else if action == txt "del"
    then record t { v6 = without ip t.v6 }
    else t
toy_route_v6 _ t = t

abbrev toy_run : Runner Toy
toy_run (word ∷ args) t =
    (if word == txt "-6" then toy_route_v6 args t else toy_route (word ∷ args) t, fine)
toy_run [] t = (t, fine)

abbrev settings : Settings
settings = record { route_table = 0; infra_subnet = txt "10.200.0.0/16" }

abbrev toy_holds : Bool → Text → Toy → Bool
toy_holds false x t = mem x t.v4
toy_holds true x t = mem x t.v6

toy_added_v4 :
    (v6 : Bool) (x ip : Text) (t : Toy)
    → toy_holds v6 x (toy_run (add_v4 0 (txt "gw") (txt "vh1") ip) t).0
      ≡ ((not v6 && ip == x) || toy_holds v6 x t)
unfolding add_v4 route_args toy_route toy_route_v6 same_text
toy_added_v4 false x ip t = refl
toy_added_v4 true x ip t = refl

toy_added_v6 :
    (v6 : Bool) (x ip : Text) (t : Toy)
    → toy_holds v6 x (toy_run (add_v6 0 (txt "vh1") ip) t).0 ≡ ((v6 && ip == x) || toy_holds v6 x t)
unfolding add_v6 route_args toy_route toy_route_v6 same_text
toy_added_v6 false x ip t = refl
toy_added_v6 true x ip t = refl

mem-without :
    (x ip : Text) (routes : List Text) → mem x (without ip routes) ≡ (mem x routes && not (ip == x))
mem-without x ip routes =
    ground (arith, mem-keep (λ r. not (r == ip)) x routes, ==_iff x ip, ==_iff ip x)

toy_deleted :
    (family v6 : Bool) (x ip : Text) (t : Toy)
    → toy_holds v6 x (toy_run (del_route 0 family ip) t).0
      ≡ (toy_holds v6 x t && not (same_family family v6 && ip == x))
unfolding del_route route_args toy_route toy_route_v6 same_text
toy_deleted false false x ip t = mem-without x ip t.v4
toy_deleted false true x ip t = ground arith
toy_deleted true false x ip t = ground arith
toy_deleted true true x ip t = mem-without x ip t.v6

abbrev device : RouteDevice toy_run settings (txt "gw") (txt "vh1")
device = record {
  holds = toy_holds;
  added_v4 = λ v6 x ip w h. toy_added_v4 v6 x ip w;
  added_v6 = λ v6 x ip w h. toy_added_v6 v6 x ip w;
  deleted = λ family v6 x ip w h. toy_deleted family v6 x ip w;
}

abbrev held : Toy
held = record { v4 = txt "100.64.0.1" ∷ txt "100.64.0.2" ∷ []; v6 = [] }

write_routes-holds_example :
    let after =
      (write_routes toy_run settings
        (txt "gw")
        (txt "vh1")
        (txt "100.64.0.2" ∷ txt "100.64.0.3" ∷ [], txt "fd7a::1" ∷ [])
        (held.v4, held.v6)
        held).0 in
    (toy_holds false (txt "100.64.0.1") after ≡ false)
    × (toy_holds true (txt "100.64.0.1") after ≡ false)
unfolding diff_routes same_text write_routes run_all add_v4 route_args del_route add_v6
write_routes-holds_example =
    write_routes-holds toy_run settings (txt "gw") (txt "vh1") device
      (txt "100.64.0.2" ∷ txt "100.64.0.3" ∷ []) (txt "fd7a::1" ∷ []) held.v4 held.v6 held
      (txt "100.64.0.1") refl refl refl

abbrev first_four : Text → Text
first_four (a ∷ b ∷ c ∷ d ∷ s) = a ∷ b ∷ c ∷ d ∷ []
first_four s = s

-- Addresses of which the network holds the texts with its first four characters.
abbrev env : Addresses
env = record {
  Ip = Text;
  IpNet = Text;
  parse_ip = λ s. if contains s (txt "/") then none else some s;
  parse_cidr = λ s. some (s, s);
  contains_ip = λ net ip. has_prefix ip (first_four net);
}

abbrev output : Text
output =
    txt
      "default via 10.0.0.1 dev eth0\n100.64.0.1 dev vh1\n10.200.0.0/30 dev vh1\n192.168.7.0/24 dev vh1\n"

parsed :
    parse_host_routes env output (txt "vh1") (txt "10.200.0.0/16")
    ≡ txt "100.64.0.1" ∷ txt "192.168.7.0/24" ∷ []
unfolding parse_host_routes fields split_lines trim_space contains has_prefix same_text in_infra
    net_of valid_route_dest
parsed = refl

-- A host that holds no route to any destination.
abbrev gone_run : Runner Toy
gone_run args t = (t, record { output = []; failed = some (txt "exit status 2") })
