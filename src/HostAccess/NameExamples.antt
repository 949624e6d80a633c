-- ===== src/HostAccess/NameExamples.antt =====
-- The theorems on the names of internal/hostaccess at concrete inputs.
use hydrascale.HostAccess.Resolved.{valid_device_name}
use hydrascale.HostAccess.Resolved.{links_error}
use hydrascale.Common.{
  ◌≡◌, refl, ◌⊎◌, Bool, true, false, none, some, Option, List, [], ◌∷◌, ◌++◌, Text, txt, text_eq,
  same_text, ◌==◌, if◌then◌else◌, All, mem, nodup, lookup, Map, is_some, contains, has_prefix,
  Answer, put, trim_suffix, trim_space, trim_prefix, split_on, drop, has_suffix, text_leb,
}
use hydrascale.Config.{to_lower}
use hydrascale.Access.Compile.{sort_texts}
use hydrascale.HostAccess.Sync.{TailnetPeers}
use hydrascale.HostAccess.Peers.{ServiceEndpoint, is_service_label, service_label, parse_services}
use hydrascale.HostAccess.Peers.Labels.{names, parse_services-names}
use hydrascale.HostAccess.Records.{Records}
use hydrascale.HostAccess.Resolved.{Link, valid_dns_name, register_domains}
use hydrascale.HostAccess.Resolved.Checked.{IsChecked, register_domains-IsChecked}
use hydrascale.HostAccess.Hosts.{
  host_lines, record_names, build_managed_block, new_block, update_content,
}
use hydrascale.HostAccess.Hosts.Block.{around, update_content-around}
use hydrascale.HostAccess.Split.{normalize_split_domain, split_all}
use hydrascale.HostAccess.Split.Owners.{all_domains, split_all-nodup}

abbrev endpoints : List ServiceEndpoint
endpoints =
    record { name = txt "svc:my_app"; addrs = txt "10.0.0.1" ∷ []; ports = [] }
    ∷ record { name = txt "svc:My-App"; addrs = txt "10.0.0.2" ∷ []; ports = [] }
    ∷ record { name = txt "svc:--"; addrs = txt "10.0.0.3" ∷ []; ports = [] }
    ∷ []

abbrev parse : Text → Option Bool
parse ip = some true

labels_once : names (parse_services parse endpoints) ≡ txt "my-app" ∷ []
unfolding parse_services service_label is_service_label trim_prefix has_prefix to_lower trim_space
    same_text drop text_leb
labels_once = refl

parse_services-names_example :
    (nodup (names (parse_services parse endpoints)) ≡ true)
    × ((a : Text)
        → mem a (names (parse_services parse endpoints)) ≡ true
        → is_service_label a ≡ true)
parse_services-names_example = parse_services-names parse endpoints

abbrev links : List Link
links =
    record {
      device = txt "vh12";
      address = txt "10.200.0.2";
      domains = txt "tail1.ts.net" ∷ txt "~corp.example" ∷ [];
    }
    ∷ []

abbrev quiet : List Text → Bool → Bool × Answer
quiet args w = (true, record { output = []; failed = none })

registers_device : (register_domains quiet (λ ip. true) (λ s. s) links [] false).1 ≡ txt "vh12" ∷ []
unfolding register_domains links_error valid_device_name valid_dns_name trim_suffix trim_prefix
    has_prefix same_text split_on drop
registers_device = refl

register_domains-IsChecked_example :
    (((register_domains quiet (λ ip. true) (λ s. s) links [] false).0 ≡ false)
      × ((register_domains quiet (λ ip. true) (λ s. s) links [] false).1 ≡ []))
    ⊎ All (IsChecked (λ ip. true)) links
register_domains-IsChecked_example =
    register_domains-IsChecked (λ ip. true) (λ s. s) quiet links [] false

abbrev records : Records
records = record { v4 = (txt "work-pi", txt "100.64.0.1") ∷ []; v6 = [] }

abbrev nothing : Records
nothing = record { v4 = []; v6 = [] }

update_content-around_example :
    update_content (around (txt "127.0.0.1 localhost\n") records (txt "# mine\n")) nothing ≡ (
      if new_block nothing == build_managed_block records
      then none
      else some (txt "127.0.0.1 localhost\n" ++ (new_block nothing ++ txt "# mine\n")))
unfolding contains host_lines same_text record_names sort_texts lookup
update_content-around_example =
    update_content-around (txt "127.0.0.1 localhost\n") (txt "# mine\n") records refl refl refl
      nothing

abbrev unclaimed : Map Text Text
unclaimed = []

abbrev tailnet : Text → TailnetPeers
tailnet id = record {
  tailnet_id = id;
  magic_dns_suffix = [];
  split_dns_domains = txt "Corp.example." ∷ txt "corp.example" ∷ [];
  peers = [];
  services = [];
  veth_gateway = [];
  veth_host = [];
  veth_host_ip = [];
  ns_name = [];
}

first_keeps :
    all_domains (split_all (tailnet (txt "a") ∷ tailnet (txt "b") ∷ []) [])
    ≡ txt "corp.example" ∷ []
unfolding split_all normalize_split_domain valid_dns_name trim_suffix to_lower trim_space same_text
    split_on has_suffix lookup put
first_keeps = refl

split_all-nodup_example :
    (nodup (all_domains (split_all (tailnet (txt "a") ∷ tailnet (txt "b") ∷ []) [])) ≡ true)
    × ((a : Text)
        → is_some (lookup a unclaimed) ≡ true
        → mem a (all_domains (split_all (tailnet (txt "a") ∷ tailnet (txt "b") ∷ []) [])) ≡ false)
split_all-nodup_example = split_all-nodup (tailnet (txt "a") ∷ tailnet (txt "b") ∷ []) []
