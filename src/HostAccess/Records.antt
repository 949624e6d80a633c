-- ===== src/HostAccess/Records.antt =====
-- internal/hostaccess/peers.go: the address records of the peers and the services of a tailnet.
use hydrascale.Common.{
  List, [], ◌∷◌, ◌++◌, Text, txt, text_eq, if◌then◌else◌, Map, lookup, put, is_some,
}
use hydrascale.HostAccess.Sync.{Peer, Service}
use hydrascale.HostAccess.Peers.{is_empty}

-- The records of the two families.
pub record Records : Type 0 where
  pub v4 : Map Text Text
  pub v6 : Map Text Text

abbrev pub no_records : Records
no_records = record { v4 = []; v6 = [] }

-- A record where there is an address.
abbrev put_address : Text → Text → Map Text Text → Map Text Text
put_address name address m = if is_empty address then m else put name address m

-- A record for a name that the map does not hold.
abbrev put_new : Text → List Text → Map Text Text → Map Text Text
put_new name [] m = m
put_new name (address ∷ more) m = if is_some (lookup name m) then m else put name address m

abbrev put_first : Text → List Text → Map Text Text → Map Text Text
put_first name [] m = m
put_first name (address ∷ more) m = put name address m

-- The loop of `BuildAliasRecords`.
unfoldable pub build_alias_records : List Peer → Records → Records
build_alias_records [] r = r
build_alias_records (p ∷ peers) r = build_alias_records peers (
    if is_empty p.alias_name then r else record {
      v4 = put_address p.alias_name p.ipv4 r.v4;
      v6 = put_address p.alias_name p.ipv6 r.v6;
    })

-- The loop of `BuildDNSRecords`.
unfoldable pub build_dns_records : Text → List Peer → Records → Records
build_dns_records id [] r = r
build_dns_records id (p ∷ peers) r =
    let name = id ++ txt "-" ++ p.hostname in
    build_dns_records id peers
      (record { v4 = put_address name p.ipv4 r.v4; v6 = put_address name p.ipv6 r.v6 })

-- `serviceRecordName`
unfoldable pub service_record_name : Text → Text → Text
service_record_name id label = id ++ txt "-" ++ label

-- The loop of `BuildServiceRecords`.
unfoldable pub build_service_records : Text → List Service → Records → Records
unfolding service_record_name
build_service_records id [] r = r
build_service_records id (s ∷ services) r =
    let name = service_record_name id s.name in
    build_service_records id services (
      if is_empty s.name
      then r
      else record { v4 = put_first name s.ipv4 r.v4; v6 = put_first name s.ipv6 r.v6 })

-- `addServiceAliasRecords`
unfoldable pub add_service_alias_records : List Service → Records → Records
add_service_alias_records [] r = r
add_service_alias_records (s ∷ services) r = add_service_alias_records services (
    if is_empty s.name
    then r
    else record { v4 = put_new s.name s.ipv4 r.v4; v6 = put_new s.name s.ipv6 r.v6 })
