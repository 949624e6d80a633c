-- ===== src/Dns/Listeners.antt =====
-- internal/dns/alias.go: the listeners of the veth addresses, and the sources that they answer.
pub mod Exact
use hydrascale.Common.{
  ℕ, Bool, true, false, not, ◌&&◌, ◌||◌, Option, none, some, List, [], ◌∷◌, ◌++◌, Text, txt,
  text_eq, ◌==◌, if◌then◌else◌, mem, Map, lookup, put, delete, keys, is_some, Result, ok, err,
}
use hydrascale.Dns.Alias.{is_empty}

-- The sockets of the host: readHostAddrs, startListener and the stop of a pair, whose handle is `P`.
pub record Sockets (W P : Type 0) : Type 0 where
  pub read_host_addrs : W → Result Text (List Text)
  pub start : Text → W → W × Result Text P
  pub stop : Text → P → W → W × List Text

-- The listener table of the forwarder.
pub record Listeners (P : Type 0) : Type 0 where
  pub listeners : Map Text P
  pub host_addrs : List Text

module _ {W P : Type 0} (sockets : Sockets W P) where
  -- The loop that stops the listeners of addresses that are no longer wanted.
  unfoldable pub stop_unwanted : List Text → Map Text P → W → W × Map Text P × List Text
  stop_unwanted want [] w = (w, [], [])
  stop_unwanted want ((addr, pair) ∷ held) w =
      let (next, errors) = sockets.stop addr pair w in
      let (last, kept, more) = stop_unwanted want held next in
      let (last', kept', more') = stop_unwanted want held w in
      if mem addr want then (last', (addr, pair) ∷ kept', more') else (last, kept, errors ++ more)

  -- The start of the listener of one address.
  start_one : Text → Map Text P → W → W × Map Text P × List Text
  start_one addr held w =
      let (next, answer) = sockets.start addr w in
      let started : W × Map Text P × List Text = elim answer [
        | err e ↦ (next, held, e ∷ [])
        | ok pair ↦ (next, put addr pair held, [])
      ] in
      if is_some (lookup addr held) then (w, held, []) else started

  -- The loop over the wanted addresses.
  unfoldable pub start_wanted : List Text → Map Text P → W → W × Map Text P × List Text
  unfolding start_one
  start_wanted [] held w = (w, held, [])
  start_wanted (addr ∷ want) held w =
      let (next, known, errors) = start_one addr held w in
      let (last, final, more) = start_wanted want known next in (last, final, errors ++ more)

  -- The addresses that SyncListeners wants.
  abbrev pub wanted : List Text → List Text
  wanted [] = []
  wanted (a ∷ addrs) =
      let rest = wanted addrs in if is_empty a || mem a rest then rest else a ∷ rest

  -- `SyncListeners`: the addresses that hold a listener, and the failures.
  unfoldable pub sync_listeners :
      List Text → W → Listeners P → W × Listeners P × (List Text × List Text)
  unfolding stop_unwanted start_wanted
  sync_listeners addrs w f =
      let want = wanted addrs in
      let (w1, kept, e1) = stop_unwanted want f.listeners w in
      let (w2, held, e2) = start_wanted want kept w1 in
      let read : List Text × List Text = elim (sockets.read_host_addrs w) [
        | err e ↦ (f.host_addrs, e ∷ [])
        | ok addresses ↦ (addresses, [])
      ] in
      (w2, record { listeners = held; host_addrs = read.0 }, (keys held, read.1 ++ e1 ++ e2))

-- What the Go library tells of the source of a query: its text as an address, and whether that is a
-- loopback address; none where it holds no address.
pub record Source : Type 0 where
  pub text : Text
  pub is_loopback : Bool

-- `sourceIsHost`
unfoldable pub source_is_host : {P : Type 0} → Listeners P → Option Source → Bool
source_is_host f none = false
source_is_host f (some source) = source.is_loopback || mem source.text f.host_addrs
