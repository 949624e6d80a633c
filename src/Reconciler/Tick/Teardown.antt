-- ===== src/Reconciler/Tick/Teardown.antt =====
-- internal/reconciler/reconciler.go and uninstall.go: Shutdown and Uninstall, whose steps all run.
use hydrascale.Common.{
  not, ◌&&◌, Option, none, some, List, [], ◌∷◌, ◌++◌, Text, txt, text_eq, if◌then◌else◌, Map, keys,
  lookup, Result, ok, err,
}
use hydrascale.Access.Compile.{sort_texts}
use hydrascale.Access.Writer.{Host}
use hydrascale.Access.Writer.Commands.{teardown_rules}
use hydrascale.Reconciler.{State, emit}
use hydrascale.Reconciler.Plan.{TailnetState, plain, delete_namespace}
use hydrascale.Reconciler.Execute.{Outcome, labelled, join_lines, report_teardown, execute_action}
use hydrascale.Reconciler.Env.{Env, Ipv6Host, Ipv6Keys, actual_state}
use hydrascale.Reconciler.Tick.Ipv6.{is_nil, ipv6_on}

-- errors.Join; none is nil.
abbrev pub join_errors : List Text → Option Text
join_errors [] = none
join_errors (e ∷ es) = some (join_lines (e ∷ es))

module _ {W : Type 0} (env : Env W) where
  -- The reset of the upstream devices that this process forced.
  unfoldable pub reset_forced : List Text → W → W × List Text
  reset_forced forced w = elim env.ipv6 [
    | none ↦ (w, [])
    | some keys ↦
        let (next, failed) = keys.disable_force_forwarding forced w in
        let label = txt "reset IPv6 forwarding on the upstream devices" in
        if is_nil forced then (w, []) else (next, labelled label failed)
  ]

  -- The removal of the chains of one family.
  unfoldable pub remove_chains : Option (Host W) → Text → Text → W → W × List Text
  remove_chains none tool label w = (w, [])
  remove_chains (some writer) tool label w =
      let (next, errors) = teardown_rules writer tool w in
      (next, labelled label (join_errors errors))

  unfoldable pub remove_host_access : W → W × List Text
  remove_host_access w = elim env.forget_all [
    | none ↦ (w, [])
    | some forget ↦
        let (next, failed) = forget w in
        (next, labelled (txt "remove the host access state") failed)
  ]

  -- The three steps that end Shutdown and Uninstall.
  unfoldable pub remove_rest : W → W × List Text
  unfolding remove_chains remove_host_access
  remove_rest w =
      let (w1, e1) =
        remove_chains env.writer6 (txt "ip6tables") (txt "remove the IPv6 local rule chains") w in
      let (w2, e2) =
        remove_chains env.writer (txt "iptables") (txt "remove the local rule chains") w1 in
      let (w3, e3) = remove_host_access w2 in (w3, e1 ++ e2 ++ e3)

  -- The stop of the daemons; the goroutines run in the order of the list, within the deadline.
  unfoldable pub stop_all : Map Text TailnetState → W → State → W × State
  stop_all [] w s = (w, s)
  stop_all ((id, state) ∷ actual) w s =
      let (next, failed) = env.managers.stop state.namespace id w in
      let noted : State = elim failed [
        | some e ↦ s
        | none ↦ emit (txt "daemon_stopped") id (txt "shutdown") s
      ] in
      let stopped = stop_all actual next noted in
      let skipped = stop_all actual w s in if state.exists then stopped else skipped

  stop_and_remove : Map Text TailnetState → W → State → Outcome W
  unfolding stop_all reset_forced remove_rest
  stop_and_remove actual w s =
      let (w1, s1) = stop_all actual w s in
      let s2 = emit (txt "shutdown_complete") [] (txt "all daemons stopped") s1 in
      let (w2, e2) = reset_forced s2.forced_upstreams w1 in
      let (w3, e3) = remove_rest w2 in
      let (s3, failed) = report_teardown [] (e2 ++ e3) s2 in (w3, s3, failed)

  -- `Shutdown`
  unfoldable pub shutdown : W → State → Outcome W
  unfolding stop_and_remove
  shutdown w s = elim (actual_state env w) [
    | err e ↦ (w, s, some e)
    | ok actual ↦ stop_and_remove actual w s
  ]

  -- The loop of Uninstall over the sorted tailnets.
  unfoldable pub remove_all : List Text → Map Text TailnetState → W → State → W × State × List Text
  remove_all [] actual w s = (w, s, [])
  remove_all (id ∷ ids) actual w s =
      let ns : Text = elim (lookup id actual) [ none ↦ [] | some state ↦ state.namespace ] in
      let (w1, e1) = env.managers.stop ns id w in
      let (w2, s2, e2) =
        execute_action env.managers (ipv6_on s) (plain delete_namespace id ns) w1 s in
      let (w3, s3, es) = remove_all ids actual w2 s2 in
      let first = labelled (txt "stop tailscaled of " ++ id) e1 in
      let second : List Text = elim e2 [ none ↦ [] | some e ↦ e ∷ [] ] in
      (w3, s3, first ++ second ++ es)

  remove_found : Result Text (Map Text TailnetState) → W → State → W × State × List Text
  unfolding remove_all
  remove_found (err e) w s = (w, s, e ∷ [])
  remove_found (ok actual) w s = remove_all (sort_texts (keys actual)) actual w s

  disable_found : Ipv6Keys W → Result Text Ipv6Host → W → W × List Text
  disable_found keys (err e) w = (w, e ∷ [])
  disable_found keys (ok h) w =
      let (next, failed) = keys.disable_force_forwarding h.upstreams w in
      if h.force_forwarding && not (is_nil h.upstreams)
      then (next, labelled (txt "reset IPv6 forwarding on the upstream devices") failed)
      else (w, [])

  -- The reset of the upstream devices that the host holds now.
  unfoldable pub reset_found : W → W × List Text
  unfolding disable_found
  reset_found w = elim env.ipv6 [
    | none ↦ (w, [])
    | some keys ↦ disable_found keys (keys.read_ipv6_host w) w
  ]

  -- `Uninstall`
  unfoldable pub uninstall : W → State → Outcome W
  unfolding remove_found reset_found remove_rest
  uninstall w s =
      let (w1, s1, e1) = remove_found (actual_state env w) w s in
      let (w2, e2) = reset_found w1 in
      let (w3, e3) = remove_rest w2 in (w3, s1, join_errors (e1 ++ e2 ++ e3))
