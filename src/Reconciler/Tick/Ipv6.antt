-- ===== src/Reconciler/Tick/Ipv6.antt =====
-- internal/reconciler/ipv6.go: the decision on the IPv6 path, and the step of the tick that opens it.
pub mod Steady
pub mod Guard
use hydrascale.Common.{
  ℕ, Bool, true, false, not, ◌&&◌, Option, none, some, List, [], ◌∷◌, ◌++◌, Text, txt, text_eq,
  ◌==◌, if◌then◌else◌, Map, Result, ok, err, itoa, length, join, mem, has_prefix,
}
use hydrascale.Access.Compile.{Compiled, Tail, tail_for_mode, compile_ipv6}
use hydrascale.Access.Rules.{effective_mode}
use hydrascale.Access.Writer.{Host}
use hydrascale.Access.Writer.Commands.{Applied, apply_rules}
use hydrascale.Config.{Tailnet}
use hydrascale.Reconciler.{State, emit}
use hydrascale.Reconciler.Plan.{TailnetState}
use hydrascale.Reconciler.Execute.{join_lines}
use hydrascale.Reconciler.Env.{Env, Ipv6Host, Ipv6Keys}
use hydrascale.Reconciler.Tick.Paths.{ensure_paths}
use hydrascale.Reconciler.Tick.Rules.{AccessInput}

-- `ipv6ForceForwarding` and `ipv6AllForwarding`
abbrev pub force_mode : Text
force_mode = txt "force_forwarding"

abbrev pub all_mode : Text
all_mode = txt "all_forwarding"

pub record Ipv6Plan : Type 0 where
  pub mode : Text
  pub reason : Text
  pub host : Ipv6Host
  pub compiled : Compiled

abbrev pub no_rules : Compiled
no_rules = record { guard = []; forward = []; out = [] }

abbrev pub unread_host : Ipv6Host
unread_host = record { upstreams = []; prefixes = []; force_forwarding = false; forwarding = false }

abbrev pub empty_plan : Ipv6Plan
empty_plan = record { mode = []; reason = []; host = unread_host; compiled = no_rules }

-- `union`
unfoldable pub union : List Text → List Text → List Text
union a [] = a
union a (v ∷ b) = union (if mem v a then a else a ++ v ∷ []) b

abbrev pub is_nil : List Text → Bool
is_nil [] = true
is_nil (x ∷ xs) = false

-- `ipv6On`
unfoldable pub ipv6_on : State → Bool
ipv6_on s = has_prefix s.ipv6_state (txt "on: ")

closed_plan : Ipv6Host → Text → Ipv6Plan
closed_plan h reason = record { mode = []; reason = reason; host = h; compiled = no_rules }

-- The upstream devices that the guard covers.
unfoldable pub guarded : Text → Ipv6Host → State → List Text
guarded mode h s =
    if mode == force_mode && not h.forwarding then union s.forced_upstreams h.upstreams else []

module _ {W : Type 0} (env : Env W) where
  compile_plan : Text → AccessInput → Ipv6Host → Tail → State → Result Text Ipv6Plan
  unfolding guarded
  compile_plan mode input h tail s =
      elim (compile_ipv6 env.net input.set
        (record {
          devices = input.devices;
          ports = input.ports;
          host_prefixes = h.prefixes;
          guarded_upstreams = guarded mode h s;
        })
        tail) [
          | err e ↦ err (txt "compile the IPv6 local rule set: " ++ env.compile_text e)
          | ok c ↦ ok (record { mode = mode; reason = []; host = h; compiled = c })
        ]

  open_plan : Text → AccessInput → Ipv6Host → State → Result Text Ipv6Plan
  unfolding compile_plan
  open_plan mode input h s = elim (tail_for_mode (effective_mode input.set)) [
    | err e ↦ err (env.compile_text e)
    | ok tail ↦ compile_plan mode input h tail s
  ]

  -- The switch of planIPv6.
  decide : AccessInput → Ipv6Host → State → Result Text Ipv6Plan
  unfolding open_plan closed_plan
  decide input h s =
      if is_nil h.upstreams
      then ok (closed_plan h (txt "the host holds no IPv6 default route"))
      else if h.force_forwarding
      then open_plan force_mode input h s
      else if input.ipv6
      then open_plan all_mode input h s
      else ok (
          closed_plan h (
            txt
              "the kernel holds no force_forwarding, and the configuration file does not set ipv6: true"))

  plan_for : Option (Ipv6Keys W) → Option (Host W) → AccessInput → W → State → Result Text Ipv6Plan
  unfolding decide
  plan_for none writer input w s = ok empty_plan
  plan_for (some keys) none input w s = ok empty_plan
  plan_for (some keys) (some writer) input w s = elim (keys.read_ipv6_host w) [
    | err e ↦ err e
    | ok h ↦ decide input h s
  ]

  -- `planIPv6`
  unfoldable pub plan_ipv6 : AccessInput → W → State → Result Text Ipv6Plan
  unfolding plan_for
  plan_ipv6 input w s = plan_for env.ipv6 env.writer6 input w s

  -- The first half of `enableIPv6Forwarding`.
  enable_force : Ipv6Keys W → Ipv6Plan → W → State → W × State × Bool
  enable_force keys plan w s =
      let (next, answer) = keys.enable_force_forwarding plan.host.upstreams w in
      elim answer [
        | err e ↦ (next, emit (txt "access.write_failed") [] (txt "IPv6: " ++ e) s, false)
        | ok changed ↦
            let known = record s {
              forced_upstreams = union s.forced_upstreams plan.host.upstreams;
            } in
            let message = txt "set force_forwarding on " ++ join changed (txt ", ") in
            (
              next,
              if is_nil changed then known else emit (txt "ipv6.forwarding") [] message known,
              true,
            )
      ]

  -- The second half of `enableIPv6Forwarding`.
  enable_all : Ipv6Keys W → Ipv6Plan → W → State → W × State × Bool
  enable_all keys plan w s =
      let (next, answer) = keys.enable_all_forwarding w in
      let tried : W × State × Bool = elim answer [
        | err e ↦ (next, emit (txt "access.write_failed") [] (txt "IPv6: " ++ e) s, false)
        | ok changed ↦
            let message =
              txt "set net.ipv6.conf.all.forwarding to 1"
              ++ (if is_nil changed
                  then []
                  else txt ", and accept_ra from 1 to 2 on " ++ join changed (txt ", ")) in
            (next, emit (txt "ipv6.forwarding") [] message s, true)
      ] in
      if plan.host.forwarding then (w, s, true) else tried

  -- `enableIPv6Forwarding`
  unfoldable pub enable_ipv6_forwarding : Ipv6Keys W → Ipv6Plan → W → State → W × State × Bool
  unfolding enable_force enable_all
  enable_ipv6_forwarding keys plan w s =
      let forced = enable_force keys plan w s in
      let all = enable_all keys plan w s in
      if plan.mode == force_mode
      then forced
      else if plan.mode == all_mode
      then all
      else (w, s, true)

  -- The forwarding and the path of each namespace, after the chains.
  forward_ipv6 :
      Ipv6Keys W → Ipv6Plan → Map Text Tailnet → Map Text TailnetState → W → State → W × State
  unfolding enable_ipv6_forwarding
  forward_ipv6 keys plan desired actual w s =
      let (next, noted, enabled) = enable_ipv6_forwarding keys plan w s in
      let ensure : Text → ℕ → W → W × Result Text (List Text) =
        λ ns index. keys.ensure_ipv6_path ns index (plan.mode == force_mode) in
      let paths = ensure_paths env.sha256 ensure desired actual next noted in
      if enabled then paths else (next, noted)

  note_ipv6_applied : AccessInput → Ipv6Plan → Applied → State → State
  note_ipv6_applied input plan applied s =
      let message =
        txt "IPv6: mode "
        ++ effective_mode input.set
        ++ txt ", "
        ++ itoa (length plan.compiled.guard)
        ++ txt " guard rules, "
        ++ itoa (length plan.compiled.forward)
        ++ txt " forward rules, "
        ++ itoa (length plan.compiled.out)
        ++ txt " out rules" in
      if applied.wrote then emit (txt "access.written") [] message s else s

  -- The step after the chains: nothing where their write failed.
  after_chains :
      Ipv6Keys W
      → AccessInput
      → Ipv6Plan
      → Map Text Tailnet
      → Map Text TailnetState
      → Applied
      → List Text
      → W
      → State
      → W × State
  unfolding note_ipv6_applied forward_ipv6
  after_chains keys input plan desired actual applied (e ∷ es) w s =
      (w, emit (txt "access.write_failed") [] (txt "IPv6: " ++ join_lines (e ∷ es)) s)
  after_chains keys input plan desired actual applied [] w s =
      forward_ipv6 keys plan desired actual w (note_ipv6_applied input plan applied s)

  write_ipv6 :
      Ipv6Keys W
      → Host W
      → AccessInput
      → Ipv6Plan
      → Map Text Tailnet
      → Map Text TailnetState
      → W
      → State
      → W × State
  unfolding after_chains
  write_ipv6 keys writer input plan desired actual w s =
      let (next, applied, errors) = apply_rules writer (txt "ip6tables") plan.compiled w in
      after_chains keys input plan desired actual applied errors next s

  abbrev state_text : Ipv6Plan → Text
  state_text plan = if plan.mode == [] then txt "off: " ++ plan.reason else txt "on: " ++ plan.mode

  -- The record of the state, with its event on a change.
  unfoldable pub note_ipv6_state : Ipv6Plan → State → State
  note_ipv6_state plan s =
      let known = record s { ipv6_state = state_text plan } in
      if s.ipv6_state == state_text plan
      then known
      else emit (txt "ipv6.state") [] (state_text plan) known

  follow_plan :
      Ipv6Keys W
      → Host W
      → AccessInput
      → Map Text Tailnet
      → Map Text TailnetState
      → W
      → State
      → Result Text Ipv6Plan
      → W × State
  unfolding note_ipv6_state write_ipv6
  follow_plan keys writer input desired actual w s (err e) =
      (w, emit (txt "access.write_failed") [] (txt "IPv6: " ++ e) s)
  follow_plan keys writer input desired actual w s (ok plan) =
      let noted = note_ipv6_state plan s in
      let written = write_ipv6 keys writer input plan desired actual w noted in
      if plan.mode == [] then (w, noted) else written

  drive_ipv6 :
      Option (Ipv6Keys W)
      → Option (Host W)
      → AccessInput
      → Map Text Tailnet
      → Map Text TailnetState
      → W
      → State
      → W × State
  unfolding follow_plan
  drive_ipv6 none writer input desired actual w s = (w, s)
  drive_ipv6 (some keys) none input desired actual w s = (w, s)
  drive_ipv6 (some keys) (some writer) input desired actual w s =
      follow_plan keys writer input desired actual w s (plan_ipv6 input w s)

  -- `applyIPv6`
  unfoldable pub apply_ipv6 :
      AccessInput → Map Text Tailnet → Map Text TailnetState → W → State → W × State
  unfolding drive_ipv6
  apply_ipv6 input desired actual w s = drive_ipv6 env.ipv6 env.writer6 input desired actual w s
