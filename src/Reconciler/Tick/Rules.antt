-- ===== src/Reconciler/Tick/Rules.antt =====
-- internal/reconciler/reconciler.go: the local rule set of a tick, compileAccess and applyAccess.
pub mod Steady
use hydrascale.Common.{
  ℕ, Bool, true, false, Option, none, some, List, [], ◌∷◌, ◌++◌, Text, txt, text_eq, ◌==◌,
  if◌then◌else◌, Map, put, Result, ok, err, itoa, length,
}
use hydrascale.Access.Compile.{Compiled, Tail, tail_for_mode, compile}
use hydrascale.Access.Rules.{Rule, RuleSet, effective_mode, mode_enforce, rule_string}
use hydrascale.Access.Writer.{Host}
use hydrascale.Access.Writer.Commands.{Applied, apply_rules}
use hydrascale.Config.{Tailnet, Config, access_mode}
use hydrascale.Dns.Forwarder.{default_bind_address}
use hydrascale.Namespaces.{namespace_name, veth_names, veth_index, listen_port}
use hydrascale.Reconciler.{State, emit}
use hydrascale.Reconciler.Execute.{join_lines}
use hydrascale.Reconciler.Endpoints.{declared_rules}
use hydrascale.Reconciler.Jumps.{report_jumps}
use hydrascale.Reconciler.Env.{Env}
use hydrascale.Reconciler.Tick.Paths.{remove_legacy_rules}

-- `accessInput`
pub record AccessInput : Type 0 where
  pub set : RuleSet
  pub devices : Map Text Text
  pub ports : Map Text ℕ
  pub ipv6 : Bool
  pub compiled : Compiled

module _ (sha256 : Text → List ℕ) where
  -- The host side device of each tailnet.
  unfoldable pub devices_of : List Tailnet → Map Text Text → Map Text Text
  devices_of [] devices = devices
  devices_of (tn ∷ tns) devices =
      devices_of tns (put tn.id (veth_names sha256 (namespace_name tn.id)).0 devices)

  -- The listen port of each tailnet.
  unfoldable pub ports_of : List Tailnet → Map Text ℕ → Map Text ℕ
  ports_of [] ports = ports
  ports_of (tn ∷ tns) ports =
      ports_of tns (put tn.id (listen_port (veth_index sha256 (namespace_name tn.id))) ports)

abbrev pub bind_address_of : Config → Text
bind_address_of cfg =
    if cfg.resolver.bind_address == [] then default_bind_address else cfg.resolver.bind_address

-- The rules of the file whose endpoints it declares.
unfoldable pub rule_set_of : Map Text Text → Config → State → RuleSet × State
rule_set_of devices cfg s = elim cfg.access [
  | none ↦ (record { mode = access_mode cfg; rules = [] }, s)
  | some declared ↦
      let (kept, next) = declared_rules rule_string devices declared.rules s in
      (record { mode = access_mode cfg; rules = kept }, next)
]

module _ {W : Type 0} (env : Env W) where
  compile_with : Tail → RuleSet → Map Text Text → Config → Result Text AccessInput
  unfolding ports_of
  compile_with tail set devices cfg =
      let ports = ports_of env.sha256 cfg.tailnets [] in
      elim (compile env.net set
        (record { devices = devices; dns_address = bind_address_of cfg; ports = ports }) tail) [
          | err e ↦ err (txt "compile the local rule set: " ++ env.compile_text e)
          | ok c ↦ ok (record {
            set = set;
            devices = devices;
            ports = ports;
            ipv6 = cfg.ipv6;
            compiled = c;
          })
        ]

  compile_config : Config → State → State × Result Text AccessInput
  unfolding rule_set_of devices_of compile_with
  compile_config cfg s =
      let devices = devices_of env.sha256 cfg.tailnets [] in
      let (set, next) = rule_set_of devices cfg s in
      (
        next,
        elim (tail_for_mode (effective_mode set)) [
          | err e ↦ err (env.compile_text e)
          | ok tail ↦ compile_with tail set devices cfg
        ],
      )

  -- `compileAccess`
  unfoldable pub compile_access : W → State → State × Result Text AccessInput
  unfolding compile_config
  compile_access w s = elim (env.managers.load_config w) [
    | err e ↦ (s, err (txt "load the configuration file: " ++ e))
    | ok cfg ↦ compile_config cfg s
  ]

  -- The events of a write that succeeded.
  note_applied : AccessInput → Applied → State → State
  note_applied input applied s =
      let message =
        txt "mode "
        ++ effective_mode input.set
        ++ txt ", "
        ++ itoa (length input.compiled.forward)
        ++ txt " forward rules, "
        ++ itoa (length input.compiled.out)
        ++ txt " out rules" in
      report_jumps applied.jumps
        (if applied.wrote then emit (txt "access.written") [] message s else s)

  -- applyAccess after the write.
  finish_apply : AccessInput → W → Applied → List Text → State → W × State
  unfolding note_applied
  finish_apply input w applied (e ∷ es) s =
      (w, emit (txt "access.write_failed") [] (join_lines (e ∷ es)) s)
  finish_apply input w applied [] s =
      let noted = note_applied input applied s in
      if effective_mode input.set == mode_enforce
      then remove_legacy_rules env w noted
      else (w, noted)

  apply_compiled : Host W → State → Result Text AccessInput → W → W × State × Option AccessInput
  unfolding finish_apply
  apply_compiled host s (err e) w = (w, emit (txt "access.write_failed") [] e s, none)
  apply_compiled host s (ok input) w =
      let (next, applied, errors) = apply_rules host (txt "iptables") input.compiled w in
      let (last, noted) = finish_apply input next applied errors s in (last, noted, some input)

  apply_to : Host W → W → State → W × State × Option AccessInput
  unfolding apply_compiled
  apply_to host w s = let (next, input) = compile_access w s in apply_compiled host next input w

  -- `applyAccess`; the input stands for its second answer, true.
  unfoldable pub apply_access : W → State → W × State × Option AccessInput
  unfolding apply_to
  apply_access w s = elim env.writer [ none ↦ (w, s, none) | some host ↦ apply_to host w s ]
