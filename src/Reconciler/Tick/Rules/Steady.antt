-- ===== src/Reconciler/Tick/Rules/Steady.antt =====
-- The write of the local rule set is steady.
use hydrascale.Common.{
  List, [], ◌∷◌, ◌++◌, Text, txt, text_eq, ◌==◌, if◌then◌else◌, Map, Result, ok, err, itoa, length,
  Option-cases, Result-cases, Bool-cases, inl, inr,
}
use hydrascale.Access.Rules.{effective_mode, mode_enforce, rule_string}
use hydrascale.Access.Writer.{Host}
use hydrascale.Access.Writer.Commands.{Applied, apply_rules}
use hydrascale.Config.{Config}
use hydrascale.Reconciler.{State, emit}
use hydrascale.Reconciler.Execute.{join_lines}
use hydrascale.Reconciler.Env.{Env}
use hydrascale.Reconciler.Steady.{Steady, Steady-refl, Steady-trans, emit-Steady, if-Steady}
use hydrascale.Reconciler.Steady.Reports.{report_jumps-Steady, declared_rules-Steady}
use hydrascale.Reconciler.Tick.Paths.Steady.{remove_legacy_rules-Steady}
use hydrascale.Reconciler.Tick.Rules.{
  AccessInput, devices_of, rule_set_of, compile_config, compile_access, note_applied, finish_apply,
  apply_compiled, apply_to, apply_access,
}

rule_set_of-Steady :
    (devices : Map Text Text) (cfg : Config) (s : State) → Steady s (rule_set_of devices cfg s).1
unfolding rule_set_of
rule_set_of-Steady devices cfg s = elim (Option-cases cfg.access) [
  | inl gone ↦ rw (gone, rule_set_of) (Steady-refl s)
  | inr (declared, held) ↦
      rw (held, rule_set_of) (declared_rules-Steady rule_string devices declared.rules s)
]

module _ {W : Type 0} (env : Env W) where
  compile_config-Steady : (cfg : Config) (s : State) → Steady s (compile_config env cfg s).0
  unfolding compile_config
  compile_config-Steady cfg s = rule_set_of-Steady (devices_of env.sha256 cfg.tailnets []) cfg s

  pub compile_access-Steady : (w : W) (s : State) → Steady s (compile_access env w s).0
  unfolding compile_access
  compile_access-Steady w s = elim (Result-cases (env.managers.load_config w)) [
    | inr (e, unread) ↦ rw (unread, compile_access) (Steady-refl s)
    | inl (cfg, loaded) ↦ rw (loaded, compile_access) (compile_config-Steady cfg s)
  ]

  note_applied-Steady :
      (input : AccessInput) (applied : Applied) (s : State)
      → Steady s (note_applied env input applied s)
  unfolding note_applied
  note_applied-Steady input applied s =
      let message =
        txt "mode "
        ++ effective_mode input.set
        ++ txt ", "
        ++ itoa (length input.compiled.forward)
        ++ txt " forward rules, "
        ++ itoa (length input.compiled.out)
        ++ txt " out rules" in
      Steady-trans
        (if-Steady applied.wrote (emit-Steady (txt "access.written") [] message s) (Steady-refl s))
        (report_jumps-Steady applied.jumps
          (if applied.wrote then emit (txt "access.written") [] message s else s))

  finish_apply-Steady :
      (input : AccessInput) (w : W) (applied : Applied) (errors : List Text) (s : State)
      → Steady s (finish_apply env input w applied errors s).1
  unfolding finish_apply
  finish_apply-Steady input w applied (e ∷ es) s =
      emit-Steady (txt "access.write_failed") [] (join_lines (e ∷ es)) s
  finish_apply-Steady input w applied [] s =
      let noted = note_applied-Steady input applied s in
      elim (Bool-cases (effective_mode input.set == mode_enforce)) [
        | inl enforced ↦ rw enforced (
            Steady-trans noted
              (remove_legacy_rules-Steady env w (note_applied env input applied s)))
        | inr observed ↦ rw observed noted
      ]

  apply_compiled-Steady :
      (host : Host W) (s : State) (input : Result Text AccessInput) (w : W)
      → Steady s (apply_compiled env host s input w).1
  unfolding apply_compiled
  apply_compiled-Steady host s (err e) w = emit-Steady (txt "access.write_failed") [] e s
  apply_compiled-Steady host s (ok input) w =
      let (next, applied, errors) = apply_rules host (txt "iptables") input.compiled w in
      finish_apply-Steady input next applied errors s

  apply_to-Steady : (host : Host W) (w : W) (s : State) → Steady s (apply_to env host w s).1
  unfolding apply_to
  apply_to-Steady host w s =
      let (next, input) = compile_access env w s in
      Steady-trans (compile_access-Steady w s) (apply_compiled-Steady host next input w)

  pub apply_access-Steady : (w : W) (s : State) → Steady s (apply_access env w s).1
  unfolding apply_access
  apply_access-Steady w s = elim (Option-cases env.writer) [
    | inl gone ↦ rw (gone, apply_access) (Steady-refl s)
    | inr (host, held) ↦ rw (held, apply_access) (apply_to-Steady host w s)
  ]
