-- ===== src/Reach.antt =====
-- internal/reach/reach.go: the measurement of a namespace with one packet.
use hydrascale.Common.{
  Bool, true, false, none, some, Answer, List, [], ◌∷◌, Text, txt, text_eq, ◌==◌, if◌then◌else◌,
  split_lines, trim_space,
}

-- The three states of a measurement.
abbrev pub state_reachable : Text
state_reachable = txt "reachable"

abbrev pub state_unreachable : Text
state_unreachable = txt "unreachable"

abbrev pub state_not_probed : Text
state_not_probed = txt "not_probed"

abbrev pub default_target : Text
default_target = txt "1.1.1.1"

-- `Result`, without the time of the measurement.
pub record Measurement : Type 0 where
  pub state : Text
  pub target : Text
  pub detail : Text

last_line : List Text → Text
last_line [] = []
last_line (l ∷ []) = l
last_line (l ∷ k ∷ ls) = last_line (k ∷ ls)

-- `detail`; `expired` is whether the context ended.
unfoldable pub detail_of : Bool → Text → Text → Text
unfolding last_line
detail_of true output e = txt "no answer inside 250ms"
detail_of false output e =
    let text = trim_space output in
    if text == [] then e else trim_space (last_line (split_lines text))

-- The command runner on a host, and whether the deadline of the probe passed by then.
pub record Pinger (W : Type 0) : Type 0 where
  pub run : List Text → W → W × Answer
  pub expired : W → Bool

-- `Probe`
unfoldable pub probe : {W : Type 0} → Pinger W → Text → Text → W → W × Measurement
unfolding detail_of
probe p ns target w =
    let aim = if target == [] then default_target else target in
    let (next, a) =
      p.run
        (txt "ip"
          ∷ txt "netns"
          ∷ txt "exec"
          ∷ ns
          ∷ txt "ping"
          ∷ txt "-n"
          ∷ txt "-c"
          ∷ txt "1"
          ∷ txt "-W"
          ∷ txt "1"
          ∷ aim
          ∷ [])
        w in
    elim a.failed [
      | some e ↦ (
        next,
        record {
          state = state_unreachable;
          target = aim;
          detail = detail_of (p.expired next) a.output e;
        },
      )
      | none ↦ (next, record { state = state_reachable; target = aim; detail = [] })
    ]
