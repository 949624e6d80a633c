-- ===== src/Reconciler/Steady.antt =====
-- What every step of a tick keeps: the bound of the event list, and the tailnets that the operator
-- paused.
pub mod Reports
use hydrascale.Common.{
  ℕ, Bool, true, false, ◌≡◌, refl, ◌∙◌, Text, text_eq, if◌then◌else◌, Map, put, delete, arith,
}
use hydrascale.Reconciler.{State, emit}
use hydrascale.Reconciler.Execute.Bounded.{IsBounded, emit-IsBounded}

pub record Steady (s t : State) : Type 0 where
  pub bounded : IsBounded s → IsBounded t
  pub paused : t.paused_states ≡ s.paused_states

pub Steady-refl : (s : State) → Steady s s
Steady-refl s = record { bounded = λ h. h; paused = refl }

pub Steady-trans : {s t u : State} → Steady s t → Steady t u → Steady s u
Steady-trans a b = record { bounded = λ h. b.bounded (a.bounded h); paused = b.paused ∙ a.paused }

-- A state with the same events and the same pauses.
pub Steady-same :
    (s t : State) → t.events ≡ s.events → t.paused_states ≡ s.paused_states → Steady s t
Steady-same s t events paused = record { bounded = λ h. rw events h; paused = paused }

pub emit-Steady : (kind tailnet message : Text) (s : State) → Steady s (emit kind tailnet message s)
unfolding emit
emit-Steady kind tailnet message s = record {
  bounded = emit-IsBounded kind tailnet message s;
  paused = ground arith;
}

-- An event after a step that is steady.
pub emit-after :
    {s t : State} (kind tailnet message : Text)
    → Steady s t
    → Steady s (emit kind tailnet message t)
emit-after {s} {t} kind tailnet message h = Steady-trans h (emit-Steady kind tailnet message t)

pub if-Steady : (b : Bool) {s t u : State} → Steady s t → Steady s u → Steady s (if b then t else u)
if-Steady true h k = h
if-Steady false h k = k

-- The same for a step that also moves the host.
pub step-Steady :
    {W : Type 0} (b : Bool) (s : State) (p q : W × State)
    → Steady s p.1
    → Steady s q.1
    → Steady s (if b then p else q).1
step-Steady true s p q h k = h
step-Steady false s p q h k = k
