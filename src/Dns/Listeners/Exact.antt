-- ===== src/Dns/Listeners/Exact.antt =====
-- The addresses that hold a listener after SyncListeners.
use hydrascale.Common.{
  Bool, true, false, not, all, ◌&&◌, ◌||◌, ◌≡◌, List, [], ◌∷◌, Text, text_eq, ◌==◌, mem, Map, keys,
  Result, ok, err,
}
use hydrascale.Dns.Listeners.{Sockets, Listeners}

abbrev pub is_ok {ℓ} : {A : Type ℓ} → Result Text A → Bool
is_ok (ok p) = true
is_ok (err e) = false

abbrev pub is_nil : List Text → Bool
is_nil [] = true
is_nil (e ∷ es) = false

-- The sockets on port 53: a bind succeeds where the host lets the daemon bind the address and the
-- daemon holds no socket there, and a stop closes the socket of its address without an error.
pub record Ports {W P : Type 0} (sockets : Sockets W P) : Type 0 where
  pub bound : W → Text → Bool
  pub opens : Text → Bool
  pub starts :
      (addr : Text) (w : W) → is_ok (sockets.start addr w).1 ≡ (opens addr && not (bound w addr))
  pub started :
      (addr : Text) (w : W) (a : Text)
      → bound (sockets.start addr w).0 a ≡ (bound w a || (addr == a && opens addr))
  pub stopped :
      (addr : Text) (p : P) (w : W) (a : Text)
      → bound (sockets.stop addr p w).0 a ≡ (bound w a && not (addr == a))
  pub stops : (addr : Text) (p : P) (w : W) → (sockets.stop addr p w).1 ≡ []

module _ {W P : Type 0} (sockets : Sockets W P) (ports : Ports sockets) where
  open ports use {bound, opens}

  -- The daemon holds a socket exactly where it holds a listener.
  abbrev pub InStep : W → Map Text P → Type 0
  InStep w held = (a : Text) → bound w a ≡ mem a (keys held)

  -- What the start of one address leaves.
  record StartOne (addr : Text) (held : Map Text P) (r : W × Map Text P × List Text) : Type 0 where
    step : InStep r.0 r.1
    holds : (a : Text) → mem a (keys r.1) ≡ (mem a (keys held) || (addr == a && opens addr))
    quiet : is_nil r.2 ≡ (mem addr (keys held) || opens addr)

  abbrev reaches : Map Text P → Text → Bool
  reaches held a = mem a (keys held) || opens a

  record StartWanted (want : List Text) (held : Map Text P) (r : W × Map Text P × List Text)
      : Type 0 where
    step : InStep r.0 r.1
    holds : (a : Text) → mem a (keys r.1) ≡ (mem a (keys held) || (mem a want && opens a))
    quiet : is_nil r.2 ≡ all (reaches held) want
