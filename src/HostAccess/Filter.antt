-- ===== src/HostAccess/Filter.antt =====
-- What filterWritableRoutes lets through.
use hydrascale.Common.{
  Bool, true, ◌≡◌, sym, List, [], ◌∷◌, Text, text_eq, ◌==◌, ==_iff, mem, Bool-cases, inl, inr,
  arith,
}
use hydrascale.HostAccess.Destinations.{Addresses, valid_route_dest}
use hydrascale.HostAccess.Sync.{Runner, skip_reason_for_route, filter_writable_routes}

module _ {W : Type 0} (run : Runner W) (env : Addresses) where
  -- A destination that filterWritableRoutes keeps is a candidate, and it is an address or a CIDR block,
  -- whatever the host answers; no other text becomes an argument of `ip route`.
  pub mem-filter_writable_routes :
      (x : Text) (candidates : List Text) (v6 : Bool) (w : W)
      → mem x (filter_writable_routes run env candidates v6 w).1 ≡ true
      → (mem x candidates ≡ true) × (valid_route_dest env x ≡ true)
  unfolding filter_writable_routes
  mem-filter_writable_routes x [] v6 w h = absurd (ground (arith, h))
  mem-filter_writable_routes x (dest ∷ candidates) v6 w h =
      let (next, reason) = skip_reason_for_route run dest v6 w in
      let skipped = mem-filter_writable_routes x candidates v6 w in
      let asked = mem-filter_writable_routes x candidates v6 next in
      elim (Bool-cases (valid_route_dest env dest)) [
        | inr invalid ↦ let (m, v) = skipped (ground (arith, h, invalid)) in (ground (arith, m), v)
        | inl valid ↦ elim (Bool-cases (reason == [])) [
          | inr left_out ↦
              let (m, v) = asked (ground (arith, h, valid, left_out)) in (ground (arith, m), v)
          | inl written ↦ elim (Bool-cases (dest == x)) [
            | inl here ↦
                let e : dest ≡ x = (==_iff dest x).0 here in
                (ground (arith, here), rw (sym e) valid)
            | inr other ↦
                let (m, v) = asked (ground (arith, h, valid, written, other)) in
                (ground (arith, m), v)
          ]
        ]
      ]
