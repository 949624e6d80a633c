-- ===== src/HostAccess/Device.antt =====
-- A host that does what a successful `ip route` command says, and what the writes of the routes do
-- to it.
use hydrascale.Common.{
  Bool, true, false, not, ◌&&◌, ◌||◌, ◌≡◌, refl, sym, ap, ◌∙◌, nil_parts, none, List, [], ◌∷◌, ◌++◌,
  map, append_assoc, Text, text_eq, ◌==◌, mem, mem-keep, Option-cases, inl, inr, arith,
}
use hydrascale.HostAccess.Sets.{diff_routes}
use hydrascale.HostAccess.Sync.{Runner, error_of, run_all, add_v4, add_v6, del_route}
use hydrascale.HostAccess.Sync.Write.{Settings, write_routes}

-- A hit of a command of one family on a route of another.
abbrev pub same_family : Bool → Bool → Bool
same_family true v6 = v6
same_family false v6 = not v6

-- The routes of the table on the device: the documented effect of `ip route replace` and
-- `ip route del` where the command succeeds.
pub record RouteDevice {W : Type 0} (run : Runner W) (m : Settings) (gateway veth : Text)
    : Type 0 where
  pub holds : Bool → Text → W → Bool
  pub added_v4 :
      (v6 : Bool) (x ip : Text) (w : W)
      → (run (add_v4 m.route_table gateway veth ip) w).1.failed ≡ none
      → holds v6 x (run (add_v4 m.route_table gateway veth ip) w).0
        ≡ ((not v6 && ip == x) || holds v6 x w)
  pub added_v6 :
      (v6 : Bool) (x ip : Text) (w : W)
      → (run (add_v6 m.route_table veth ip) w).1.failed ≡ none
      → holds v6 x (run (add_v6 m.route_table veth ip) w).0 ≡ ((v6 && ip == x) || holds v6 x w)
  pub deleted :
      (family v6 : Bool) (x ip : Text) (w : W)
      → (run (del_route m.route_table family ip) w).1.failed ≡ none
      → holds v6 x (run (del_route m.route_table family ip) w).0
        ≡ (holds v6 x w && not (same_family family v6 && ip == x))

module _ {W : Type 0} (run : Runner W) where
  run_all-append :
      (xs ys : List (List Text)) (w : W)
      → run_all run (xs ++ ys) w ≡ (
        (run_all run ys (run_all run xs w).0).0,
        (run_all run xs w).1 ++ (run_all run ys (run_all run xs w).0).1,
      )
  unfolding run_all
  run_all-append [] ys w = refl
  run_all-append (x ∷ xs) ys w = rw (run_all-append xs ys (run x w).0) (
      rw
        (append_assoc (error_of x (run x w).1) (run_all run xs (run x w).0).1
          (run_all run ys (run_all run xs (run x w).0).0).1)
        refl)

  -- A run of two lists of commands without an error.
  run_all_split :
      (xs ys : List (List Text)) (w : W)
      → (run_all run (xs ++ ys) w).1 ≡ []
      → ((run_all run xs w).1 ≡ [])
        × ((run_all run ys (run_all run xs w).0).1 ≡ [])
        × ((run_all run (xs ++ ys) w).0 ≡ (run_all run ys (run_all run xs w).0).0)
  run_all_split xs ys w h =
      let e = run_all-append xs ys w in
      let (a, b) =
        nil_parts (run_all run xs w).1 (run_all run ys (run_all run xs w).0).1
          (sym (ap (λ (r : W × List Text). r.1) e) ∙ h) in
      (a, b, ap (λ (r : W × List Text). r.0) e)

  -- A run of commands without an error: the first command succeeded, and the rest had none.
  first_succeeds :
      (args : List Text) (commands : List (List Text)) (w : W)
      → (run_all run (args ∷ commands) w).1 ≡ []
      → ((run args w).1.failed ≡ none) × ((run_all run commands (run args w).0).1 ≡ [])
  unfolding run_all
  first_succeeds args commands w h = elim (Option-cases (run args w).1.failed) [
    | inl fine ↦ (fine, ground (arith, h, fine))
    | inr (e, failed) ↦ absurd (ground (arith, h, failed))
  ]

  module _ (look : W → Bool) (x : Text) (hit : Bool) (command : Text → List Text) where
    adds :
        ((ip : Text) (w : W)
          → (run (command ip) w).1.failed ≡ none
          → look (run (command ip) w).0 ≡ ((hit && ip == x) || look w))
        → (ips : List Text) (w : W) → (run_all run (map command ips) w).1 ≡ []
        → look (run_all run (map command ips) w).0 ≡ ((hit && mem x ips) || look w)
    unfolding run_all
    adds law [] w h = ground arith
    adds law (ip ∷ ips) w h =
        let (fine, rest) = first_succeeds (command ip) (map command ips) w h in
        let one = law ip w fine in
        let more = adds law ips (run (command ip) w).0 rest in ground (arith, one, more)

    dels :
        ((ip : Text) (w : W)
          → (run (command ip) w).1.failed ≡ none
          → look (run (command ip) w).0 ≡ (look w && not (hit && ip == x)))
        → (ips : List Text) (w : W) → (run_all run (map command ips) w).1 ≡ []
        → look (run_all run (map command ips) w).0 ≡ (look w && not (hit && mem x ips))
    unfolding run_all
    dels law [] w h = ground arith
    dels law (ip ∷ ips) w h =
        let (fine, rest) = first_succeeds (command ip) (map command ips) w h in
        let one = law ip w fine in
        let more = dels law ips (run (command ip) w).0 rest in ground (arith, one, more)

mem-added :
    (x : Text) (want actual : List Text)
    → mem x (diff_routes want actual).0 ≡ (mem x want && not (mem x actual))
unfolding diff_routes
mem-added x want actual = mem-keep (λ ip. not (mem ip actual)) x want

mem-removed :
    (x : Text) (want actual : List Text)
    → mem x (diff_routes want actual).1 ≡ (mem x actual && not (mem x want))
unfolding diff_routes
mem-removed x want actual = mem-keep (λ ip. not (mem ip want)) x actual

-- Where every command succeeds, the device holds exactly the wanted routes of both families after the
-- writes, if the routes that the daemon read were those that the device held.
pub write_routes-holds :
    {W : Type 0} (run : Runner W) (m : Settings) (gateway veth : Text)
    (device : RouteDevice run m gateway veth) (want_v4 want_v6 actual_v4 actual_v6 : List Text)
    (w : W) (x : Text)
    → device.holds false x w ≡ mem x actual_v4
    → device.holds true x w ≡ mem x actual_v6
    → (write_routes run m gateway veth (want_v4, want_v6) (actual_v4, actual_v6) w).1 ≡ []
    → let after = (write_routes run m gateway veth (want_v4, want_v6) (actual_v4, actual_v6) w).0 in
      (device.holds false x after ≡ mem x want_v4) × (device.holds true x after ≡ mem x want_v6)
unfolding write_routes
write_routes-holds run m gateway veth device want_v4 want_v6 actual_v4 actual_v6 w x was_v4 was_v6
      h =
    let (added_v4, removed_v4) = diff_routes want_v4 actual_v4 in
    let (added_v6, removed_v6) = diff_routes want_v6 actual_v6 in
    let a = map (add_v4 m.route_table gateway veth) added_v4 in
    let b = map (del_route m.route_table false) removed_v4 in
    let c = map (add_v6 m.route_table veth) added_v6 in
    let d = map (del_route m.route_table true) removed_v6 in
    let (ha, hbcd, ea) = run_all_split run a (b ++ (c ++ d)) w h in
    let wa = (run_all run a w).0 in
    let (hb, hcd, eb) = run_all_split run b (c ++ d) wa hbcd in
    let wb = (run_all run b wa).0 in
    let (hc, hd, ec) = run_all_split run c d wb hcd in
    let wc = (run_all run c wb).0 in
    let last = (run_all run d wc).0 in
    let e : (write_routes run m gateway veth (want_v4, want_v6) (actual_v4, actual_v6) w).0 ≡ last =
      ea ∙ eb ∙ ec in
    let one = λ (v6 : Bool).
      adds run (device.holds v6 x) x (not v6) (add_v4 m.route_table gateway veth)
        (λ ip. device.added_v4 v6 x ip) added_v4 w ha in
    let two = λ (v6 : Bool).
      dels run (device.holds v6 x) x (not v6) (del_route m.route_table false)
        (λ ip. device.deleted false v6 x ip) removed_v4 wa hb in
    let three = λ (v6 : Bool).
      adds run (device.holds v6 x) x v6 (add_v6 m.route_table veth) (λ ip. device.added_v6 v6 x ip)
        added_v6 wb hc in
    let four = λ (v6 : Bool).
      dels run (device.holds v6 x) x v6 (del_route m.route_table true)
        (λ ip. device.deleted true v6 x ip) removed_v6 wc hd in
    rw e (
      ground (
        arith,
        one false,
        two false,
        three false,
        four false,
        was_v4,
        mem-added x want_v4 actual_v4,
        mem-removed x want_v4 actual_v4,
      ),
      ground (
        arith,
        one true,
        two true,
        three true,
        four true,
        was_v6,
        mem-added x want_v6 actual_v6,
        mem-removed x want_v6 actual_v6,
      ),
    )
