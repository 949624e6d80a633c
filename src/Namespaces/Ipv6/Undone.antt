-- ===== src/Namespaces/Ipv6/Undone.antt =====
-- internal/namespaces/ipv6.go: DisableForceForwarding takes back what EnableForceForwarding set.
use hydrascale.Common.{
  Bool, true, false, Option, none, Answer, List, [], ◌∷◌, ◌++◌, Text, txt, text_eq, ◌==◌, ◌||◌,
  ==_iff, mem, map, if◌then◌else◌, ◌≡◌, refl, sym, ap, ◌∙◌, ◌⊎◌, inl, inr, Bool-cases, arith,
  trim_space, same_text,
}
use hydrascale.Namespaces.Rules.{RuleError}
use hydrascale.Namespaces.Ipv6.{
  enable_force_forwarding, disable_force_forwarding, ipv6_key, read_key, write_key,
}

abbrev pub bit : Bool → Text
bit true = txt "1"
bit false = txt "0"

-- What `sysctl` does: a read prints the value of the key and a line feed, and a write sets its key
-- alone.
pub record Sysctl (W : Type 0) (run : List Text → W → W × Answer) : Type 0 where
  pub value : Text → W → Text
  pub reads :
      (key : Text) (w : W)
      → run (read_key key) w ≡ (w, record { output = value key w ++ 10 ∷ []; failed = none })
  pub writes : (key : Text) (on : Bool) (w : W) → (run (write_key key (bit on)) w).1.failed ≡ none
  pub value_written :
      (key : Text) (on : Bool) (other : Text) (w : W)
      → value other (run (write_key key (bit on)) w).0
        ≡ (if key == other then bit on else value other w)

unfoldable pub force_key : Text → Text
force_key device = ipv6_key device (txt ".force_forwarding")

-- A key that one write sets, or a later one.
reset_twice :
    (own later : Bool) (v before set : Text)
    → set ≡ (if own then v else before)
    → (if later then v else set) ≡ (if own || later then v else before)
reset_twice own true v before set h = ground arith
reset_twice true false v before set h = h
reset_twice false false v before set h = h

either {ℓ} : {A : Type ℓ} (b : Bool) (a c : A) → c ≡ a → (if b then a else c) ≡ a
either true a c h = refl
either false a c h = h

module _ {W : Type 0} (run : List Text → W → W × Answer) (sysctl : Sysctl W run) where
  -- Every key of a list of devices is reset, and no other.
  disable-value :
      (devices : List Text) (key : Text) (w : W)
      → sysctl.value key (disable_force_forwarding run devices w).0
        ≡ (if mem key (map force_key devices) then txt "0" else sysctl.value key w)
  unfolding disable_force_forwarding force_key
  disable-value [] key w = refl
  disable-value (device ∷ devices) key w =
      let set : W = (run (write_key (force_key device) (txt "0")) w).0 in
      disable-value devices key set
      ∙ reset_twice (force_key device == key) (mem key (map force_key devices)) (txt "0")
          (sysctl.value key w) (sysctl.value key set)
          (sysctl.value_written (force_key device) false key w)

  enable_held :
      (device : Text) (upstreams : List Text) (w : W)
      → sysctl.value (force_key device) w ≡ txt "1"
      → enable_force_forwarding run (device ∷ upstreams) w ≡ enable_force_forwarding run upstreams w
  unfolding enable_force_forwarding force_key trim_space same_text
  enable_held device upstreams w h = rw (sysctl.reads (force_key device) w) (rw h refl)

  enable_changed :
      (device : Text) (upstreams : List Text) (w : W)
      → sysctl.value (force_key device) w ≡ txt "0"
      → enable_force_forwarding run (device ∷ upstreams) w ≡ (
          let rest =
            enable_force_forwarding run upstreams
              (run (write_key (force_key device) (txt "1")) w).0 in
          (rest.0, device ∷ rest.1, rest.2))
  unfolding enable_force_forwarding force_key trim_space same_text
  enable_changed device upstreams w h =
      rw (sysctl.reads (force_key device) w)
        (rw h (rw (sysctl.writes (force_key device) true w) refl))

  -- The host and the devices after an enabling.
  record Enabled (upstreams : List Text) (w : W) (r : W × List Text × Option RuleError)
      : Type 0 where
    fine : r.2 ≡ none
    set :
        (key : Text)
        → sysctl.value key r.0
          ≡ (if mem key (map force_key r.1) then txt "1" else sysctl.value key w)
    clear : (key : Text) → mem key (map force_key r.1) ≡ true → sysctl.value key w ≡ txt "0"
    forwards :
        (key : Text) → mem key (map force_key upstreams) ≡ true → sysctl.value key r.0 ≡ txt "1"

  unfoldable pub IsSwitch : Text → W → Type 0
  IsSwitch key w = (sysctl.value key w ≡ txt "0") ⊎ (sysctl.value key w ≡ txt "1")

  held-Enabled :
      (device : Text) (upstreams : List Text) (w : W) (r : W × List Text × Option RuleError)
      → sysctl.value (force_key device) w ≡ txt "1"
      → Enabled upstreams w r
      → Enabled (device ∷ upstreams) w r
  held-Enabled device upstreams w r h e = record {
    fine = e.fine;
    set = e.set;
    clear = e.clear;
    forwards = λ key m. elim (Bool-cases (force_key device == key)) [
      | inl same ↦
          let own : force_key device ≡ key = (==_iff (force_key device) key).0 same in
          e.set key
          ∙ either (mem key (map force_key r.1)) (txt "1") (sysctl.value key w)
              (ap (λ (k : Text). sysctl.value k w) (sym own) ∙ h)
      | inr other ↦ e.forwards key (ground (arith, m, other))
    ];
  }

  changed-Enabled :
      (device : Text) (upstreams : List Text) (w : W) (r : W × List Text × Option RuleError)
      → sysctl.value (force_key device) w ≡ txt "0"
      → Enabled upstreams (run (write_key (force_key device) (txt "1")) w).0 r
      → Enabled (device ∷ upstreams) w (r.0, device ∷ r.1, r.2)
  changed-Enabled device upstreams w r h e =
      let written = sysctl.value_written (force_key device) true in
      record {
        fine = e.fine;
        set = λ key.
            e.set key
            ∙ reset_twice (force_key device == key) (mem key (map force_key r.1)) (txt "1") _ _
                (written key w);
        clear = λ key m. elim (Bool-cases (force_key device == key)) [
          | inl same ↦
              let own : force_key device ≡ key = (==_iff (force_key device) key).0 same in
              ap (λ (k : Text). sysctl.value k w) (sym own) ∙ h
          | inr other ↦ ground (arith, written key w, other, e.clear key, m)
        ];
        forwards = λ key m. elim (Bool-cases (force_key device == key)) [
          | inl same ↦
              e.set key
              ∙ either (mem key (map force_key r.1)) (txt "1") _
                  (ground (arith, written key w, same))
          | inr other ↦ e.forwards key (ground (arith, m, other))
        ];
      }

  enable-Enabled :
      (upstreams : List Text) (w : W)
      → ((key : Text) → mem key (map force_key upstreams) ≡ true → IsSwitch key w)
      → Enabled upstreams w (enable_force_forwarding run upstreams w)
  unfolding IsSwitch enable_force_forwarding
  enable-Enabled [] w h = record {
    fine = refl;
    set = λ key. refl;
    clear = λ key m. absurd (ground (arith, m));
    forwards = λ key m. absurd (ground (arith, m));
  }
  enable-Enabled (device ∷ upstreams) w h =
      elim (h (force_key device) (ground (arith, ==_iff (force_key device) (force_key device)))) [
        | inr held ↦ rw (enable_held device upstreams w held) (
            held-Enabled device upstreams w _ held
              (enable-Enabled upstreams w (λ key m. h key (ground (arith, m)))))
        | inl low ↦ rw (enable_changed device upstreams w low) (
            changed-Enabled device upstreams w _ low (
              enable-Enabled upstreams (run (write_key (force_key device) (txt "1")) w).0 λ key m.
                elim (Bool-cases (force_key device == key)) [
                  | inl same ↦
                      inr (ground (arith, same, sysctl.value_written (force_key device) true key w))
                  | inr other ↦ elim (h key (ground (arith, m))) [
                    | inl zero ↦ inl (
                        ground
                          (arith, other, zero, sysctl.value_written (force_key device) true key w))
                    | inr one ↦ inr (
                        ground
                          (arith, other, one, sysctl.value_written (force_key device) true key w))
                  ]
                ]))
      ]

  -- Where the forwarding keys of the upstream devices are 0 or 1 and sysctl reads and writes them,
  -- EnableForceForwarding succeeds and every upstream device forwards after it, and
  -- DisableForceForwarding of the devices that it answers gives every key of the host back the
  -- value from before.
  pub disable_force_forwarding-enable_force_forwarding :
      (upstreams : List Text) (w : W)
      → ((key : Text) → mem key (map force_key upstreams) ≡ true → IsSwitch key w)
      → ((enable_force_forwarding run upstreams w).2 ≡ none)
        × ((key : Text)
            → mem key (map force_key upstreams) ≡ true
            → sysctl.value key (enable_force_forwarding run upstreams w).0 ≡ txt "1")
        × ((key : Text)
            → sysctl.value key
                (disable_force_forwarding run
                  (enable_force_forwarding run upstreams w).1
                  (enable_force_forwarding run upstreams w).0).0
              ≡ sysctl.value key w)
  disable_force_forwarding-enable_force_forwarding upstreams w h =
      let e = enable-Enabled upstreams w h in
      let r = enable_force_forwarding run upstreams w in
      (
        e.fine,
        e.forwards,
        λ key. disable-value r.1 key r.0 ∙ elim (Bool-cases (mem key (map force_key r.1))) [
          | inl changed ↦ ground (arith, changed, e.clear key)
          | inr other ↦ ground (arith, other, e.set key)
        ],
      )
