-- ===== src/HostAccess/Resolved.antt =====
-- internal/hostaccess/resolved.go: the registration of domains with systemd-resolved.
pub mod Checked
use hydrascale.Common.{
  ℕ, Bool, true, false, not, ◌&&◌, ◌||◌, Option, none, some, Answer, List, [], ◌∷◌, ◌++◌, map, Text,
  txt, text_eq, ◌==◌, eqb, leb, if◌then◌else◌, length, all, join, trim_suffix, trim_prefix,
  split_on, is_some,
}
use hydrascale.Config.{is_alphanumeric}

-- A character of a label that may be a hyphen only inside it.
good_chars : Bool → Text → Bool
good_chars first [] = true
good_chars first (c ∷ []) = is_alphanumeric c
good_chars first (c ∷ d ∷ s) =
    (is_alphanumeric c || (eqb c b'-' && not first)) && good_chars false (d ∷ s)

abbrev pub is_empty : Text → Bool
is_empty [] = true
is_empty (c ∷ s) = false

good_label : Text → Bool
unfolding good_chars
good_label label = not (is_empty label) && leb (length label) 63 && good_chars true label

-- `validDNSName`
unfoldable pub valid_dns_name : Text → Bool
unfolding good_label
valid_dns_name text =
    let d = trim_suffix text (txt ".") in
    not (is_empty d) && leb (length d) 253 && all good_label (split_on b'.' d)

abbrev device_char : ℕ → Bool
device_char c = is_alphanumeric c || eqb c b'.' || eqb c b'_' || eqb c b'-'

-- `validDeviceName`
unfoldable pub valid_device_name : Text → Bool
valid_device_name [] = false
valid_device_name (c ∷ s) = is_alphanumeric c && all device_char s && leb (length s) 14

pub record Link : Type 0 where
  pub device : Text
  pub address : Text
  pub domains : List Text

abbrev pub bare_domain : Text → Text
bare_domain d = trim_prefix d (txt "~")

unfoldable pub no_texts : List Text → Bool
no_texts [] = true
no_texts (d ∷ ds) = false

-- The first domain of a link that is no DNS name.
bad_domain : List Text → Option Text
bad_domain [] = none
bad_domain (d ∷ ds) =
    let rest = bad_domain ds in if valid_dns_name (bare_domain d) then rest else some d

module _ (is_ip : Text → Bool) (quote : Text → Text) where
  -- The check of one link.
  unfoldable pub link_error : Link → Option Text
  unfolding no_texts bad_domain
  link_error l =
      let domain : Option Text = elim (bad_domain l.domains) [
        | none ↦ none
        | some d ↦ some (
            txt "the domain "
            ++ quote d
            ++ txt " of the device "
            ++ quote l.device
            ++ txt " is not a DNS name")
      ] in
      if not (valid_device_name l.device)
      then some (txt "the device " ++ quote l.device ++ txt " is not a device name")
      else if not (is_ip l.address)
      then some (
          txt "the address "
          ++ quote l.address
          ++ txt " of the device "
          ++ quote l.device
          ++ txt " is not an IP address")
      else if no_texts l.domains
      then some (txt "the device " ++ quote l.device ++ txt " carries no domain")
      else domain

  unfoldable pub links_error : List Link → Option Text
  unfolding link_error
  links_error [] = none
  links_error (l ∷ links) = elim (link_error l) [ some e ↦ some e | none ↦ links_error links ]

module _ {W : Type 0} (run : List Text → W → W × Answer) where
  -- `isAvailable`
  unfoldable pub is_available : W → W × Bool
  is_available w =
      let (next, a) =
        run (txt "systemctl" ∷ txt "is-active" ∷ txt "--quiet" ∷ txt "systemd-resolved" ∷ []) w in
      (next, not (is_some a.failed))

  abbrev pub dns_args : Link → List Text
  dns_args l = txt "resolvectl" ∷ txt "dns" ∷ l.device ∷ l.address ∷ []

  abbrev pub domain_args : Link → List Text
  domain_args l =
      txt "resolvectl" ∷ txt "domain" ∷ l.device ∷ map (λ d. txt "~" ++ bare_domain d) l.domains

  failed_text : List Text → Text → Text → Text
  failed_text args e output = join args (txt " ") ++ txt ": " ++ e ++ txt " (" ++ output ++ txt ")"

  -- The two commands of one link: whether the link is registered, and the failure.
  unfoldable pub register_link : Link → W → W × Bool × List Text
  unfolding failed_text
  register_link l w =
      let (w1, a1) = run (dns_args l) w in
      let (w2, a2) = run (domain_args l) w1 in
      elim a1.failed [
        | some e ↦ (w1, false, failed_text (dns_args l) e a1.output ∷ [])
        | none ↦ elim a2.failed [
          | some e ↦ (w2, false, failed_text (domain_args l) e a2.output ∷ [])
          | none ↦ (w2, true, [])
        ]
      ]

  -- The loop over the links.
  unfoldable pub register_links : List Link → W → W × List Text × List Text
  unfolding register_link
  register_links [] w = (w, [], [])
  register_links (l ∷ links) w =
      let (next, done, errors) = register_link l w in
      let (last, devices, more) = register_links links next in
      (last, (if done then l.device ∷ devices else devices), errors ++ more)

  -- RegisterDomains for links that hold.
  register_checked : List Link → List Text → W → W × List Text × List Text
  unfolding is_available register_links
  register_checked links registered w =
      let (next, available) = is_available w in
      let done = register_links links next in
      if not available then (next, registered, txt "systemd-resolved is not running" ∷ []) else done

  -- `RegisterDomains`: the registered devices, and the failures.
  unfoldable pub register_domains :
      (Text → Bool) → (Text → Text) → List Link → List Text → W → W × List Text × List Text
  unfolding register_checked
  register_domains is_ip quote [] registered w = (w, registered, [])
  register_domains is_ip quote (l ∷ links) registered w =
      elim (links_error is_ip quote (l ∷ links)) [
        | some e ↦ (w, registered, e ∷ [])
        | none ↦ register_checked (l ∷ links) registered w
      ]

  -- The loop of `DeregisterAll`.
  unfoldable pub revert_all : List Text → W → W × List Text
  unfolding failed_text
  revert_all [] w = (w, [])
  revert_all (device ∷ devices) w =
      let args = txt "resolvectl" ∷ txt "revert" ∷ device ∷ [] in
      let (next, a) = run args w in
      let (last, more) = revert_all devices next in
      let errors : List Text = elim a.failed [
        | none ↦ []
        | some e ↦ failed_text args e a.output ∷ []
      ] in
      (last, errors ++ more)

  -- `DeregisterAll`
  unfoldable pub deregister_all : List Text → W → W × List Text × List Text
  unfolding revert_all no_texts
  deregister_all registered w =
      let (next, errors) = revert_all registered w in
      if no_texts registered
      then (w, registered, [])
      else (next, (if no_texts errors then [] else registered), errors)
