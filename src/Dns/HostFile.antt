-- ===== src/Dns/HostFile.antt =====
-- internal/dns/hostfile.go: the state of the host resolv.conf file, and the monitor that reports a
-- change of it.
use hydrascale.Common.{
  ℕ, Bool, true, false, not, ◌&&◌, ◌≡◌, refl, Option, none, some, [], ◌∷◌, ◌++◌, Text, txt, text_eq,
  ◌==◌, ==_refl, eqb, if◌then◌else◌, Result, ok, err, Bool-cases, inl, inr, arith,
}

abbrev pub default_host_resolv_conf : Text
default_host_resolv_conf = txt "/etc/resolv.conf"

pub record HostFileState : Type 0 where
  pub path : Text
  pub link_target : Text
  pub checksum : Text
  pub first_line : Text
  pub missing : Bool

-- What os.Lstat answers, with the answer of os.Readlink for a symbolic link.
pub data Entry : Type 0 where
  no_entry regular : Entry
  lstat_failed : Text → Entry
  symlink : Result Text Text → Entry

-- What os.ReadFile answers.
pub data Content : Type 0 where
  no_content : Content
  read_failed : Text → Content
  content : Text → Content

-- The files of a host at one moment, and the hexadecimal SHA-256 digest.
pub record Files : Type 0 where
  pub lstat : Text → Entry
  pub read_file : Text → Content
  pub sha256_hex : Text → Text

-- The text before the first line feed.
before_newline : Text → Text
before_newline [] = []
before_newline (c ∷ s) = let rest = before_newline s in if eqb c 10 then [] else c ∷ rest

-- strings.TrimSuffix(line, "\r")
trim_return : Text → Text
trim_return [] = []
trim_return (c ∷ []) = if eqb c 13 then [] else c ∷ []
trim_return (c ∷ d ∷ s) = c ∷ trim_return (d ∷ s)

-- `firstLine`
unfoldable pub first_line_of : Text → Text
unfolding before_newline trim_return
first_line_of s = trim_return (before_newline s)

abbrev seen : Text → Text → Text → Text → Bool → HostFileState
seen path target checksum line missing = record {
  path = path;
  link_target = target;
  checksum = checksum;
  first_line = line;
  missing = missing;
}

-- The observation and the error, where there is one.
abbrev pub Observation : Type 0
Observation = HostFileState × Option Text

-- The second half of `ReadHostFileState`, after the link.
read_content : Files → Text → Text → Observation
unfolding first_line_of
read_content env path target = elim (env.read_file path) [
  | no_content ↦ (seen path target [] [] true, none)
  | read_failed e ↦ (seen path target [] [] false, some (txt "read " ++ path ++ txt ": " ++ e))
  | content c ↦
      let label = if target == [] then [] else txt "link:" ++ target ++ 10 ∷ [] in
      (seen path target (env.sha256_hex (label ++ c)) (first_line_of c) false, none)
]

-- `ReadHostFileState`
unfoldable pub read_host_file_state : Files → Text → Observation
unfolding read_content
read_host_file_state env path = elim (env.lstat path) [
  | no_entry ↦ (seen path [] [] [] true, none)
  | lstat_failed e ↦ (seen path [] [] [] false, some (txt "stat " ++ path ++ txt ": " ++ e))
  | symlink (err e) ↦ (seen path [] [] [] false, some (txt "read link " ++ path ++ txt ": " ++ e))
  | symlink (ok target) ↦ read_content env path target
  | regular ↦ read_content env path []
]

pub record HostFileMonitor : Type 0 where
  pub path : Text
  pub started : Bool
  pub state : HostFileState
  pub last_change : Option ℕ

-- `NewHostFileMonitor`
unfoldable pub new_host_file_monitor : Text → HostFileMonitor
new_host_file_monitor path = record {
  path = if path == [] then default_host_resolv_conf else path;
  started = false;
  state = seen [] [] [] [] false;
  last_change = none;
}

-- `Start`
unfoldable pub start_monitor : Files → HostFileMonitor → HostFileMonitor × Observation
start_monitor env m =
    let (current, failed) = read_host_file_state env m.path in
    elim failed [
      | some e ↦ (m, (current, some e))
      | none ↦ (record m { started = true; state = current }, (current, none))
    ]

-- What Check answers: whether the file changed, the previous state, the current state, and the error.
pub record Checked : Type 0 where
  pub changed : Bool
  pub previous : HostFileState
  pub current : HostFileState
  pub failed : Option Text

abbrev same_bool : Bool → Bool → Bool
same_bool true b = b
same_bool false b = not b

abbrev pub same_file : HostFileState → HostFileState → Bool
same_file a b =
    a.checksum == b.checksum && a.link_target == b.link_target && same_bool a.missing b.missing

-- Check after the read, at the time `now`.
compare_state : ℕ → Observation → HostFileMonitor → HostFileMonitor × Checked
compare_state now (current, some e) m =
    (m, record { changed = false; previous = m.state; current = current; failed = some e })
compare_state now (current, none) m =
    let quiet : Checked = record {
      changed = false;
      previous = m.state;
      current = current;
      failed = none;
    } in
    if not m.started
    then (record m { started = true; state = current }, quiet)
    else if same_file m.state current
    then (m, quiet)
    else (record m { state = current; last_change = some now }, record quiet { changed = true })

-- `Check`
unfoldable pub check_monitor : Files → ℕ → HostFileMonitor → HostFileMonitor × Checked
unfolding compare_state
check_monitor env now m = compare_state now (read_host_file_state env m.path) m

same_file_refl : (a : HostFileState) → same_file a a ≡ true
same_file_refl a = ground (arith, ==_refl a.checksum, ==_refl a.link_target)

compare_state_again :
    (now later : ℕ) (o : Observation) (m : HostFileMonitor)
    → (compare_state later o (compare_state now o m).0).1.changed ≡ false
unfolding compare_state
compare_state_again now later (current, some e) m = refl
compare_state_again now later (current, none) m = elim (Bool-cases m.started) [
  | inr new ↦ rw new (ground (arith, same_file_refl current))
  | inl old ↦ elim (Bool-cases (same_file m.state current)) [
    | inl same ↦ ground (arith, old, same)
    | inr other ↦ ground (arith, old, other, same_file_refl current)
  ]
]

compare_state-path :
    (now : ℕ) (o : Observation) (m : HostFileMonitor) → (compare_state now o m).0.path ≡ m.path
unfolding compare_state
compare_state-path now (current, some e) m = refl
compare_state-path now (current, none) m = ground arith

-- One change of the file gives one report: a second check of the same files answers that nothing
-- changed.
pub check_monitor_again :
    (env : Files) (now later : ℕ) (m : HostFileMonitor)
    → (check_monitor env later (check_monitor env now m).0).1.changed ≡ false
unfolding check_monitor
check_monitor_again env now later m =
    let o = read_host_file_state env m.path in
    rw (compare_state-path now o m) (compare_state_again now later o m)

-- A read that fails reports its error and no change, and the monitor keeps the state that it recorded,
-- so that the next check still compares with it.
pub check_monitor_failed :
    (env : Files) (now : ℕ) (m : HostFileMonitor) (e : Text)
    → (read_host_file_state env m.path).1 ≡ some e
    → ((check_monitor env now m).0 ≡ m)
      × ((check_monitor env now m).1.changed ≡ false)
      × ((check_monitor env now m).1.failed ≡ some e)
unfolding check_monitor compare_state
check_monitor_failed env now m e failed = ground (arith, failed)
