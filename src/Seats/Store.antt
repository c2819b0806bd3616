-- ===== src/Seats/Store.antt =====
-- The methods of `SeatStore` in src/seats.ts.
use wickhunter_hub.Prelude.{
  ℕ, ◌+◌, ◌-◌, String, Bool, true, false, not, ◌&&◌, ◌||◌, Option, none, some, List, [], ◌∷◌, ◌++◌,
  map, lookup, insert, length, drop, leb, ltb, str_eq, if◌then◌else◌, filter, or_else,
}
use wickhunter_hub.Seats.Types.{
  SeatPolicy, IpSample, SeatInstall, SeatRecord, SeatsFile, CloneSignal, AdmitResult, admitted,
  refused, seat_taken, clone, SeatView, InstallView, ip_history_ms, ip_history_max, clone_window_ms,
  clone_switches, max_seat_limit, sample_every_ms,
}

-- `new Set(...)`: the first occurrences
unfoldable pub member : String → List String → Bool
member k [] = false
member k (x ∷ xs) = str_eq x k || member k xs

unfoldable pub distinct : List String → List String
unfolding member
distinct [] = []
distinct (x ∷ xs) = let rest = distinct xs in if member x rest then rest else x ∷ rest

-- `i` from 1: changes between neighbours
unfoldable pub switches_after : String → List IpSample → ℕ
switches_after prev [] = 0
switches_after prev (s ∷ ss) = (if str_eq s.ip prev then 0 else 1) + switches_after s.ip ss

unfoldable pub count_switches : List IpSample → ℕ
unfolding switches_after
count_switches [] = 0
count_switches (s ∷ ss) = switches_after s.ip ss

unfoldable pub clone_signal : SeatInstall → ℕ → Option CloneSignal
unfolding distinct count_switches
clone_signal install now =
    let recent = filter (λ s. leb now (s.at + clone_window_ms)) install.recent_ips in
    let ips = length (distinct (map (λ s. s.ip) recent)) in
    if leb 2 ips
    then some
        (record { ips = ips; switches = count_switches install.recent_ips; window_minutes = 15 })
    else none

unfoldable pub fresh : String → SeatRecord
fresh license_id = record {
  license_id = license_id;
  limit = none;
  installs = [];
  refused = 0;
  last_refused_at_ms = none;
  last_refused_install_id = none;
  last_refused_ip = none;
  released_at_ms = none;
}

abbrev pub seat_of : SeatsFile → String → SeatRecord
seat_of f license_id = or_else (lookup license_id f) (fresh license_id)

unfoldable pub limit_for : SeatPolicy → SeatRecord → ℕ
limit_for policy seat = or_else seat.limit policy.default_limit

unfoldable pub get : SeatsFile → String → Option SeatRecord
get f license_id = lookup license_id f

abbrev pub same_install : String → SeatInstall → Bool
same_install k i = str_eq i.install_id k

-- `installs.find(...)`
unfoldable pub find_install : String → List SeatInstall → Option SeatInstall
find_install k [] = none
find_install k (i ∷ is) = if same_install k i then some i else find_install k is

-- The found install is an element of the array: writing its fields writes that element.
unfoldable pub update_install : String → SeatInstall → List SeatInstall → List SeatInstall
update_install k v [] = []
update_install k v (i ∷ is) = if same_install k i then v ∷ is else i ∷ update_install k v is

unfoldable pub last_sample : List IpSample → Option IpSample
last_sample [] = none
last_sample (s ∷ ss) = elim (last_sample ss) [ none ↦ some s | some l ↦ some l ]

abbrev pub wants_sample : Option IpSample → String → ℕ → Bool
wants_sample none ip now = true
wants_sample (some l) ip now = not (str_eq l.ip ip) || leb (l.at + sample_every_ms) now

-- The history after one more check-in: pruned, sampled, and cut to its newest rows.
unfoldable pub sampled : List IpSample → String → ℕ → List IpSample
unfolding last_sample
sampled history ip now =
    let kept = filter (λ s. leb now (s.at + ip_history_ms)) history in
    let grown =
      if wants_sample (last_sample kept) ip now
      then kept ++ record { ip = ip; at = now } ∷ []
      else kept in
    if ltb ip_history_max (length grown) then drop (length grown - ip_history_max) grown else grown

unfoldable pub touch : SeatInstall → String → ℕ → SeatInstall
unfolding sampled
touch i ip now = record i {
  last_seen_ms = now;
  last_ip = ip;
  recent_ips = sampled i.recent_ips ip now;
}

unfoldable pub note_refusal : SeatRecord → String → String → ℕ → SeatRecord
note_refusal seat install_id ip now = record seat {
  refused = seat.refused + 1;
  last_refused_at_ms = some now;
  last_refused_install_id = some install_id;
  last_refused_ip = some ip;
}

abbrev pub is_alive : SeatPolicy → ℕ → SeatInstall → Bool
is_alive policy now i = ltb now (i.last_seen_ms + policy.release_after_ms)

abbrev pub enough_switches : Option CloneSignal → Bool
enough_switches none = false
enough_switches (some c) = leb clone_switches c.switches

-- The branch of `admit` for an install that the seat knows.
unfoldable pub readmit :
    SeatPolicy → SeatRecord → SeatInstall → String → String → ℕ → AdmitResult × SeatRecord
unfolding touch clone_signal update_install note_refusal
readmit policy seat0 existing install_id ip now =
    let i = touch existing ip now in
    let signal = clone_signal i now in
    let seat = record seat0 { installs = update_install install_id i seat0.installs } in
    let seat' = note_refusal seat install_id ip now in
    if policy.enforce && policy.clone_enforce && enough_switches signal
    then (refused clone seat' signal, seat')
    else (admitted seat false [] signal, seat)

abbrev pub new_install : String → String → ℕ → SeatInstall
new_install install_id ip now = record {
  install_id = install_id;
  first_seen_ms = now;
  last_seen_ms = now;
  last_ip = ip;
  recent_ips = record { ip = ip; at = now } ∷ [];
}

-- The branch of `admit` for a new install id.
unfoldable pub bind_new : SeatPolicy → SeatRecord → String → String → ℕ → AdmitResult × SeatRecord
unfolding note_refusal limit_for
bind_new policy seat install_id ip now =
    let limit = limit_for policy seat in
    let alive = filter (is_alive policy now) seat.installs in
    let evicted =
      map (λ i. i.install_id) (filter (λ i. not (is_alive policy now i)) seat.installs) in
    let kept = if leb limit (length alive) then drop (length alive - limit + 1) alive else alive in
    let full = note_refusal seat install_id ip now in
    let bound = record seat {
      installs = kept ++ new_install install_id ip now ∷ [];
      released_at_ms = none;
    } in
    if leb limit (length alive) && policy.enforce
    then (refused seat_taken full none, full)
    else (admitted bound true evicted none, bound)

-- What `admit` decides on one seat, and the seat that it stores.
unfoldable pub decide : SeatPolicy → SeatRecord → String → String → ℕ → AdmitResult × SeatRecord
unfolding readmit bind_new find_install
decide policy seat install_id ip now = elim (find_install install_id seat.installs) [
  | some existing ↦ readmit policy seat existing install_id ip now
  | none ↦ bind_new policy seat install_id ip now
]

unfoldable pub admit :
    SeatPolicy → SeatsFile → String → String → String → ℕ → AdmitResult × SeatsFile
unfolding decide fresh
admit policy f license_id install_id ip now =
    let r = decide policy (seat_of f license_id) install_id ip now in (r.0, insert license_id r.1 f)

unfoldable pub release : SeatsFile → String → ℕ → Bool × SeatsFile
release f license_id now = elim (lookup license_id f) [
  | none ↦ (false, f)
  | some seat ↦
      (true, insert license_id (record seat { installs = []; released_at_ms = some now }) f)
]

-- `null` is `none`; the error is thrown before anything is read.
pub data LimitError : Type 0 where
  out_of_range : LimitError

pub data LimitResult : Type 0 where
  set_to : SeatRecord → SeatsFile → LimitResult
  failed : LimitError → LimitResult

abbrev pub limit_ok : Option ℕ → Bool
limit_ok none = true
limit_ok (some n) = leb 1 n && leb n max_seat_limit

unfoldable pub set_limit : SeatsFile → String → Option ℕ → LimitResult
unfolding fresh
set_limit f license_id limit =
    let seat = record (seat_of f license_id) { limit = limit } in
    if limit_ok limit then set_to seat (insert license_id seat f) else failed out_of_range

unfoldable pub view_install : SeatPolicy → ℕ → SeatInstall → InstallView
unfolding clone_signal
view_install policy now i = record {
  install_id = i.install_id;
  first_seen_ms = i.first_seen_ms;
  last_seen_ms = i.last_seen_ms;
  last_ip = i.last_ip;
  alive = is_alive policy now i;
  clone = clone_signal i now;
}

unfoldable pub view : SeatPolicy → SeatsFile → String → ℕ → Option SeatView
unfolding view_install limit_for
view policy f license_id now = elim (lookup license_id f) [
  | none ↦ none
  | some seat ↦ some (record {
    limit = limit_for policy seat;
    enforce = policy.enforce;
    installs = map (view_install policy now) seat.installs;
    refused = seat.refused;
    last_refused_at_ms = seat.last_refused_at_ms;
    last_refused_install_id = seat.last_refused_install_id;
    last_refused_ip = seat.last_refused_ip;
    released_at_ms = seat.released_at_ms;
  })
]
