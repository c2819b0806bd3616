-- ===== src/Seats/Admit.antt =====
-- The decision on one check-in (`SeatStore.admit`, seats.ts): what it keeps of the seat, and when a
-- live install holds it.
use wickhunter_hub.Prelude.{
  Unique, ℕ, ◌+◌, ◌-◌, ◌≤◌, ◌<◌, ◌≡◌, inl, inr, String, true, false, none, some, [], ◌∷◌, length,
  drop, filter, str_eq, arith, length-append, length-drop, Option-cases,
}
use wickhunter_hub.Seats.Types.{SeatPolicy, SeatRecord, SeatInstall, AdmitResult, admitted, refused}
use wickhunter_hub.Seats.Store.{
  decide, readmit, bind_new, find_install, update_install, limit_for, is_alive, touch, new_install,
}
use wickhunter_hub.Seats.Lists.{
  ids, ids-update, length-update, find-id, find-none-Absent, find-filter, find-append,
  find-update_ne, bound-Unique,
}

-- The two branches of the decision.
pub decide_cases {ℓ} :
    (P : AdmitResult × SeatRecord → Type ℓ) (policy : SeatPolicy) (seat : SeatRecord)
    (install_id ip : String) (now : ℕ)
    → ((i : SeatInstall)
        → find_install install_id seat.installs ≡ some i
        → P (readmit policy seat i install_id ip now))
    → (find_install install_id seat.installs ≡ none → P (bind_new policy seat install_id ip now))
    → P (decide policy seat install_id ip now)
unfolding decide
decide_cases P policy seat install_id ip now known new =
    elim (Option-cases (find_install install_id seat.installs)) [
      | inl e ↦ rw (e, decide) (new e)
      | inr (i, e) ↦ rw (e, decide) (known i e)
    ]

readmit-installs :
    (policy : SeatPolicy) (seat : SeatRecord) (i : SeatInstall) (install_id ip : String) (now : ℕ)
    → (readmit policy seat i install_id ip now).1.installs
      ≡ update_install install_id (touch i ip now) seat.installs
unfolding readmit
readmit-installs policy seat i install_id ip now = ground arith

bind_new-Unique :
    (policy : SeatPolicy) (seat : SeatRecord) (install_id ip : String) (now : ℕ)
    → find_install install_id seat.installs ≡ none
    → Unique (ids seat.installs)
    → Unique (ids (bind_new policy seat install_id ip now).1.installs)
unfolding bind_new
bind_new-Unique policy seat install_id ip now e u =
    let alive = is_alive policy now in
    let v = new_install install_id ip now in
    let a = find-none-Absent install_id seat.installs e in
    let n = length (filter alive seat.installs) - limit_for policy seat + 1 in
    ground
      (arith, u, bound-Unique alive 0 v seat.installs a u, bound-Unique alive n v seat.installs a u)

-- No install is listed twice, on any branch.
pub decide-Unique :
    (policy : SeatPolicy) (seat : SeatRecord) (install_id ip : String) (now : ℕ)
    → Unique (ids seat.installs)
    → Unique (ids (decide policy seat install_id ip now).1.installs)
unfolding touch
decide-Unique policy seat install_id ip now u =
    decide_cases (λ r. Unique (ids r.1.installs)) policy seat install_id ip now
      (λ i e.
        rw
          (
            readmit-installs policy seat i install_id ip now,
            ids-update install_id (touch i ip now) seat.installs
                (find-id install_id seat.installs i e),
          )
          u)
      (λ e. bind_new-Unique policy seat install_id ip now e u)

bind_new-length :
    (policy : SeatPolicy) (seat : SeatRecord) (install_id ip : String) (now n : ℕ)
    → 1 ≤ limit_for policy seat
    → limit_for policy seat ≤ n
    → length seat.installs ≤ n
    → length (bind_new policy seat install_id ip now).1.installs ≤ n
unfolding bind_new
bind_new-length policy seat install_id ip now n pos lim h =
    let alive = filter (is_alive policy now) seat.installs in
    let v = new_install install_id ip now in
    let k = length alive - limit_for policy seat + 1 in
    ground (
      arith,
      length-append alive (v ∷ []),
      length-append (drop k alive) (v ∷ []),
      length-drop k alive,
    )

-- The record never grows past its limit, enforced or not: a seat with at most `n` installs, where
-- `n` is at least the limit, still has at most `n`.
pub decide-length :
    (policy : SeatPolicy) (seat : SeatRecord) (install_id ip : String) (now n : ℕ)
    → 1 ≤ limit_for policy seat
    → limit_for policy seat ≤ n
    → length seat.installs ≤ n
    → length (decide policy seat install_id ip now).1.installs ≤ n
decide-length policy seat install_id ip now n pos lim h =
    decide_cases (λ r. length r.1.installs ≤ n) policy seat install_id ip now
      (λ i e.
        rw
          (
            readmit-installs policy seat i install_id ip now,
            length-update install_id (touch i ip now) seat.installs,
          )
          h)
      (λ e. bind_new-length policy seat install_id ip now n pos lim h)

bind_new_keeps_live :
    (policy : SeatPolicy) (seat : SeatRecord) (install_id ip : String) (now : ℕ) (i : SeatInstall)
    → policy.enforce ≡ true
    → find_install i.install_id seat.installs ≡ some i
    → is_alive policy now i ≡ true
    → find_install i.install_id (bind_new policy seat install_id ip now).1.installs ≡ some i
unfolding bind_new
bind_new_keeps_live policy seat install_id ip now i on here live =
    let alive = filter (is_alive policy now) seat.installs in
    let v = new_install install_id ip now in
    let k = find-filter (is_alive policy now) i.install_id seat.installs i here live in
    ground (arith, k, find-append i.install_id alive (v ∷ []) i k)

-- While the policy is enforced, a check-in of another install leaves a live install in its seat,
-- every field of it as it was.
pub decide_keeps_live :
    (policy : SeatPolicy) (seat : SeatRecord) (install_id ip : String) (now : ℕ) (i : SeatInstall)
    → policy.enforce ≡ true
    → find_install i.install_id seat.installs ≡ some i
    → str_eq install_id i.install_id ≡ false
    → now < i.last_seen_ms + policy.release_after_ms
    → find_install i.install_id (decide policy seat install_id ip now).1.installs ≡ some i
unfolding touch
decide_keeps_live policy seat install_id ip now i on here other live =
    decide_cases (λ r. find_install i.install_id r.1.installs ≡ some i) policy seat install_id ip
      now
      (λ j e.
        rw
          (
            readmit-installs policy seat j install_id ip now,
            find-update_ne install_id i.install_id (touch j ip now) seat.installs
                (find-id install_id seat.installs j e) other,
          )
          here)
      (λ e. bind_new_keeps_live policy seat install_id ip now i on here (ground arith))

abbrev pub Counts : SeatRecord → String → String → ℕ → AdmitResult × SeatRecord → Type 0
Counts seat install_id ip now (admitted s bound evicted c, seat') =
    (s ≡ seat')
    × (seat'.refused ≡ seat.refused)
    × (seat'.last_refused_at_ms ≡ seat.last_refused_at_ms)
    × (seat'.last_refused_install_id ≡ seat.last_refused_install_id)
    × (seat'.limit ≡ seat.limit)
    × (seat'.license_id ≡ seat.license_id)
Counts seat install_id ip now (refused why s c, seat') =
    (s ≡ seat')
    × (seat'.refused ≡ seat.refused + 1)
    × (seat'.last_refused_at_ms ≡ some now)
    × (seat'.last_refused_install_id ≡ some install_id)
    × (seat'.last_refused_ip ≡ some ip)
    × (ids seat'.installs ≡ ids seat.installs)
    × (seat'.limit ≡ seat.limit)
    × (seat'.license_id ≡ seat.license_id)
