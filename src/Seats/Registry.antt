-- ===== src/Seats/Registry.antt =====
-- The seats file as a whole, the address history and its clone signal, and the admin's methods
-- (seats.ts).
use wickhunter_hub.Prelude.{
  ℕ, zero, suc, ◌+◌, ◌-◌, ◌≤◌, ◌≡◌, ◌≢◌, refl, String, Bool, true, ◌&&◌, ◌⊎◌, Option, none, some,
  List, [], ◌∷◌, ◌++◌, map, length, drop, filter, All, lookup, insert, lookup-insert_self,
  lookup-insert_ne, eq_iff, if◌then◌else◌, arith, leb, ltb, length-drop, or_else, inl, inr,
  Bool-cases,
}
use wickhunter_hub.Seats.Types.{
  SeatPolicy, SeatRecord, SeatInstall, SeatsFile, admitted, IpSample, ip_history_ms, ip_history_max,
  clone_window_ms, max_seat_limit,
}
use wickhunter_hub.Seats.Store.{
  admit, decide, seat_of, release, set_limit, set_to, failed, out_of_range, limit_for, sampled,
  last_sample, wants_sample, clone_signal, distinct, member, new_install,
}

-- A check-in of one licence is decided on that licence's seat, is stored there, and leaves the seat
-- of every other licence as it was.
pub admit_frame :
    (policy : SeatPolicy) (f : SeatsFile) (license_id other install_id ip : String) (now : ℕ)
    → license_id ≢ other
    → let r = admit policy f license_id install_id ip now in
      let d = decide policy (seat_of f license_id) install_id ip now in
      (r.0 ≡ d.0) × (lookup license_id r.1 ≡ some d.1) × (lookup other r.1 ≡ lookup other f)
unfolding admit
admit_frame policy f license_id other install_id ip now ne =
    let d = decide policy (seat_of f license_id) install_id ip now in
    (refl, lookup-insert_self license_id d.1 f, lookup-insert_ne license_id other d.1 f ne)

All-drop {ℓ κ} : {A : Type ℓ} (P : A → Type κ) (n : ℕ) (xs : List A) → All P xs → All P (drop n xs)
All-drop P zero xs h = h
All-drop P (suc n) [] h = tt
All-drop P (suc n) (x ∷ xs) h = All-drop P n xs h.1

All-snoc {ℓ κ} :
    {A : Type ℓ} (P : A → Type κ) (x : A) (xs : List A) → All P xs → P x → All P (xs ++ x ∷ [])
All-snoc P x [] h p = (p, tt)
All-snoc P x (y ∷ xs) h p = (h.0, All-snoc P x xs h.1 p)

-- Not older than the history window.
abbrev pub Recent : ℕ → IpSample → Type 0
Recent now s = now ≤ s.at + ip_history_ms

filter-Recent :
    (now : ℕ) (ss : List IpSample)
    → All (Recent now) (filter (λ s. leb now (s.at + ip_history_ms)) ss)
filter-Recent now [] = tt
filter-Recent now (s ∷ ss) = ground (arith, filter-Recent now ss)

trimmed :
    (P : IpSample → Type 0) (ss : List IpSample)
    → All P ss
    → let out =
        if ltb ip_history_max (length ss) then drop (length ss - ip_history_max) ss else ss in
      (length out ≤ ip_history_max) × All P out
trimmed P ss h = ground (
  arith,
  length-drop (length ss - ip_history_max) ss,
  All-drop P (length ss - ip_history_max) ss h,
)

-- After a check-in an install's address history holds at most 40 samples, all of the last hour.
pub sampled_bounds :
    (history : List IpSample) (ip : String) (now : ℕ)
    → let out = sampled history ip now in (length out ≤ ip_history_max) × All (Recent now) out
unfolding sampled
sampled_bounds history ip now =
    let kept = filter (λ s. leb now (s.at + ip_history_ms)) history in
    let s : IpSample = record { ip = ip; at = now } in
    let h = filter-Recent now history in
    elim (Bool-cases (wants_sample (last_sample kept) ip now)) [
      | inl e ↦
          rw e
            (trimmed (Recent now) (kept ++ s ∷ []) (All-snoc (Recent now) s kept h (omega arith)))
      | inr e ↦ rw e (trimmed (Recent now) kept h)
    ]

distinct_one :
    (ip : String) (xs : List String)
    → All (λ x. x ≡ ip) xs
    → (distinct xs ≡ []) ⊎ (distinct xs ≡ ip ∷ [])
unfolding distinct member
distinct_one ip [] h = inl refl
distinct_one ip (x ∷ xs) h = ground (arith, distinct_one ip xs h.1, eq_iff ip x, eq_iff x ip)

All-addresses :
    (p : IpSample → Bool) (ip : String) (ss : List IpSample)
    → All (λ s. s.ip ≡ ip) ss
    → All (λ x. x ≡ ip) (map (λ s. s.ip) (filter p ss))
All-addresses p ip [] h = tt
All-addresses p ip (s ∷ ss) h = ground (arith, All-addresses p ip ss h.1)

-- An install that was seen from one address only raises no clone signal.
pub clone_signal_one_address :
    (i : SeatInstall) (ip : String) (now : ℕ)
    → All (λ s. s.ip ≡ ip) i.recent_ips
    → clone_signal i now ≡ none
unfolding clone_signal
clone_signal_one_address i ip now h =
    let p = λ (s : IpSample). leb now (s.at + clone_window_ms) in
    let only =
      distinct_one ip (map (λ s. s.ip) (filter p i.recent_ips))
        (All-addresses p ip i.recent_ips h) in
    elim only [ inl e ↦ rw e | inr e ↦ rw e ]

-- An admin's release empties a known seat, so that whichever install checks in next is bound.
pub release_then_admit :
    (policy : SeatPolicy) (f : SeatsFile) (license_id install_id ip : String) (seat : SeatRecord)
    (at now : ℕ)
    → lookup license_id f ≡ some seat
    → 1 ≤ limit_for policy seat
    → let freed = release f license_id at in
      let bound = record seat {
        installs = new_install install_id ip now ∷ [];
        released_at_ms = none;
      } in
      (freed.0 ≡ true)
      × ((admit policy freed.1 license_id install_id ip now).0 ≡ admitted bound true [] none)
unfolding release admit decide limit_for
release_then_admit policy f license_id install_id ip seat at now known pos =
    let empty = record seat { installs = []; released_at_ms = some at } in
    ground (arith, lookup-insert_self license_id empty f)

-- A limit is refused exactly when it is outside 1..50. Otherwise the seat of that licence, a fresh
-- one where it had none, gets it and nothing else changes in it; `null` brings the policy's default
-- back.
pub set_limit_lem :
    (policy : SeatPolicy) (f : SeatsFile) (license_id : String) (limit : Option ℕ)
    → ((n : ℕ) × (limit ≡ some n)
        × ((n ≡ 0) ⊎ (max_seat_limit + 1 ≤ n))
        × (set_limit f license_id limit ≡ failed out_of_range))
      ⊎ ((seat : SeatRecord) × (f' : SeatsFile) × (set_limit f license_id limit ≡ set_to seat f')
          × (lookup license_id f' ≡ some seat)
          × (seat ≡ record (seat_of f license_id) { limit = limit })
          × (limit_for policy seat ≡ or_else limit policy.default_limit)
          × (1 ≤ or_else limit 1)
          × (or_else limit 1 ≤ max_seat_limit))
unfolding set_limit limit_for
set_limit_lem policy f license_id none =
    let seat = record (seat_of f license_id) { limit = none } in
    inr (
      seat,
      insert license_id seat f,
      refl,
      lookup-insert_self license_id seat f,
      refl,
      refl,
      omega arith,
      omega arith,
    )
set_limit_lem policy f license_id (some n) =
    let seat = record (seat_of f license_id) { limit = some n } in
    elim (Bool-cases (leb 1 n && leb n max_seat_limit)) [
      | inl h ↦ inr (
        seat,
        insert license_id seat f,
        rw h refl,
        lookup-insert_self license_id seat f,
        refl,
        refl,
        ground arith,
        ground arith,
      )
      | inr h ↦ inl (n, refl, ground arith, rw h refl)
    ]
