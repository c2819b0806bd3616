-- ===== src/Seats/Holder.antt =====
-- Who holds a one-install seat over a run of check-ins (seats.ts): the install that keeps checking
-- in, and after enough silence the next one.
use wickhunter_hub.Prelude.{
  inl, inr, ap₂, ◌∙◌, sym, ℕ, ◌+◌, ◌≤◌, ◌<◌, ◌≡◌, refl, String, Bool, true, false, not, none, List,
  [], ◌∷◌, map, filter, All, str_eq, eq_iff, if◌then◌else◌, arith, Bool-cases,
}
use wickhunter_hub.Seats.Types.{SeatPolicy, SeatRecord, SeatInstall, AdmitResult, admitted, refused}
use wickhunter_hub.Seats.Store.{
  decide, readmit, bind_new, find_install, update_install, limit_for, is_alive, touch, new_install,
}
use wickhunter_hub.Seats.Lists.{ids}

pub record CheckIn : Type 0 where
  pub install_id : String
  pub ip : String
  pub now : ℕ

abbrev pub is_admitted : AdmitResult → Bool
is_admitted (admitted s bound evicted c) = true
is_admitted (refused why s c) = false

-- The answers that a run of check-ins of one licence gets.
unfoldable pub serve : SeatPolicy → SeatRecord → List CheckIn → List Bool
serve policy seat [] = []
serve policy seat (c ∷ cs) =
    let r = decide policy seat c.install_id c.ip c.now in is_admitted r.0 ∷ serve policy r.1 cs

-- Every check-in of another install arrives within the release time of the last one of `holder`.
abbrev pub KeepsAlive : String → ℕ → ℕ → List CheckIn → Type 0
KeepsAlive holder silence last [] = Unit
KeepsAlive holder silence last (c ∷ cs) =
    if str_eq c.install_id holder
    then KeepsAlive holder silence c.now cs
    else ((c.now < last + silence) × KeepsAlive holder silence last cs)

-- One install, last seen at `last`.
pub record Holds (policy : SeatPolicy) (holder : String) (last : ℕ) (seat : SeatRecord)
    : Type 0 where
  pub held_by : SeatInstall
  pub only : seat.installs ≡ held_by ∷ []
  pub is_holder : held_by.install_id ≡ holder
  pub seen : held_by.last_seen_ms ≡ last
  pub single : limit_for policy seat ≡ 1

holder_step :
    (policy : SeatPolicy) (seat : SeatRecord) (holder : String) (last : ℕ) (c : CheckIn)
    → policy.clone_enforce ≡ false
    → Holds policy holder last seat
    → str_eq c.install_id holder ≡ true
    → let r = decide policy seat c.install_id c.ip c.now in
      (is_admitted r.0 ≡ true) × Holds policy holder c.now r.1
unfolding decide readmit find_install update_install limit_for
holder_step policy seat holder last c off h same =
    let i = touch h.held_by c.ip c.now in
    let e = eq_iff h.held_by.install_id c.install_id in
    let f = eq_iff c.install_id holder in
    (
      ground (arith, e, f),
      record {
        held_by = i;
        only = ground (arith, e, f);
        is_holder = unfold touch in h.is_holder;
        seen = unfold touch in refl;
        single = ground (arith, e, f);
      },
    )

rival_step :
    (policy : SeatPolicy) (seat : SeatRecord) (holder : String) (last : ℕ) (c : CheckIn)
    → policy.enforce ≡ true
    → Holds policy holder last seat
    → str_eq c.install_id holder ≡ false
    → c.now < last + policy.release_after_ms
    → let r = decide policy seat c.install_id c.ip c.now in
      (is_admitted r.0 ≡ false) × Holds policy holder last r.1
unfolding decide bind_new find_install limit_for
rival_step policy seat holder last c on h other soon =
    let e = eq_iff h.held_by.install_id c.install_id in
    let f = eq_iff c.install_id holder in
    (
      ground (arith, e, f),
      record {
        held_by = h.held_by;
        only = ground (arith, e, f);
        is_holder = h.is_holder;
        seen = h.seen;
        single = ground (arith, e, f);
      },
    )

-- One licence, one machine. Under an enforced policy without clone enforcement, a seat for one
-- install that `holder` took at `last` answers a run of check-ins as follows, as long as each
-- check-in of another install arrives less than the release time after the last one of `holder`:
-- `holder` is admitted every time, and every other install is refused every time.
pub serve_held :
    (policy : SeatPolicy) (holder : String) (last : ℕ) (seat : SeatRecord) (cs : List CheckIn)
    → policy.enforce ≡ true
    → policy.clone_enforce ≡ false
    → Holds policy holder last seat
    → KeepsAlive holder policy.release_after_ms last cs
    → serve policy seat cs ≡ map (λ c. str_eq c.install_id holder) cs
unfolding serve
serve_held policy holder last seat [] on off h k = refl
serve_held policy holder last seat (c ∷ cs) on off h k =
    elim (Bool-cases (str_eq c.install_id holder)) [
      | inl same ↦
          let s = holder_step policy seat holder last c off h same in
          let k' : KeepsAlive holder policy.release_after_ms c.now cs = rw same at k in
          ap₂ ◌∷◌ (s.0 ∙ sym same) (serve_held policy holder c.now _ cs on off s.1 k')
      | inr other ↦
          let k' : (c.now < last + policy.release_after_ms)
              × KeepsAlive holder policy.release_after_ms last cs =
            rw other at k in
          let s = rival_step policy seat holder last c on h other k'.0 in
          ap₂ ◌∷◌ (s.0 ∙ sym other) (serve_held policy holder last _ cs on off s.1 k'.1)
    ]

-- All installs have been silent for the release time at least.
abbrev pub Silent : ℕ → ℕ → List SeatInstall → Type 0
Silent silence now = All (λ i. i.last_seen_ms + silence ≤ now)

filter-Silent :
    (policy : SeatPolicy) (now : ℕ) (is : List SeatInstall)
    → Silent policy.release_after_ms now is
    → (filter (is_alive policy now) is ≡ []) × (filter (λ i. not (is_alive policy now i)) is ≡ is)
filter-Silent policy now [] s = (refl, refl)
filter-Silent policy now (i ∷ is) s = ground (arith, filter-Silent policy now is s.1)

-- A seat frees on silence: when every install of the seat has been silent for the release time, a
-- new install is admitted, is alone in the seat, and all the others are reported as evicted.
pub decide-Silent :
    (policy : SeatPolicy) (seat : SeatRecord) (install_id ip : String) (now : ℕ)
    → 1 ≤ limit_for policy seat
    → find_install install_id seat.installs ≡ none
    → Silent policy.release_after_ms now seat.installs
    → let seat' = record seat {
      installs = new_install install_id ip now ∷ [];
      released_at_ms = none;
    } in
      decide policy seat install_id ip now ≡ (admitted seat' true (ids seat.installs) none, seat')
unfolding decide bind_new
decide-Silent policy seat install_id ip now pos new s =
    ground (arith, filter-Silent policy now seat.installs s)
