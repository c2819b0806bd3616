-- ===== src/Seats/Lists.antt =====
-- Lists of installs: their ids, lookups and updates (helpers for the proofs about seats.ts).
use mathlib.Core.List.{map-append}
use wickhunter_hub.Prelude.{
  Absent, Unique, Unique-snoc, ℕ, zero, suc, ◌≡◌, refl, String, Bool, true, false, none, some, List,
  [], ◌∷◌, ◌++◌, map, length, drop, filter, str_eq, eq_iff, arith,
}
use wickhunter_hub.Seats.Types.{SeatInstall}
use wickhunter_hub.Seats.Store.{find_install, update_install}

abbrev pub ids : List SeatInstall → List String
ids = map (λ i. i.install_id)

pub ids-update :
    (k : String) (v : SeatInstall) (is : List SeatInstall)
    → v.install_id ≡ k
    → ids (update_install k v is) ≡ ids is
unfolding update_install
ids-update k v [] e = refl
ids-update k v (i ∷ is) e = ground (arith, eq_iff i.install_id k, ids-update k v is e)

pub length-update :
    (k : String) (v : SeatInstall) (is : List SeatInstall)
    → length (update_install k v is) ≡ length is
unfolding update_install
length-update k v [] = refl
length-update k v (i ∷ is) = ground (arith, length-update k v is)

pub find-id :
    (k : String) (is : List SeatInstall) (i : SeatInstall)
    → find_install k is ≡ some i
    → i.install_id ≡ k
unfolding find_install
find-id k [] i e = cc
find-id k (x ∷ is) i e = ground (arith, eq_iff x.install_id k, find-id k is i)

pub find-none-Absent :
    (k : String) (is : List SeatInstall) → find_install k is ≡ none → Absent k (ids is)
unfolding find_install
find-none-Absent k [] e = tt
find-none-Absent k (i ∷ is) e = ground (arith, find-none-Absent k is)

pub find-filter :
    (p : SeatInstall → Bool) (k : String) (is : List SeatInstall) (i : SeatInstall)
    → find_install k is ≡ some i
    → p i ≡ true
    → find_install k (filter p is) ≡ some i
unfolding find_install
find-filter p k [] i e h = cc
find-filter p k (x ∷ is) i e h = ground (arith, find-filter p k is i)

pub find-append :
    (k : String) (is js : List SeatInstall) (i : SeatInstall)
    → find_install k is ≡ some i
    → find_install k (is ++ js) ≡ some i
unfolding find_install
find-append k [] js i e = cc
find-append k (x ∷ is) js i e = ground (arith, find-append k is js i)

pub find-update_ne :
    (k j : String) (v : SeatInstall) (is : List SeatInstall)
    → v.install_id ≡ k
    → str_eq k j ≡ false
    → find_install j (update_install k v is) ≡ find_install j is
unfolding find_install update_install
find-update_ne k j v [] e h = refl
find-update_ne k j v (x ∷ is) e h = ground (
  arith,
  eq_iff x.install_id k,
  eq_iff x.install_id j,
  eq_iff k j,
  eq_iff v.install_id j,
  find-update_ne k j v is e h,
)

Absent-filter_installs :
    (p : SeatInstall → Bool) (k : String) (is : List SeatInstall)
    → Absent k (ids is)
    → Absent k (ids (filter p is))
Absent-filter_installs p k [] h = tt
Absent-filter_installs p k (i ∷ is) h = ground (arith, Absent-filter_installs p k is h.1)

Absent-drop :
    (n : ℕ) (k : String) (is : List SeatInstall) → Absent k (ids is) → Absent k (ids (drop n is))
Absent-drop zero k is h = h
Absent-drop (suc n) k [] h = tt
Absent-drop (suc n) k (i ∷ is) h = Absent-drop n k is h.1

Unique-filter_installs :
    (p : SeatInstall → Bool) (is : List SeatInstall) → Unique (ids is) → Unique (ids (filter p is))
Unique-filter_installs p [] h = tt
Unique-filter_installs p (i ∷ is) h =
    ground (arith, Absent-filter_installs p i.install_id is h.0, Unique-filter_installs p is h.1)

Unique-drop : (n : ℕ) (is : List SeatInstall) → Unique (ids is) → Unique (ids (drop n is))
Unique-drop zero is h = h
Unique-drop (suc n) [] h = tt
Unique-drop (suc n) (i ∷ is) h = Unique-drop n is h.1

-- What `bind_new` stores: the survivors, the newest of them where there are too many, and one more.
pub bound-Unique :
    (p : SeatInstall → Bool) (n : ℕ) (v : SeatInstall) (is : List SeatInstall)
    → Absent v.install_id (ids is)
    → Unique (ids is)
    → Unique (ids (drop n (filter p is) ++ v ∷ []))
bound-Unique p n v is a u = rw (map-append (λ i. i.install_id) (drop n (filter p is)) (v ∷ [])) (
    Unique-snoc v.install_id (ids (drop n (filter p is)))
      (Absent-drop n v.install_id (filter p is) (Absent-filter_installs p v.install_id is a))
      (Unique-drop n (filter p is) (Unique-filter_installs p is u)))
