-- ===== src/Seats/Tests.antt =====
-- Concrete check-ins against a seat (seats.ts): tests, and instances of the theorems.
use wickhunter_hub.Prelude.{
  eq_iff, ℕ, ◌*◌, ◌≡◌, refl, String, true, false, none, some, List, [], ◌∷◌, lookup, arith,
}
use wickhunter_hub.Seats.Types.{SeatRecord, SeatInstall, SeatsFile, default_seat_policy, minute}
use wickhunter_hub.Seats.Store.{
  decide, admit, new_install, limit_for, fresh, clone_signal, find_install, seat_of,
}
use wickhunter_hub.Seats.Admit.{decide_keeps_live}
use wickhunter_hub.Seats.Holder.{CheckIn, serve, serve_held, Holds}
use wickhunter_hub.Seats.Registry.{admit_frame, clone_signal_one_address}

abbrev box : SeatInstall
box = new_install "box" "1.1.1.1" 0

abbrev held : SeatRecord
unfolding fresh
held = record (fresh "lic") { installs = box ∷ [] }

abbrev check_in : String → ℕ → CheckIn
check_in who m = record { install_id = who; ip = "2.2.2.2"; now = m * minute }

-- Two boxes that check in every five minutes.
abbrev shared : List CheckIn
shared = check_in "copy" 2 ∷ check_in "box" 5 ∷ check_in "copy" 7 ∷ check_in "box" 10 ∷ []

held-Holds : Holds default_seat_policy "box" 0 held
unfolding limit_for fresh
held-Holds = record { held_by = box; only = refl; is_holder = refl; seen = refl; single = refl }

serve_held_example : serve default_seat_policy held shared ≡ false ∷ true ∷ false ∷ true ∷ []
serve_held_example =
    serve_held default_seat_policy "box" 0 held shared refl refl held-Holds
      (omega arith, (omega arith, tt))

-- The same run by evaluation.
serve-shared : serve default_seat_policy held shared ≡ false ∷ true ∷ false ∷ true ∷ []
unfolding serve decide fresh
serve-shared = refl

decide_keeps_live_example :
    find_install "box" (decide default_seat_policy held "copy" "2.2.2.2" 60000).1.installs
    ≡ some box
unfolding find_install fresh
decide_keeps_live_example =
    decide_keeps_live default_seat_policy held "copy" "2.2.2.2" 60000 box refl refl refl
      (omega arith)

abbrev file : SeatsFile
file = ("lic", held) ∷ ("other", held) ∷ []

admit_frame_example :
    let r = admit default_seat_policy file "lic" "copy" "2.2.2.2" 60000 in
    let d = decide default_seat_policy (seat_of file "lic") "copy" "2.2.2.2" 60000 in
    (r.0 ≡ d.0) × (lookup "lic" r.1 ≡ some d.1) × (lookup "other" r.1 ≡ some held)
admit_frame_example =
    admit_frame default_seat_policy file "lic" "other" "copy" "2.2.2.2" 60000
      (ground (arith, eq_iff "lic" "other"))

clone_signal_one_address_example : clone_signal box 60000 ≡ none
clone_signal_one_address_example = clone_signal_one_address box "1.1.1.1" 60000 (refl, tt)
