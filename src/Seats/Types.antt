-- ===== src/Seats/Types.antt =====
-- The data of src/seats.ts.
use wickhunter_hub.Prelude.{ℕ, ◌*◌, String, Bool, true, false, Option, List, Dict}

abbrev pub minute : ℕ
minute = 60000

abbrev pub ip_history_ms : ℕ
ip_history_ms = 60 * minute

abbrev pub ip_history_max : ℕ
ip_history_max = 40

abbrev pub clone_window_ms : ℕ
clone_window_ms = 15 * minute

abbrev pub clone_switches : ℕ
clone_switches = 3

abbrev pub max_seat_limit : ℕ
max_seat_limit = 50

abbrev pub sample_every_ms : ℕ
sample_every_ms = 4 * minute

pub record SeatPolicy : Type 0 where
  pub enforce : Bool
  pub release_after_ms : ℕ
  pub clone_enforce : Bool
  pub default_limit : ℕ

abbrev pub default_seat_policy : SeatPolicy
default_seat_policy = record {
  enforce = true;
  release_after_ms = 30 * minute;
  clone_enforce = false;
  default_limit = 1;
}

pub record IpSample : Type 0 where
  pub ip : String
  pub at : ℕ

pub record SeatInstall : Type 0 where
  pub install_id : String
  pub first_seen_ms : ℕ
  pub last_seen_ms : ℕ
  pub last_ip : String
  pub recent_ips : List IpSample

pub record SeatRecord : Type 0 where
  pub license_id : String
  pub limit : Option ℕ
  pub installs : List SeatInstall
  pub refused : ℕ
  pub last_refused_at_ms : Option ℕ
  pub last_refused_install_id : Option String
  pub last_refused_ip : Option String
  pub released_at_ms : Option ℕ

abbrev pub SeatsFile : Type 0
SeatsFile = Dict SeatRecord

pub record CloneSignal : Type 0 where
  pub ips : ℕ
  pub switches : ℕ
  pub window_minutes : ℕ

pub data RefusalReason : Type 0 where
  seat_taken clone : RefusalReason

pub data AdmitResult : Type 0 where
  admitted : SeatRecord → Bool → List String → Option CloneSignal → AdmitResult
  refused : RefusalReason → SeatRecord → Option CloneSignal → AdmitResult

pub record InstallView : Type 0 where
  pub install_id : String
  pub first_seen_ms : ℕ
  pub last_seen_ms : ℕ
  pub last_ip : String
  pub alive : Bool
  pub clone : Option CloneSignal

pub record SeatView : Type 0 where
  pub limit : ℕ
  pub enforce : Bool
  pub installs : List InstallView
  pub refused : ℕ
  pub last_refused_at_ms : Option ℕ
  pub last_refused_install_id : Option String
  pub last_refused_ip : Option String
  pub released_at_ms : Option ℕ
