-- ===== src/Sockets.antt =====
-- src/net/socket-pool.ts: the pool of reconnecting websockets.
-- A connection object is told from the others by its `key`, a socket by its number. A callback of a
-- socket carries the connection and the generation that it was made for. `timer` is the armed
-- reconnect timer; firing disarms it.
mod Conns
mod Held
pub mod Retired
pub mod Accounts
pub mod Slices
mod Tests
use wickhunter_hub.Prelude.{
  ℕ, suc, zero, ◌+◌, ◌-◌, ◌*◌, ◌/◌, ◌^◌, min, max, String, Bool, true, false, not, ◌&&◌, ◌||◌,
  Option, none, some, List, [], ◌∷◌, ◌++◌, map, leb, ltb, ◌==◌, str_eq, if◌then◌else◌, length, take,
  drop, filter,
}

-- The venue's adapter, the delays, and the order of `sort()` on texts.
pub record Adapter : Type 0 where
  pub max_topics : ℕ
  pub subscribe_frames : List String → List String
  pub reply_frames : String → List String
  pub pings : Bool
  pub reconnect_ms : ℕ
  pub reconnect_max_ms : ℕ
  pub comes_before : String → String → Bool

pub record Conn : Type 0 where
  pub key : ℕ
  pub index : ℕ
  pub symbols : List String
  pub sock : Option ℕ
  pub attempts : ℕ
  pub timer : Option ℕ
  pub connect_timer : Bool
  pub ping : Bool
  pub opened : Bool
  pub generation : ℕ

-- The pool, and what it has done to the world: the numbers given to connections and to sockets, the
-- sockets closed, the frames sent and the messages delivered.
pub record Pool : Type 0 where
  pub running : Bool
  pub conns : List Conn
  pub next_key : ℕ
  pub next_sock : ℕ
  pub closed : List ℕ
  pub sent : List (ℕ × String)
  pub delivered : List (ℕ × String)

abbrev pub new_pool : Pool
new_pool = record {
  running = false;
  conns = [];
  next_key = 0;
  next_sock = 0;
  closed = [];
  sent = [];
  delivered = [];
}

unfoldable pub find_conn : ℕ → List Conn → Option Conn
find_conn k [] = none
find_conn k (c ∷ cs) = if c.key == k then some c else find_conn k cs

-- `c` as an object that the list holds: its new fields.
unfoldable pub store : Conn → List Conn → List Conn
store c [] = []
store c (d ∷ ds) = if d.key == c.key then c ∷ ds else d ∷ store c ds

-- The connection, where the callback's generation is still its own.
unfoldable pub current : Pool → ℕ → ℕ → Option Conn
unfolding find_conn
current p k g =
    if p.running
    then elim (find_conn k p.conns) [
      | none ↦ none
      | some c ↦ if c.generation == g then some c else none
    ]
    else none

abbrev pub socks_of : Option ℕ → List ℕ
socks_of none = []
socks_of (some s) = s ∷ []

abbrev pub frames : Option ℕ → List String → List (ℕ × String)
frames none fs = []
frames (some s) fs = map (λ f. (s, f)) fs

-- The outcome of a call of the socket factory: a socket; an exception; or a socket whose close
-- callback ran before the factory returned.
pub data Outcome : Type 0 where
  created throws closed_at_once : Outcome

pub data Event : Type 0 where
  starts resyncs : List String → (ℕ → Outcome) → ℕ → Event
  stops : Event
  on_open on_close on_error connect_times_out : (key generation jitter : ℕ) → Event
  on_message : (key generation : ℕ) → String → Event
  timer_fires : (key : ℕ) → Outcome → (jitter : ℕ) → Event

-- Sorted, without repetitions and empty texts.
unfoldable pub insert_symbol : (String → String → Bool) → String → List String → List String
insert_symbol before s [] = s ∷ []
insert_symbol before s (x ∷ xs) = if before x s then x ∷ insert_symbol before s xs else s ∷ x ∷ xs

unfoldable pub sort_symbols : (String → String → Bool) → List String → List String
unfolding insert_symbol
sort_symbols before [] = []
sort_symbols before (s ∷ xs) = insert_symbol before s (sort_symbols before xs)

unfoldable pub member : String → List String → Bool
member s [] = false
member s (x ∷ xs) = str_eq x s || member s xs

unfoldable pub distinct : List String → List String
unfolding member
distinct [] = []
distinct (s ∷ xs) = if str_eq s "" || member s xs then distinct xs else s ∷ distinct xs

unfoldable pub same_texts : List String → List String → Bool
same_texts [] [] = true
same_texts (x ∷ xs) (y ∷ ys) = str_eq x y && same_texts xs ys
same_texts _ _ = false

unfoldable pub all_symbols : List Conn → List String
all_symbols [] = []
all_symbols (c ∷ cs) = c.symbols ++ all_symbols cs

-- Slices of at most `cap` symbols; `fuel` is the number of symbols.
unfoldable pub chunks : ℕ → ℕ → List String → List (List String)
chunks zero cap xs = []
chunks (suc fuel) cap [] = []
chunks (suc fuel) cap (x ∷ xs) = take cap (x ∷ xs) ∷ chunks fuel cap (drop cap (x ∷ xs))

-- Every connection torn down: its timers cleared, its socket closed, and the object dropped.
unfoldable pub held : List Conn → List ℕ
held [] = []
held (c ∷ cs) = socks_of c.sock ++ held cs

unfoldable pub teardown_all : Pool → Pool
unfolding held
teardown_all p = record p { conns = []; closed = p.closed ++ held p.conns }

abbrev pub fresh_conn : ℕ → ℕ → List String → Conn
fresh_conn k i symbols = record {
  key = k;
  index = i;
  symbols = symbols;
  sock = none;
  attempts = 0;
  timer = none;
  connect_timer = false;
  ping = false;
  opened = false;
  generation = 0;
}

-- Each attempt is a new generation.
abbrev pub attempt : Conn → Conn
attempt c = record c { opened = false; generation = c.generation + 1 }

module _ (a : Adapter) where
  unfoldable pub backoff : ℕ → ℕ
  backoff attempts = min a.reconnect_max_ms (a.reconnect_ms * 2 ^ min (attempts - 1) 10)

  -- `Math.round(backoff * (0.5 + random * 0.5))`, with the random number in thousandths.
  unfoldable pub jittered : ℕ → ℕ → ℕ
  jittered wait jitter = (wait * (1000 + jitter) + 1000) / 2000

  -- A connection whose socket was retired and that waits for its next attempt.
  unfoldable pub retry_later : Conn → ℕ → Conn
  unfolding backoff jittered
  retry_later c jitter = record c {
    generation = c.generation + 1;
    connect_timer = false;
    ping = false;
    sock = none;
    opened = false;
    attempts = c.attempts + 1;
    timer = some (jittered (backoff (c.attempts + 1)) jitter);
  }

  unfoldable pub reopen : Pool → ℕ → ℕ → ℕ → Pool
  unfolding current retry_later store
  reopen p k g jitter = elim (current p k g) [
    | none ↦ p
    | some c ↦ record p {
      conns = store (retry_later c jitter) p.conns;
      closed = p.closed ++ socks_of c.sock;
    }
  ]

  unfoldable pub open_conn : Pool → Conn → Outcome → ℕ → Pool
  unfolding reopen store
  open_conn p c outcome jitter =
      let c' = attempt c in
      let s = p.next_sock in
      let tried = record p { conns = store c' p.conns } in
      let failed = reopen tried c.key c'.generation jitter in
      if p.running
      then elim outcome [
        | throws ↦ failed
        | closed_at_once ↦ record failed { next_sock = s + 1; closed = failed.closed ++ s ∷ [] }
        | created ↦ record p {
          conns = store (record c' { sock = some s; connect_timer = true }) p.conns;
          next_sock = s + 1;
        }
      ]
      else p

  -- The loop of `resync`: a connection for each slice, opened at once.
  unfoldable pub open_all : Pool → List (List String) → (ℕ → Outcome) → ℕ → Pool
  unfolding open_conn
  open_all p [] outcomes jitter = p
  open_all p (symbols ∷ slices) outcomes jitter =
      let c = fresh_conn p.next_key (length p.conns) symbols in
      let pushed = record p { conns = p.conns ++ c ∷ []; next_key = p.next_key + 1 } in
      open_all (open_conn pushed c (outcomes c.index) jitter) slices outcomes jitter

  unfoldable pub resync : Pool → List String → (ℕ → Outcome) → ℕ → Pool
  unfolding sort_symbols distinct all_symbols same_texts chunks open_all teardown_all
  resync p symbols outcomes jitter =
      let want = sort_symbols a.comes_before (distinct symbols) in
      let have = sort_symbols a.comes_before (all_symbols p.conns) in
      if not p.running || (ltb 0 (length p.conns) && same_texts want have)
      then p
      else open_all (teardown_all p) (chunks (length want) (max 1 a.max_topics) want) outcomes
          jitter

  unfoldable pub opened_conn : Pool → ℕ → ℕ → Pool
  unfolding current store
  opened_conn p k g = elim (current p k g) [
    | none ↦ p
    | some c ↦ record p {
      conns =
          store (record c { connect_timer = false; opened = true; attempts = 0; ping = a.pings })
            p.conns;
      sent = p.sent ++ frames c.sock (a.subscribe_frames c.symbols);
    }
  ]

  unfoldable pub handle_message : Pool → ℕ → ℕ → String → Pool
  unfolding current
  handle_message p k g message = elim (current p k g) [
    | none ↦ p
    | some c ↦ record p {
      sent = p.sent ++ frames c.sock (a.reply_frames message);
      delivered = p.delivered ++ (k, message) ∷ [];
    }
  ]

  unfoldable pub timed_out : Pool → ℕ → ℕ → ℕ → Pool
  unfolding current reopen
  timed_out p k g jitter = elim (current p k g) [
    | none ↦ p
    | some c ↦ if c.opened then p else reopen p k g jitter
  ]

  unfoldable pub fire_timer : Pool → ℕ → Outcome → ℕ → Pool
  unfolding find_conn open_conn store
  fire_timer p k outcome jitter = elim (find_conn k p.conns) [
    | none ↦ p
    | some c ↦ elim c.timer [
      | none ↦ p
      | some wait ↦
          let c' = record c { timer = none } in
          open_conn (record p { conns = store c' p.conns }) c' outcome jitter
    ]
  ]

  unfoldable pub step : Pool → Event → Pool
  unfolding resync teardown_all opened_conn reopen handle_message timed_out fire_timer
  step p (starts symbols outcomes jitter) =
      resync (record p { running = true }) symbols outcomes jitter
  step p (resyncs symbols outcomes jitter) = resync p symbols outcomes jitter
  step p stops = record (teardown_all p) { running = false }
  step p (on_open k g jitter) = opened_conn p k g
  step p (on_close k g jitter) = reopen p k g jitter
  step p (on_error k g jitter) = reopen p k g jitter
  step p (connect_times_out k g jitter) = timed_out p k g jitter
  step p (on_message k g message) = handle_message p k g message
  step p (timer_fires k outcome jitter) = fire_timer p k outcome jitter

  unfoldable pub run : Pool → List Event → Pool
  unfolding step
  run p [] = p
  run p (e ∷ es) = run (step p e) es
