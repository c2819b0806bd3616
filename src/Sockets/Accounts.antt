-- ===== src/Sockets/Accounts.antt =====
-- Every socket that the pool ever made is closed or held by a connection (net/socket-pool.ts).
use wickhunter_hub.Prelude.{
  ℕ, ◌+◌, ◌<◌, ◌≡◌, refl, ap, ◌∙◌, String, Bool, true, false, not, ◌&&◌, ◌||◌, none, some, List, [],
  ◌∷◌, ◌++◌, ltb, ltb→lt, if◌then◌else◌, length, max, All, Option-cases, Bool-cases, inl, inr,
  arith, subst, ◌⊎◌,
}
use wickhunter_hub.Sockets.{
  Adapter, Conn, Pool, new_pool, find_conn, store, current, socks_of, Outcome, created, throws,
  closed_at_once, Event, starts, resyncs, stops, on_open, on_close, on_error, connect_times_out,
  on_message, timer_fires, held, teardown_all, fresh_conn, attempt, retry_later, reopen, open_conn,
  open_all, resync, opened_conn, handle_message, timed_out, fire_timer, step, run, sort_symbols,
  distinct, all_symbols, same_texts, chunks,
}
use wickhunter_hub.Sockets.Conns.{
  find_conn-key, find_conn-store, All-store, All-find, All-snoc, current-find, find_conn-fresh,
}
use wickhunter_hub.Sockets.Held.{has, has-append, held-append, held-store, held-store_new}

abbrev pub Idle : Conn → Type 0
Idle c = (c.timer ≡ none) ⊎ (c.sock ≡ none)

-- A connection that waits for its next attempt has no socket; every socket made so far has been
-- closed or is the socket of a connection; keys are given once.
pub record IsPool (p : Pool) : Type 0 where
  pub idle : All Idle p.conns
  pub accounted : (s : ℕ) → s < p.next_sock → (has s p.closed || has s (held p.conns)) ≡ true
  pub keys : All (λ c. c.key < p.next_key) p.conns

-- A connection changed in place, with its socket kept or closed.
replaced :
    (p : Pool) (c old : Conn)
    → find_conn c.key p.conns ≡ some old
    → Idle c
    → IsPool p
    → IsPool (record p { conns = store c p.conns; closed = p.closed ++ socks_of old.sock })
replaced p c old e i v = record {
  idle = All-store Idle c p.conns v.idle i;
  accounted = λ s lt. ground (
    arith,
    v.accounted s lt,
    held-store s c old p.conns e,
    has-append s p.closed (socks_of old.sock),
  );
  keys =
      All-store (λ d. d.key < p.next_key) c p.conns v.keys
        (subst (λ k. k < p.next_key) (find_conn-key c.key p.conns old e)
          (All-find (λ d. d.key < p.next_key) c.key p.conns old v.keys e));
}

kept :
    (p : Pool) (c old : Conn)
    → find_conn c.key p.conns ≡ some old
    → c.sock ≡ old.sock
    → Idle c
    → IsPool p
    → IsPool (record p { conns = store c p.conns })
kept p c old e same i v =
    let r = replaced p c old e i v in
    record {
      idle = r.idle;
      accounted = λ s lt. elim (Bool-cases (has s (socks_of old.sock))) [
        | inl own ↦
            ground
              (arith, held-store_new s c old p.conns e (ap (λ o. has s (socks_of o)) same ∙ own))
        | inr other ↦ ground (arith, other, v.accounted s lt, held-store s c old p.conns e)
      ];
      keys = r.keys;
    }

module _ (a : Adapter) where
  reopen-IsPool : (p : Pool) (k g jitter : ℕ) → IsPool p → IsPool (reopen a p k g jitter)
  unfolding reopen
  reopen-IsPool p k g jitter v = elim (Option-cases (current p k g)) [
    | inl e ↦ rw (e, reopen) v
    | inr (c, e) ↦
        let found = (current-find p k g c e).0 in
        rw (e, reopen)
          (replaced p (retry_later a c jitter) c
            (ap (λ j. find_conn j p.conns) (find_conn-key k p.conns c found) ∙ found) (inr refl) v)
  ]

  reopen-next_sock : (p : Pool) (k g jitter : ℕ) → (reopen a p k g jitter).next_sock ≡ p.next_sock
  unfolding reopen
  reopen-next_sock p k g jitter = elim (Option-cases (current p k g)) [
    | inl e ↦ rw (e, reopen) refl
    | inr (c, e) ↦ rw (e, reopen) refl
  ]

  after_failure :
      (p : Pool) (c : Conn) (jitter : ℕ)
      → find_conn c.key p.conns ≡ some c
      → c.timer ≡ none
      → IsPool p
      → IsPool (
          reopen a (record p { conns = store (attempt c) p.conns }) c.key (c.generation + 1) jitter)
  after_failure p c jitter e no_timer v =
      reopen-IsPool _ c.key (c.generation + 1) jitter (kept p (attempt c) c e refl (inl no_timer) v)

  IsPool-if : {p q : Pool} (b : Bool) → IsPool p → IsPool q → IsPool (if b then p else q)
  IsPool-if true v w = v
  IsPool-if false v w = w

  pub open_conn-IsPool :
      (p : Pool) (c : Conn) (outcome : Outcome) (jitter : ℕ)
      → find_conn c.key p.conns ≡ some c
      → c.sock ≡ none
      → c.timer ≡ none
      → IsPool p
      → IsPool (open_conn a p c outcome jitter)
  unfolding open_conn
  open_conn-IsPool p c throws jitter e no_sock no_timer v =
      IsPool-if p.running (after_failure p c jitter e no_timer v) v
  open_conn-IsPool p c closed_at_once jitter e no_sock no_timer v =
      let tried = record p { conns = store (attempt c) p.conns } in
      let failed = reopen a tried c.key (c.generation + 1) jitter in
      let w = after_failure p c jitter e no_timer v in
      let same = reopen-next_sock tried c.key (c.generation + 1) jitter in
      let log = λ (s : ℕ). has-append s failed.closed (p.next_sock ∷ []) in
      IsPool-if p.running
        (record {
          idle = w.idle;
          accounted = λ s lt. elim (Bool-cases (ltb s p.next_sock)) [
            | inl old ↦
                ground (arith, w.accounted s (omega (arith, same, ltb→lt s p.next_sock old)), log s)
            | inr new ↦ ground (arith, new, lt, log s)
          ];
          keys = w.keys;
        })
        v
  open_conn-IsPool p c created jitter e no_sock no_timer v =
      let c' = record (attempt c) { sock = some p.next_sock; connect_timer = true } in
      let r = replaced p c' c e (inl no_timer) v in
      IsPool-if p.running
        (record {
          idle = r.idle;
          accounted = λ s lt. elim (Bool-cases (ltb s p.next_sock)) [
            | inl old ↦ ground (
              arith,
              v.accounted s (ltb→lt s p.next_sock old),
              held-store s c' c p.conns e,
              no_sock,
            )
            | inr new ↦ ground (arith, held-store_new s c' c p.conns e (ground (arith, new, lt)))
          ];
          keys = r.keys;
        })
        v

  pub pushed-IsPool :
      (p : Pool) (symbols : List String)
      → IsPool p
      → IsPool (record p {
        conns = p.conns ++ fresh_conn p.next_key (length p.conns) symbols ∷ [];
        next_key = p.next_key + 1;
      })
  pushed-IsPool p symbols v =
      let c = fresh_conn p.next_key (length p.conns) symbols in
      record {
        idle = All-snoc Idle c p.conns v.idle (inl refl);
        accounted = λ s lt. ground (arith, v.accounted s lt, held-append s p.conns (c ∷ []));
        keys =
            All-snoc (λ d. d.key < p.next_key + 1) c p.conns (All-later p.conns v.keys)
              (omega arith);
      }
    where
      All-later :
          (cs : List Conn) → All (λ c. c.key < p.next_key) cs → All (λ c. c.key < p.next_key + 1) cs
      All-later [] h = tt
      All-later (c ∷ cs) h = (omega (arith, h.0), All-later cs h.1)

  open_all-IsPool :
      (p : Pool) (slices : List (List String)) (outcomes : ℕ → Outcome) (jitter : ℕ)
      → IsPool p
      → IsPool (open_all a p slices outcomes jitter)
  unfolding open_all
  open_all-IsPool p [] outcomes jitter v = v
  open_all-IsPool p (symbols ∷ slices) outcomes jitter v =
      let c = fresh_conn p.next_key (length p.conns) symbols in
      let pushed = record p { conns = p.conns ++ c ∷ []; next_key = p.next_key + 1 } in
      open_all-IsPool (open_conn a pushed c (outcomes c.index) jitter) slices outcomes jitter (
        open_conn-IsPool _ c (outcomes c.index) jitter (find_conn-fresh c p.conns v.keys) refl refl
          (pushed-IsPool p symbols v))

  pub teardown-IsPool : (p : Pool) → IsPool p → IsPool (teardown_all p)
  unfolding teardown_all held
  teardown-IsPool p v = record {
    idle = tt;
    accounted = λ s lt. ground (arith, v.accounted s lt, has-append s p.closed (held p.conns));
    keys = tt;
  }

  resync-IsPool :
      (p : Pool) (symbols : List String) (outcomes : ℕ → Outcome) (jitter : ℕ)
      → IsPool p
      → IsPool (resync a p symbols outcomes jitter)
  unfolding resync
  resync-IsPool p symbols outcomes jitter v =
      let want = sort_symbols a.comes_before (distinct symbols) in
      let have = sort_symbols a.comes_before (all_symbols p.conns) in
      elim (Bool-cases (not p.running || (ltb 0 (length p.conns) && same_texts want have))) [
        | inl e ↦ simp e v
        | inr e ↦ simp e (
            open_all-IsPool (teardown_all p) (chunks (length want) (max 1 a.max_topics) want)
              outcomes jitter (teardown-IsPool p v))
      ]

  opened-IsPool : (p : Pool) (k g : ℕ) → IsPool p → IsPool (opened_conn a p k g)
  unfolding opened_conn
  opened-IsPool p k g v = elim (Option-cases (current p k g)) [
    | inl e ↦ rw (e, opened_conn) v
    | inr (c, e) ↦
        let found = (current-find p k g c e).0 in
        let c' = record c { connect_timer = false; opened = true; attempts = 0; ping = a.pings } in
        let r =
          kept p c' c (ap (λ j. find_conn j p.conns) (find_conn-key k p.conns c found) ∙ found) refl
            (All-find Idle k p.conns c v.idle found) v in
        rw (e, opened_conn) (record { idle = r.idle; accounted = r.accounted; keys = r.keys })
  ]

  message-IsPool :
      (p : Pool) (k g : ℕ) (message : String) → IsPool p → IsPool (handle_message a p k g message)
  unfolding handle_message
  message-IsPool p k g message v = elim (Option-cases (current p k g)) [
    | inl e ↦ rw (e, handle_message) v
    | inr (c, e) ↦
        rw (e, handle_message) (record { idle = v.idle; accounted = v.accounted; keys = v.keys })
  ]

  timed_out-IsPool : (p : Pool) (k g jitter : ℕ) → IsPool p → IsPool (timed_out a p k g jitter)
  unfolding timed_out
  timed_out-IsPool p k g jitter v = elim (Option-cases (current p k g)) [
    | inl e ↦ rw (e, timed_out) v
    | inr (c, e) ↦ elim (Bool-cases c.opened) [
      | inl o ↦ rw (e, timed_out) (simp o v)
      | inr o ↦ rw (e, timed_out) (simp o (reopen-IsPool p k g jitter v))
    ]
  ]

  fire_timer-IsPool :
      (p : Pool) (k : ℕ) (outcome : Outcome) (jitter : ℕ)
      → IsPool p
      → IsPool (fire_timer a p k outcome jitter)
  unfolding fire_timer
  fire_timer-IsPool p k outcome jitter v = elim (Option-cases (find_conn k p.conns)) [
    | inl e ↦ rw (e, fire_timer) v
    | inr (c, e) ↦ elim (Option-cases c.timer) [
      | inl t ↦ rw (e, fire_timer) (simp t v)
      | inr (wait, t) ↦
          let c' = record c { timer = none } in
          let own = ap (λ j. find_conn j p.conns) (find_conn-key k p.conns c e) ∙ e in
          let no_sock : c.sock ≡ none = elim (All-find Idle k p.conns c v.idle e) [
            | inl n ↦ absurd (ground (arith, n, t))
            | inr n ↦ n
          ] in
          rw (e, fire_timer)
            (simp t (
              open_conn-IsPool (record p { conns = store c' p.conns }) c' outcome jitter
                (find_conn-store c' c p.conns own) no_sock refl
                (kept p c' c own refl (inl refl) v)))
    ]
  ]

  pub step-IsPool : (p : Pool) (e : Event) → IsPool p → IsPool (step a p e)
  unfolding step
  step-IsPool p (starts symbols outcomes jitter) v =
      resync-IsPool (record p { running = true }) symbols outcomes jitter
        (record { idle = v.idle; accounted = v.accounted; keys = v.keys })
  step-IsPool p (resyncs symbols outcomes jitter) v = resync-IsPool p symbols outcomes jitter v
  step-IsPool p stops v =
      let t = teardown-IsPool p v in
      record { idle = t.idle; accounted = t.accounted; keys = t.keys }
  step-IsPool p (on_open k g jitter) v = opened-IsPool p k g v
  step-IsPool p (on_close k g jitter) v = reopen-IsPool p k g jitter v
  step-IsPool p (on_error k g jitter) v = reopen-IsPool p k g jitter v
  step-IsPool p (connect_times_out k g jitter) v = timed_out-IsPool p k g jitter v
  step-IsPool p (on_message k g message) v = message-IsPool p k g message v
  step-IsPool p (timer_fires k outcome jitter) v = fire_timer-IsPool p k outcome jitter v

  run-IsPool_from : (p : Pool) (es : List Event) → IsPool p → IsPool (run a p es)
  unfolding run
  run-IsPool_from p [] v = v
  run-IsPool_from p (e ∷ es) v = run-IsPool_from (step a p e) es (step-IsPool p e v)

  -- No socket is lost: in every state that a new pool reaches by any sequence of events, each socket
  -- made so far has been closed or is the socket of a connection, and a connection that waits for its
  -- next attempt has no socket, so an attempt never replaces a socket that is open.
  pub run-IsPool : (es : List Event) → IsPool (run a new_pool es)
  run-IsPool es =
      run-IsPool_from new_pool es
        (record { idle = tt; accounted = λ s lt. absurd (omega arith); keys = tt })

  -- Stopping leaves nothing open: after any sequence of events and a `stop`, no connection is left and
  -- every socket that was ever made has been closed.
  pub stop-closes_all :
      (es : List Event) (s : ℕ)
      → let p = run a new_pool es in
        s < p.next_sock → ((step a p stops).conns ≡ []) × (has s (step a p stops).closed ≡ true)
  unfolding step teardown_all
  stop-closes_all es s lt =
      let p = run a new_pool es in
      (refl, has-append s p.closed (held p.conns) ∙ (run-IsPool es).accounted s lt)
