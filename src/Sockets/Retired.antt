-- ===== src/Sockets/Retired.antt =====
-- Callbacks of a retired socket (net/socket-pool.ts): they never act again.
use wickhunter_hub.Prelude.{
  ◌⊎◌, ◌≤◌, ℕ, ◌+◌, ◌<◌, ◌≡◌, ◌≢◌, refl, sym, ap, ◌∙◌, String, Bool, true, false, not, ◌&&◌, ◌||◌,
  none, some, List, [], ◌∷◌, ◌++◌, ltb, ◌==◌, if◌then◌else◌, length, max, Option-cases, Bool-cases,
  inl, inr, arith, subst,
}
use wickhunter_hub.Sockets.{
  Adapter, Conn, Pool, find_conn, store, current, Outcome, created, throws, closed_at_once, Event,
  starts, resyncs, stops, on_open, on_close, on_error, connect_times_out, on_message, timer_fires,
  teardown_all, fresh_conn, attempt, retry_later, reopen, open_conn, open_all, resync, opened_conn,
  handle_message, timed_out, fire_timer, step, run, sort_symbols, distinct, all_symbols, same_texts,
  chunks,
}
use wickhunter_hub.Sockets.Conns.{
  find_conn-key, find_conn-store, find_conn-store_ne, find_conn-snoc_ne, find_conn-fresh,
  current-find, All-find,
}
use wickhunter_hub.Sockets.Accounts.{
  IsPool, open_conn-IsPool, pushed-IsPool, teardown-IsPool, step-IsPool,
}

-- The key is given, and its connection is gone or past the generation.
pub record IsRetired (k g : ℕ) (p : Pool) : Type 0 where
  pub given : k < p.next_key
  pub past :
      (find_conn k p.conns ≡ none)
      ⊎ ((c : Conn) × (find_conn k p.conns ≡ some c) × (g < c.generation))

retired-current : (k g : ℕ) (p : Pool) → IsRetired k g p → current p k g ≡ none
unfolding current
retired-current k g p r = elim r.past [
  | inl n ↦ ground (arith, n)
  | inr (c, e, lt) ↦ ground (arith, e, lt)
]

IsRetired-if :
    {k g : ℕ} {p q : Pool} (b : Bool)
    → IsRetired k g p
    → IsRetired k g q
    → IsRetired k g (if b then p else q)
IsRetired-if true v w = v
IsRetired-if false v w = w

module _ (k g : ℕ) where
  -- A connection stored in place of the one with its key, at no earlier generation.
  stored-past :
      (c old : Conn) (cs : List Conn)
      → find_conn c.key cs ≡ some old
      → old.generation ≤ c.generation
      → ((find_conn k cs ≡ none) ⊎ ((d : Conn) × (find_conn k cs ≡ some d) × (g < d.generation)))
      → (find_conn k (store c cs) ≡ none)
        ⊎ ((d : Conn) × (find_conn k (store c cs) ≡ some d) × (g < d.generation))
  stored-past c old cs e le past = elim (Bool-cases (c.key == k)) [
    | inr other ↦
        subst (λ o. (o ≡ none) ⊎ ((d : Conn) × (o ≡ some d) × (g < d.generation)))
          (sym (find_conn-store_ne k c cs (ground (arith, other)))) past
    | inl own ↦
        let key : c.key ≡ k = ground (arith, own) in
        let found : find_conn k cs ≡ some old = ap (λ j. find_conn j cs) (sym key) ∙ e in
        inr (
          c,
          ap (λ j. find_conn j (store c cs)) (sym key) ∙ find_conn-store c old cs e,
          elim past [
            | inl n ↦ absurd (ground (arith, n, found))
            | inr (d, f, lt) ↦
                let same : d ≡ old = ground (arith, f, found) in
                let gen : d.generation ≡ old.generation = ap (λ (x : Conn). x.generation) same in
                omega arith
          ],
        )
  ]

  module _ (a : Adapter) where
    reopen-IsRetired :
        (p : Pool) (j h jitter : ℕ) → IsRetired k g p → IsRetired k g (reopen a p j h jitter)
    unfolding reopen retry_later
    reopen-IsRetired p j h jitter r = elim (Option-cases (current p j h)) [
      | inl e ↦ rw (e, reopen) r
      | inr (c, e) ↦
          let found = (current-find p j h c e).0 in
          rw (e, reopen)
            (record {
              given = r.given;
              past =
                  stored-past (retry_later a c jitter) c p.conns
                    (ap (λ i. find_conn i p.conns) (find_conn-key j p.conns c found) ∙ found)
                    (omega arith) r.past;
            })
    ]

    open_conn-IsRetired :
        (p : Pool) (c : Conn) (outcome : Outcome) (jitter : ℕ)
        → find_conn c.key p.conns ≡ some c
        → IsRetired k g p
        → IsRetired k g (open_conn a p c outcome jitter)
    unfolding open_conn
    open_conn-IsRetired p c created jitter e r =
        let c' = record (attempt c) { sock = some p.next_sock; connect_timer = true } in
        IsRetired-if p.running
          (record { given = r.given; past = stored-past c' c p.conns e (omega arith) r.past }) r
    open_conn-IsRetired p c throws jitter e r =
        IsRetired-if p.running
          (reopen-IsRetired (record p { conns = store (attempt c) p.conns }) c.key
            (c.generation + 1) jitter
            (record {
              given = r.given;
              past = stored-past (attempt c) c p.conns e (omega arith) r.past;
            }))
          r
    open_conn-IsRetired p c closed_at_once jitter e r =
        let f =
          reopen-IsRetired (record p { conns = store (attempt c) p.conns }) c.key (c.generation + 1)
            jitter
            (record {
              given = r.given;
              past = stored-past (attempt c) c p.conns e (omega arith) r.past;
            }) in
        IsRetired-if p.running (record { given = f.given; past = f.past }) r

    open_all-IsRetired :
        (p : Pool) (slices : List (List String)) (outcomes : ℕ → Outcome) (jitter : ℕ)
        → IsPool p
        → IsRetired k g p
        → IsRetired k g (open_all a p slices outcomes jitter)
    unfolding open_all
    open_all-IsRetired p [] outcomes jitter v r = r
    open_all-IsRetired p (symbols ∷ slices) outcomes jitter v r =
        let c = fresh_conn p.next_key (length p.conns) symbols in
        let pushed = record p { conns = p.conns ++ c ∷ []; next_key = p.next_key + 1 } in
        let w = pushed-IsPool a p symbols v in
        let own = find_conn-fresh c p.conns v.keys in
        let differs : c.key ≢ k = (λ e. omega (arith, r.given, e)) in
        let same = find_conn-snoc_ne k c p.conns differs in
        let later : k < p.next_key + 1 = omega (arith, r.given) in
        open_all-IsRetired (open_conn a pushed c (outcomes c.index) jitter) slices outcomes jitter
          (open_conn-IsPool a pushed c (outcomes c.index) jitter own refl refl w)
          (open_conn-IsRetired pushed c (outcomes c.index) jitter own (record {
            given = later;
            past =
                subst (λ o. (o ≡ none) ⊎ ((d : Conn) × (o ≡ some d) × (g < d.generation)))
                  (sym same) r.past;
          }))

    teardown-IsRetired : (p : Pool) → k < p.next_key → IsRetired k g (teardown_all p)
    unfolding teardown_all find_conn
    teardown-IsRetired p lt = record { given = lt; past = inl refl }

    resync-IsRetired :
        (p : Pool) (symbols : List String) (outcomes : ℕ → Outcome) (jitter : ℕ)
        → IsPool p
        → IsRetired k g p
        → IsRetired k g (resync a p symbols outcomes jitter)
    unfolding resync
    resync-IsRetired p symbols outcomes jitter v r =
        let want = sort_symbols a.comes_before (distinct symbols) in
        let have = sort_symbols a.comes_before (all_symbols p.conns) in
        IsRetired-if (not p.running || (ltb 0 (length p.conns) && same_texts want have)) r (
          open_all-IsRetired (teardown_all p) (chunks (length want) (max 1 a.max_topics) want)
            outcomes jitter (teardown-IsPool a p v) (teardown-IsRetired p r.given))

    opened-IsRetired : (p : Pool) (j h : ℕ) → IsRetired k g p → IsRetired k g (opened_conn a p j h)
    unfolding opened_conn
    opened-IsRetired p j h r = elim (Option-cases (current p j h)) [
      | inl e ↦ rw (e, opened_conn) r
      | inr (c, e) ↦
          let found = (current-find p j h c e).0 in
          let c' = record c {
            connect_timer = false;
            opened = true;
            attempts = 0;
            ping = a.pings;
          } in
          rw (e, opened_conn)
            (record {
              given = r.given;
              past =
                  stored-past c' c p.conns
                    (ap (λ i. find_conn i p.conns) (find_conn-key j p.conns c found) ∙ found)
                    (omega arith) r.past;
            })
    ]

    message-IsRetired :
        (p : Pool) (j h : ℕ) (message : String)
        → IsRetired k g p
        → IsRetired k g (handle_message a p j h message)
    unfolding handle_message
    message-IsRetired p j h message r = elim (Option-cases (current p j h)) [
      | inl e ↦ rw (e, handle_message) r
      | inr (c, e) ↦ rw (e, handle_message) (record { given = r.given; past = r.past })
    ]

    timed_out-IsRetired :
        (p : Pool) (j h jitter : ℕ) → IsRetired k g p → IsRetired k g (timed_out a p j h jitter)
    unfolding timed_out
    timed_out-IsRetired p j h jitter r = elim (Option-cases (current p j h)) [
      | inl e ↦ rw (e, timed_out) r
      | inr (c, e) ↦ rw (e, timed_out) (IsRetired-if c.opened r (reopen-IsRetired p j h jitter r))
    ]

    fire_timer-IsRetired :
        (p : Pool) (j : ℕ) (outcome : Outcome) (jitter : ℕ)
        → IsRetired k g p
        → IsRetired k g (fire_timer a p j outcome jitter)
    unfolding fire_timer
    fire_timer-IsRetired p j outcome jitter r = elim (Option-cases (find_conn j p.conns)) [
      | inl e ↦ rw (e, fire_timer) r
      | inr (c, e) ↦ elim (Option-cases c.timer) [
        | inl t ↦ rw (e, fire_timer) (simp t r)
        | inr (wait, t) ↦
            let c' = record c { timer = none } in
            let own = ap (λ i. find_conn i p.conns) (find_conn-key j p.conns c e) ∙ e in
            rw (e, fire_timer)
              (simp t (
                open_conn-IsRetired (record p { conns = store c' p.conns }) c' outcome jitter
                  (find_conn-store c' c p.conns own)
                  (record {
                    given = r.given;
                    past = stored-past c' c p.conns own (omega arith) r.past;
                  })))
      ]
    ]

    step-IsRetired :
        (p : Pool) (e : Event) → IsPool p → IsRetired k g p → IsRetired k g (step a p e)
    unfolding step
    step-IsRetired p (starts symbols outcomes jitter) v r =
        resync-IsRetired (record p { running = true }) symbols outcomes jitter
          (record { idle = v.idle; accounted = v.accounted; keys = v.keys })
          (record { given = r.given; past = r.past })
    step-IsRetired p (resyncs symbols outcomes jitter) v r =
        resync-IsRetired p symbols outcomes jitter v r
    step-IsRetired p stops v r =
        let t = teardown-IsRetired p r.given in record { given = t.given; past = t.past }
    step-IsRetired p (on_open j h jitter) v r = opened-IsRetired p j h r
    step-IsRetired p (on_close j h jitter) v r = reopen-IsRetired p j h jitter r
    step-IsRetired p (on_error j h jitter) v r = reopen-IsRetired p j h jitter r
    step-IsRetired p (connect_times_out j h jitter) v r = timed_out-IsRetired p j h jitter r
    step-IsRetired p (on_message j h message) v r = message-IsRetired p j h message r
    step-IsRetired p (timer_fires j outcome jitter) v r = fire_timer-IsRetired p j outcome jitter r

    run-IsRetired :
        (p : Pool) (es : List Event) → IsPool p → IsRetired k g p → IsRetired k g (run a p es)
    unfolding run
    run-IsRetired p [] v r = r
    run-IsRetired p (e ∷ es) v r =
        run-IsRetired (step a p e) es (step-IsPool a p e v) (step-IsRetired p e v r)

    -- A late callback changes nothing. Once a connection's generation is retired, then after any further
    -- events an open, a message, an error, a close or a connect timeout of that generation leaves the
    -- pool as it is: no message is delivered, no frame sent and no second attempt scheduled.
    pub retired_forever :
        (p : Pool) (es : List Event) (message : String) (jitter : ℕ)
        → IsPool p
        → IsRetired k g p
        → let q = run a p es in
          (step a q (on_message k g message) ≡ q)
          × (step a q (on_open k g jitter) ≡ q)
          × (step a q (on_close k g jitter) ≡ q)
          × (step a q (on_error k g jitter) ≡ q)
          × (step a q (connect_times_out k g jitter) ≡ q)
    unfolding step handle_message opened_conn reopen timed_out
    retired_forever p es message jitter v r =
        let q = run a p es in
        let n = retired-current k g q (run-IsRetired p es v r) in
        (
          ground (arith, n),
          ground (arith, n),
          ground (arith, n),
          ground (arith, n),
          ground (arith, n),
        )

    -- What retires the current generation of a connection: the close or an error of its socket, and a
    -- stop of the pool.
    pub retires :
        (p : Pool) (c : Conn) (jitter : ℕ)
        → IsPool p
        → current p k g ≡ some c
        → IsRetired k g (step a p (on_close k g jitter))
          × IsRetired k g (step a p (on_error k g jitter))
          × IsRetired k g (step a p stops)
    unfolding step reopen retry_later
    retires p c jitter v e =
        let (found, gen, _) = current-find p k g c e in
        let key = find_conn-key k p.conns c found in
        let given =
          subst (λ j. j < p.next_key) key
            (All-find (λ d. d.key < p.next_key) k p.conns c v.keys found) in
        let later = retry_later a c jitter in
        let closed : IsRetired k g (reopen a p k g jitter) =
          rw (e, reopen)
            (record {
              given = given;
              past = inr (
                later,
                ap (λ j. find_conn j (store later p.conns)) (sym key)
                    ∙ find_conn-store later c p.conns (ap (λ j. find_conn j p.conns) key ∙ found),
                omega (arith, gen),
              );
            }) in
        let t = teardown-IsRetired p given in
        (closed, closed, record { given = t.given; past = t.past })
