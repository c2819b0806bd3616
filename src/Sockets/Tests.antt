-- ===== src/Sockets/Tests.antt =====
-- Concrete pools (net/socket-pool.ts): tests, and instances of the theorems.
use wickhunter_hub.Prelude.{◌≡◌, refl, true, false, some, List, [], ◌∷◌, arith, inl, inr}
use wickhunter_hub.Sockets.{
  Adapter, Conn, Pool, new_pool, fresh_conn, current, Event, starts, stops, on_close, on_open,
  on_message, on_error, connect_times_out, timer_fires, created, step, run, find_conn, chunks,
  resync, teardown_all, opened_conn, reopen, handle_message, fire_timer, open_conn, open_all, store,
  sort_symbols, insert_symbol, distinct, member, all_symbols, same_texts, held, retry_later,
}
use wickhunter_hub.Sockets.Held.{has}
use wickhunter_hub.Sockets.Accounts.{IsPool, run-IsPool, stop-closes_all}
use wickhunter_hub.Sockets.Retired.{IsRetired, retired_forever}

abbrev venue : Adapter
venue = record {
  max_topics = 2;
  subscribe_frames = λ symbols. symbols;
  reply_frames = λ message. [];
  pings = true;
  reconnect_ms = 2000;
  reconnect_max_ms = 60000;
  comes_before = λ x y. false;
}

-- Three symbols over two sockets; the first closes and comes back, its late message is dropped.
abbrev events : List Event
events =
    starts ("btc" ∷ "eth" ∷ "sol" ∷ []) (λ i. created) 500
    ∷ on_open 0 1 0
    ∷ on_message 0 1 "tick"
    ∷ on_close 0 1 500
    ∷ on_message 0 1 "late"
    ∷ timer_fires 0 created 500
    ∷ []

run-events : (run venue new_pool events).delivered ≡ (0, "tick") ∷ []
unfolding run step resync open_all open_conn teardown_all opened_conn reopen handle_message
    fire_timer current find_conn store sort_symbols insert_symbol distinct member all_symbols
    same_texts held retry_later chunks
run-events = refl

run-made : (run venue new_pool events).next_sock ≡ 3
unfolding run step resync open_all open_conn teardown_all opened_conn reopen handle_message
    fire_timer current find_conn store sort_symbols insert_symbol distinct member all_symbols
    same_texts held retry_later chunks
run-made = refl

run-IsPool_example : IsPool (run venue new_pool events)
run-IsPool_example = run-IsPool venue events

stop-closes_all_example :
    ((step venue (run venue new_pool events) stops).conns ≡ [])
    × (has 1 (step venue (run venue new_pool events) stops).closed ≡ true)
stop-closes_all_example = stop-closes_all venue events 1 (rw run-made (omega arith))

-- A pool with one open connection.
abbrev tail : Conn
tail = record (fresh_conn 0 0 ("btc" ∷ [])) { sock = some 0; opened = true; generation = 1 }

abbrev streaming : Pool
streaming = record new_pool { running = true; conns = tail ∷ []; next_key = 1; next_sock = 1 }

streaming-IsPool : IsPool streaming
unfolding held
streaming-IsPool = record {
  idle = (inl refl, tt);
  accounted = λ s lt. ground (arith, lt);
  keys = (omega arith, tt);
}

streaming-IsRetired : IsRetired 0 0 streaming
unfolding find_conn
streaming-IsRetired = record { given = omega arith; past = inr (tail, refl, omega arith) }

retired_forever_example :
    let q = run venue streaming events in
    (step venue q (on_message 0 0 "late") ≡ q)
    × (step venue q (on_open 0 0 7) ≡ q)
    × (step venue q (on_close 0 0 7) ≡ q)
    × (step venue q (on_error 0 0 7) ≡ q)
    × (step venue q (connect_times_out 0 0 7) ≡ q)
retired_forever_example =
    retired_forever 0 0 venue streaming events "late" 7 streaming-IsPool streaming-IsRetired
