-- ===== src/Lib.antt =====
-- A verification library for the WickHunter Hub: the server that issues licences, admits the boxes
-- that use them, guards its routes and feeds the bots with market data.
--
-- The parts that are modelled, and the files of the repository that they stand for:
--   Prelude     names passed on from the libraries, Boolean tests on numbers, lists, dictionaries
--               with text keys (a JavaScript object or Map), integers.
--   Seats       src/seats.ts. `SeatStore`: one licence, one machine. `admit` is the store's step;
--               `decide` is its body between the read and the write of the record.
--   RateLimit   src/ratelimit.ts. Window is `SlidingWindowLimiter`, Backoff is `AdminBackoffLimiter`
--               with the head of `adminApi` in src/server.ts, and Address is the IP allowlist.
--   License     src/license.ts. `LicenseStore`: tokens, the registry and the revocations.
--   Leases      src/license-leases.ts. `LicenseLeaseService` over its audit ledger: Service has an operation for
--               each method, which reads a replayed state and answers the event to append; `append_event`
--               writes it, `replay` reads the ledger back. Tokens has the signed leases. In a run of the service
--               (Leases.Reach) the id that an activation draws is not in use.
--   Budget      src/marketcap/budget.ts: the monthly credits and the requests a minute, and the `spend`
--               hook of src/marketcap/service.ts, which waits and charges.
--   Sockets     src/net/socket-pool.ts: `SocketPool`. An event of the model is a call of `start`, `stop` or
--               `resync`, a callback of a socket or the firing of a timer; a run is any list of events.
--   Support     src/support-session-limiter.ts: `SupportSessionLimiter`, admission over shared cells.
--   Hosting     src/hosting/deadlines.ts: when an unpaid or cancelled machine is powered off and deleted.
--
-- How they interact: `adminApi` asks the backoff limiter before it compares the token and tells it the
-- outcome; the check-in route verifies a token with the licence store and then takes a seat; the
-- lease service asks the licence store about the token of every call (Leases.Service.Challenge). The
-- components share no state, so each has a state of its own here: a record, passed to an operation and
-- returned by it. Files on disk are dictionaries; a method that reads, changes and writes a file is one
-- step on its contents.
--
-- Numbers: instants are whole milliseconds from 0 (in Hosting any integer), so `Math.round` is the identity and the tests for
-- finite numbers hold; where the source subtracts, the model adds on the other side or has the sign
-- written out. Text is a sequence of Unicode characters, or of their codes where it is parsed; `length`
-- counts UTF-16 units where the source does. Each loop of the source is over a list, except two that run
-- on fuel: the slicing of the symbols in Sockets.chunks, one unit for each symbol (Sockets.Slices), and the
-- binary search of Leases.Service.State, one unit for each row (Leases.Search).
--
-- Outside of the model, as parameters with their laws: Ed25519, `JSON.parse` and `JSON.stringify`,
-- base64url (License.Types.Codec and IsCodec, Leases.Types.Env and Leases.Laws.IsEnv), SHA-256, random ids and jitter, and the UTC calendar (`monthKey`).
-- Not modelled: HTTP, files and their atomic replacement, the parsing of environment variables, and the
-- parts that are mostly clients of outside services (exchanges, Stripe, Brevo, the hosting provider),
-- nor billing, the hosting lifecycle, candles and liquidations.
pub mod Prelude
pub mod Seats
pub mod RateLimit
pub mod License
pub mod Leases
pub mod Budget
pub mod Sockets
pub mod Hosting
pub mod Support
