-- ===== src/Leases/Locks.antt =====
-- The recovery lock of a licence (license-leases.ts).
use wickhunter_hub.Leases.Moves.{Moves}
use wickhunter_hub.Leases.Issues.{Issues}
