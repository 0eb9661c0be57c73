-- ===== src/Postgres/Agreement.antt =====
-- Where the two stores treat an auction alike (postgres/moderation.go, postgres/auction_owner_ops.go,
-- memory/moderation.go, memory/auction_repository.go).
use auction_server.Prelude.{ℕ, ◌+◌, ◌*◌, ◌^◌, ◌<◌, ◌≤◌, ◌≡◌, refl, ap, ◌∙◌, none, some, arith}
use auction_server.Prelude.Int.{pos, sub, add, mul, quot, sub_pos, add_pos}
use auction_server.Memory
use mathlib.Core.Option
use auction_server.Postgres.{AuctionRow, greatest, sql_add, sql_sub, in_bigint}
use auction_server.Postgres.Scan.{scan_auction_row}
use auction_server.Postgres.Moderation.{approve, restarted_expiry}

-- A row whose duration is a positive number of hours, and the time of its approval.
pub record HasWholeHours (a : AuctionRow) (now hours : ℕ) : Type 0 where
  pub created : ℕ
  pub created_at : a.created_at_ms ≡ pos created
  pub expires_at : a.expires_at_ms ≡ pos (created + hours * 3600000)
  pub positive : 1 ≤ hours
  pub small : created + hours * 3600000 < 2 ^ 63
  pub fits : now + hours * 3600000 < 2 ^ 63
  pub not_ended : a.ended_at_ms ≡ none

sql_add_pos : (a b : ℕ) → a + b < 2 ^ 63 → sql_add (pos a) (pos b) ≡ some (pos (a + b))
unfolding sql_add in_bigint
sql_add_pos a b h = ground arith

sql_sub_pos : (a b : ℕ) → a + b < 2 ^ 63 → sql_sub (pos (a + b)) (pos a) ≡ some (pos b)
unfolding sql_sub in_bigint
sql_sub_pos a b h = ground arith

greatest_hours :
    (hours : ℕ) → 1 ≤ hours → greatest (pos (hours * 3600000)) (pos 3600000) ≡ pos (hours * 3600000)
unfolding greatest
greatest_hours hours h = ground arith

restarted_expiry_of_hours :
    (a : AuctionRow) (now hours : ℕ)
    → HasWholeHours a now hours
    → restarted_expiry (pos now) a ≡ some (pos (now + hours * 3600000))
unfolding restarted_expiry
restarted_expiry_of_hours a now hours h =
    rw (h.created_at, h.expires_at)
      (rw
        (
          restarted_expiry,
          sql_sub_pos h.created (hours * 3600000) h.small,
          greatest_hours hours h.positive,
        )
        (sql_add_pos now (hours * 3600000) h.fits))

sub_back : (a b : ℕ) → a + b < 2 ^ 63 → sub (pos (a + b)) (pos a) ≡ pos b
sub_back a b h = sub_pos (a + b) a (omega arith) h ∙ ap pos (omega arith)

quot_hours : (hours : ℕ) → quot (pos (hours * 3600000)) 3600000 ≡ pos hours
unfolding quot
quot_hours hours = ground arith

mul_hours :
    (hours : ℕ) → hours * 3600000 < 2 ^ 63 → mul (mul (pos hours) 3600) 1000 ≡ pos (hours * 3600000)
unfolding mul
mul_hours hours h = ground arith

approved_hours_of_hours :
    (a : AuctionRow) (now hours : ℕ)
    → HasWholeHours a now hours
    → Memory.Moderation.approved_hours (scan_auction_row a) ≡ pos hours
unfolding Memory.Moderation.approved_hours scan_auction_row
approved_hours_of_hours a now hours h =
    rw (h.created_at, h.expires_at)
      (rw (sub_back h.created (hours * 3600000) h.small, quot_hours hours)
        (ground (arith, h.positive)))

-- For an auction that has not ended and whose duration is a positive number of whole hours,
-- approval in the PostgreSQL store and in the in-memory store give the same auction, if the new
-- end fits in 64 bits.
pub approve_agrees :
    (a : AuctionRow) (now hours : ℕ)
    → HasWholeHours a now hours
    → Option.map scan_auction_row (approve (pos now) a)
      ≡ some (Memory.Moderation.approve (pos now) (scan_auction_row a))
unfolding approve Memory.Moderation.approve
approve_agrees a now hours h =
    let expiry : add (pos now)
          (mul (mul (Memory.Moderation.approved_hours (scan_auction_row a)) 3600) 1000)
        ≡ pos (now + hours * 3600000) =
      rw (approved_hours_of_hours a now hours h, mul_hours hours (omega (arith, h.fits)))
        (add_pos now (hours * 3600000) h.fits) in
    let restarted = restarted_expiry_of_hours a now hours h in
    rw (approve, restarted, expiry) (unfold scan_auction_row in rw (h.not_ended) refl)
