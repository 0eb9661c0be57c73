-- ===== src/Memory/BestBids.antt =====
-- What the list of the best bids shows (memory/auction_repository.go, `TopBids`).
use mathlib.Core.List.{Perm}
use auction_server.Prelude.{ℕ, ◌≡◌, List, ◌++◌, length}
use auction_server.Prelude.Text.{Text}
use auction_server.Prelude.Sort.{IsSorted}
use auction_server.Domain.{Bid}
use auction_server.Memory.{by_price}
use Prim.Native.Nat.{min}

-- The list and the bids that it leaves out.
pub record IsBestOf (n : ℕ) (best all : List Bid) : Type 0 where
  pub others : List Bid
  pub complete : Perm (best ++ others) all
  pub sorted : IsSorted by_price (best ++ others)
  pub count : length best ≡ min n (length (best ++ others))
