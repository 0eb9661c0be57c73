-- ===== src/Memory/Steps/Keys.antt =====
-- The map of auctions lists each key once in every reachable state, as a Go map does.
use auction_server.Prelude.{List, [], ◌∷◌, arith}
use auction_server.Prelude.Int.{ℤ}
use auction_server.Prelude.Text.{Text}
use auction_server.Prelude.Dict.{Dict, HasUniqueKeys, insert-HasUniqueKeys, map_laws}
use auction_server.Domain.{Auction, Bid}
use auction_server.Memory.{
  Repository, new_repository, finalize_expired, finalize_entries, finalize_entry,
  refresh_auction_aggregates,
}
use auction_server.Memory.Bidding.{
  place_bid, store_bid, delete_bid, remove_bids, min_required_bid, min_required_of,
}
use auction_server.Memory.Owner.{
  create_auction, extend_auction, bump_auction, set_featured, delete_auction, update_auction,
  put_auction,
}
use auction_server.Memory.Moderation.{approve_moderation, reject_moderation}
use auction_server.Memory.Steps.{Step, Reach}

pub record IsMap (r : Repository) : Type 0 where
  pub unique : HasUniqueKeys r.auctions

refresh-IsMap : (id : Text) (r : Repository) → IsMap r → IsMap (refresh_auction_aggregates id r)
unfolding refresh_auction_aggregates
refresh-IsMap id r h = grind map_laws

finalize_entry-IsMap :
    (now : ℤ) (id : Text) (a : Auction) (r : Repository)
    → IsMap r
    → IsMap (finalize_entry now id a r)
unfolding finalize_entry
finalize_entry-IsMap now id a r h = grind (map_laws, refresh-IsMap)

finalize_entries-IsMap :
    (now : ℤ) (m : Dict Auction) (r : Repository) → IsMap r → IsMap (finalize_entries now m r)
unfolding finalize_entries
finalize_entries-IsMap now [] r h = h
finalize_entries-IsMap now ((id, a) ∷ m) r h =
    finalize_entries-IsMap now m (finalize_entry now id a r) (finalize_entry-IsMap now id a r h)

pub finalize_expired-IsMap : (now : ℤ) (r : Repository) → IsMap r → IsMap (finalize_expired now r)
unfolding finalize_expired
finalize_expired-IsMap now r h = finalize_entries-IsMap now r.auctions r h

store_bid-IsMap :
    (bid : Bid) (id : Text) (a : Auction) (r : Repository) → IsMap r → IsMap (store_bid bid id a r)
unfolding store_bid
store_bid-IsMap bid id a r h =
    refresh-IsMap id _ (record { unique = insert-HasUniqueKeys _ _ _ h.unique })

remove_bids-IsMap : (id user : Text) (r : Repository) → IsMap r → IsMap (remove_bids id r user).1
unfolding remove_bids
remove_bids-IsMap id user r h = grind (arith, refresh-IsMap)

min_required_of-IsMap :
    (id : Text) (a : Auction) (list : List Bid) (r : Repository)
    → IsMap r
    → IsMap (min_required_of id a list r).1
unfolding min_required_of
min_required_of-IsMap id a [] r h = h
min_required_of-IsMap id a (b ∷ bs) r h = grind map_laws

pub Step-IsMap : {r s : Repository} → Step r s → IsMap r → IsMap s
unfolding place_bid delete_bid min_required_bid create_auction extend_auction bump_auction
    set_featured delete_auction update_auction put_auction approve_moderation reject_moderation
Step-IsMap {r = r} (Step.finalize t) h = finalize_expired-IsMap t r h
Step-IsMap {r = r} (Step.create now input) h = grind map_laws
Step-IsMap {r = r} (Step.bid t now id input) h =
    grind (arith, finalize_expired-IsMap t r h, store_bid-IsMap)
Step-IsMap {r = r} (Step.unbid id user) h = grind (arith, remove_bids-IsMap)
Step-IsMap {r = r} (Step.require t id) h =
    grind (arith, finalize_expired-IsMap t r h, min_required_of-IsMap)
Step-IsMap {r = r} (Step.extend now id owner hours) h = grind map_laws
Step-IsMap {r = r} (Step.bump now id owner) h = grind map_laws
Step-IsMap {r = r} (Step.feature now id owner) h = grind map_laws
Step-IsMap {r = r} (Step.delete id owner) h = grind map_laws
Step-IsMap {r = r} (Step.update id input) h = grind map_laws
Step-IsMap {r = r} (Step.approve now id) h = grind map_laws
Step-IsMap {r = r} (Step.reject id reason) h = grind map_laws

-- In every reachable state the map of auctions lists each key once.
pub Reach-IsMap : {days : ℤ} {r : Repository} → Reach days r → IsMap r
unfolding new_repository
Reach-IsMap Reach.start = record { unique = tt }
Reach-IsMap (Reach.next reached step) = Step-IsMap step (Reach-IsMap reached)
