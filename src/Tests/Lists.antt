-- ===== src/Tests/Lists.antt =====
-- The theorems on the expiry pass, the lists and the moderation at work on one or two auctions.
use auction_server.Prelude.{◌≡◌, refl, ◌⊎◌, [], ◌∷◌, some, arith, All}
use auction_server.Prelude.Int.{pos, add}
use auction_server.Prelude.Text.{text, text_eq, format_int, digits_from}
use auction_server.Prelude.Dict.{lookup, insert}
use auction_server.Domain.{Auction, AuctionFeedFilter, active, approved, pending}
use auction_server.Memory.{Repository, new_repository, finalize_expired}
use auction_server.Memory.Owner.{create_auction, new_auction, auction_key}
use auction_server.Memory.Moderation.{approve, approve_moderation, pending_auction}
use auction_server.Memory.Feed.{sort_key_ms, cursor_of, is_at_cursor, list_auctions}
use auction_server.Memory.Expiry.{IsExpiredAt, finalize_expired-IsExpiredAt}
use auction_server.Memory.Walk.{walk, walk_all}
use auction_server.Memory.Visible.{IsPublished, list_auctions-IsPublished}
use auction_server.Memory.Steps.{Step, Reach}
use auction_server.Memory.Steps.Keys.{IsMap, Reach-IsMap}
use auction_server.Memory.Steps.Approvals.{Step-approved}
use auction_server.Memory.Steps.Statuses.{HasStatus}
use auction_server.Memory.Lifetime.{approve_moderation-create_auction}
use auction_server.Memory.Others.{OwnerCall, call_as, call_as_stranger}
use auction_server.Tests.{open_auction, contested, submission}

finalize_expired-IsExpiredAt_example :
    IsExpiredAt (pos 900000) (text "1") contested (finalize_expired (pos 900000) contested)
unfolding lookup
finalize_expired-IsExpiredAt_example =
    finalize_expired-IsExpiredAt (pos 900000) (text "1") contested (refl, tt)

abbrev later_auction : Auction
later_auction = record open_auction { id = text "2"; bumped_at_ms = pos 2 }

walk_all_example :
    walk sort_key_ms 3 (pos 1) [] (later_auction ∷ open_auction ∷ [])
    ≡ later_auction ∷ open_auction ∷ []
unfolding is_at_cursor cursor_of sort_key_ms format_int digits_from text_eq
walk_all_example =
    walk_all sort_key_ms 3 1 (later_auction ∷ open_auction ∷ []) (omega arith) (omega arith)
      ((refl, tt), (tt, tt)) (omega arith)

abbrev feed : AuctionFeedFilter
feed = record { status = active; sort = []; limit = pos 20; cursor = []; bidder_user_id = [] }

contested-IsMap : IsMap contested
unfolding lookup
contested-IsMap = record { unique = (refl, tt) }

list_auctions-IsPublished_example :
    All (IsPublished (pos 5000)) (list_auctions (pos 5000) feed contested).0
list_auctions-IsPublished_example =
    list_auctions-IsPublished (pos 5000) feed contested contested-IsMap refl

abbrev submitted : Repository
submitted = (create_auction (pos 1) submission (new_repository (pos 0))).1

abbrev published : Repository
published = (approve_moderation (pos 2) (text "auction-1") submitted).1

submitted_reached : Reach (pos 0) submitted
submitted_reached = Reach.next Reach.start (Step.create (pos 1) submission)

approved_now : HasStatus (text "auction-1") approved published
unfolding create_auction approve_moderation pending_auction new_repository lookup insert text_eq
    auction_key format_int digits_from approve new_auction add
approved_now = record {
  auction = approve (pos 2) (new_auction (pos 1) (text "auction-1") submission);
  found = refl;
  has_status = refl;
}

Step-approved_example :
    HasStatus (text "auction-1") approved submitted
    ⊎ ((text "auction-1" ≡ text "auction-1") × HasStatus (text "auction-1") pending submitted)
Step-approved_example =
    Step-approved (text "auction-1") (Step.approve (pos 2) (text "auction-1"))
      (Reach-IsMap submitted_reached) approved_now

call_as_stranger_example : call_as [] (text "1") OwnerCall.deleting contested ≡ contested
unfolding lookup text_eq
call_as_stranger_example =
    call_as_stranger [] (text "1") OwnerCall.deleting contested
      (record open_auction { min_bid_step = pos 1 }) refl (λ e. absurd cc)

approve_moderation-create_auction_example :
    (b : Auction) × ((approve_moderation
        (pos 50)
        (auction_key (pos 2))
        (create_auction (pos 10) submission contested).1).0
      ≡ some b)
    × (b.expires_at_ms ≡ pos 86400050)
    × (b.status ≡ active)
    × (b.moderation_status ≡ approved)
approve_moderation-create_auction_example =
    approve_moderation-create_auction 10 50 24 submission contested refl (omega arith) (omega arith)
      (omega arith)
