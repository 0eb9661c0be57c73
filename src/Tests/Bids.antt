-- ===== src/Tests/Bids.antt =====
-- The theorems on bids at work on one auction.
use auction_server.Prelude.{◌≡◌, refl, ◌≢◌, ◌↔◌, ◌<◌, false, none, some, arith}
use auction_server.Prelude.Int.{ℤ, pos, add, sub, mul, quot}
use auction_server.Prelude.Text.{text, text_eq, is_space, trim_left, trim_right, trim, trim_space}
use auction_server.Prelude.Dict.{lookup, insert, erase}
use auction_server.Domain.{PlaceBidInput}
use auction_server.Settings.{defaults_from_config}
use auction_server.Store.{IsBelow, Exceeds}
use auction_server.Memory
use auction_server.Memory.{
  Repository, new_repository, finalize_expired, finalize_entries, finalize_entry, is_due, is_stale,
  expiry_delete_cutoff, bids_of, refresh_auction_aggregates,
}
use auction_server.Memory.Bidding.{
  new_bid, last_bid_at_ms, write_bid, active_auction, set_first_step, merge_bid, replace_bid,
  cooldowns_of, cooldown_entry, latest_by, get_auction_by_id, min_required_bid, min_required_of,
  top_price, round_bid_step,
}
use auction_server.Memory.Owner.{create_auction}
use auction_server.Memory.Moderation.{approve_moderation}
use auction_server.Memory.Pricing.{HasRoom, min_required_bid-Exceeds}
use auction_server.Memory.Steps.{Step, Reach}
use auction_server.Memory.Steps.Users.{HasOneBidPerUser, Reach-HasOneBidPerUser}
use auction_server.Memory.Steps.LastBid.{last_bid_at_ms-place_bid_then_top_bids}
use auction_server.Memory.Instance.{memory_store}
use auction_server.Service.{
  BidTimes, accepted, refused, cooling_down, complete_input, resolved_settings, bid_cooldown_ms,
  check_auction, check_price, seconds_left,
}
use auction_server.Service.Methods.{
  place_bid, bid_cooldown, require_cooldown, require_auction, require_price, store_bid,
  announce_bid,
}
use auction_server.Service.Bidding.{
  accepted-IsAdmissible, IsAdmissible, accepted_exceeds, priced_in,
}
use auction_server.Service.Waiting.{
  second_bid_waits, after, bid_cooldown_agrees, announced_wait_is_exact, padded_user_never_waits,
}
use auction_server.Tests.{environment, times_at, offer, contested, submission}

abbrev at_five : BidTimes
at_five = times_at (pos 5000)

-- An offer above the rival's bid is accepted.
offer_accepted :
    (place_bid memory_store environment at_five (text "1") offer contested).0
    ≡ accepted (new_bid (pos 5000) (text "1") offer)
unfolding place_bid require_cooldown require_auction require_price store_bid announce_bid
    check_auction check_price seconds_left complete_input bid_cooldown_ms resolved_settings
    defaults_from_config finalize_expired finalize_entries finalize_entry is_due is_stale
    expiry_delete_cutoff bids_of lookup insert erase text_eq refresh_auction_aggregates
    Memory.Bidding.place_bid Memory.Bidding.store_bid write_bid active_auction set_first_step
    merge_bid replace_bid cooldowns_of new_bid last_bid_at_ms cooldown_entry latest_by
    get_auction_by_id min_required_bid min_required_of top_price is_space trim_left trim_right trim
    trim_space add sub mul quot
offer_accepted = refl

accepted-IsAdmissible_example :
    IsAdmissible memory_store environment at_five (text "1") offer contested
accepted-IsAdmissible_example =
    accepted-IsAdmissible memory_store environment at_five (text "1") offer contested
      (new_bid (pos 5000) (text "1") offer) offer_accepted

contested_room :
    HasRoom (text "1") (priced_in memory_store environment at_five (text "1") offer contested)
unfolding get_auction_by_id finalize_expired finalize_entries finalize_entry is_due is_stale
    expiry_delete_cutoff bids_of lookup text_eq
contested_room = record {
  unique = (refl, tt);
  prices = (omega arith, tt);
  step = λ a found. ground arith;
}

accepted_exceeds_example : IsBelow (pos 200) (
    bids_of
      (text "1")
      (min_required_bid
        (pos 5000)
        (text "1")
        (priced_in memory_store environment at_five (text "1") offer contested)).1)
accepted_exceeds_example =
    accepted_exceeds memory_store environment at_five (text "1") offer contested
      (new_bid (pos 5000) (text "1") offer) contested_room offer_accepted

second_bid_waits_example :
    (n : ℤ) × ((place_bid memory_store environment
        (times_at (pos 6000))
        (text "1")
        (record offer { price = pos 300 })
        (after memory_store environment at_five
          (times_at (pos 6000))
          (text "1")
          offer
          (record offer { price = pos 300 })
          contested)).0
      ≡ refused (cooling_down n))
unfolding complete_input bid_cooldown_ms resolved_settings defaults_from_config is_space trim_left
    trim_right trim trim_space add mul
second_bid_waits_example =
    second_bid_waits memory_store environment at_five (times_at (pos 6000)) (text "1") offer
      (record offer { price = pos 300 }) contested (new_bid (pos 5000) (text "1") offer)
      offer_accepted (omega arith) refl refl refl refl refl (omega arith) (omega arith)
      (omega arith)

bid_cooldown_agrees_example :
    ((bid_cooldown memory_store environment (pos 5000) (text "1") (text "u") contested).can_bid
      ≡ false)
    ↔ ((n : ℤ) × ((place_bid memory_store environment at_five (text "1") offer contested).0
          ≡ refused (cooling_down n)))
unfolding complete_input is_space trim_left trim_right trim trim_space
bid_cooldown_agrees_example =
    bid_cooldown_agrees memory_store environment at_five (text "1") offer contested refl
      (omega arith) refl

announced_wait_is_exact_example :
    (seconds_left (pos 61000) (pos 60000) (some (pos 500)) ≡ none)
    × (61000 < 61500)
    × (pos 60 ≡ pos 60)
unfolding seconds_left add sub quot
announced_wait_is_exact_example =
    announced_wait_is_exact 1000 500 60000 {n = pos 60} (omega arith) (omega arith) refl

-- A user whose id has a space before it, after a bid.
abbrev padded : PlaceBidInput
padded = record offer { user_id = text " u" }

abbrev live : Repository
live =
    (approve_moderation (pos 2) (text "auction-1")
      (create_auction (pos 1) submission (new_repository (pos 0))).1).1

abbrev bidden : Repository
bidden = (Memory.Bidding.place_bid (pos 5000) (pos 5000) (text "auction-1") padded live).1

live_reached : Reach (pos 0) live
live_reached =
    Reach.next (Reach.next Reach.start (Step.create (pos 1) submission))
      (Step.approve (pos 2) (text "auction-1"))

bidden_reached : Reach (pos 0) bidden
bidden_reached = Reach.next live_reached (Step.bid (pos 5000) (pos 5000) (text "auction-1") padded)

padded_user_never_waits_example :
    (place_bid memory_store environment (times_at (pos 5001)) (text "auction-1") padded bidden).0
    ≢ refused (cooling_down (pos 60))
unfolding complete_input is_space trim_left trim_right trim trim_space
padded_user_never_waits_example =
    padded_user_never_waits environment (times_at (pos 5001)) (text "auction-1") padded (pos 60)
      bidden_reached (λ e. absurd cc)

Reach-HasOneBidPerUser_example : HasOneBidPerUser (bids_of (text "auction-1") bidden)
Reach-HasOneBidPerUser_example = Reach-HasOneBidPerUser (text "auction-1") bidden_reached

last_bid_at_ms-place_bid_then_top_bids_example :
    last_bid_at_ms
      (text "1")
      (text "u")
      (Memory.Bidding.top_bids
        (pos 6000)
        (text "1")
        5
        (Memory.Bidding.place_bid (pos 5000) (pos 5000) (text "1") padded contested).1).1
    ≡ some (pos 5000)
unfolding Memory.Bidding.place_bid finalize_expired finalize_entries finalize_entry is_due is_stale
    expiry_delete_cutoff active_auction lookup text_eq is_space trim_left trim_right trim trim_space
last_bid_at_ms-place_bid_then_top_bids_example =
    last_bid_at_ms-place_bid_then_top_bids (pos 5000) (pos 5000) (pos 6000) (text "1") padded 5
      contested (new_bid (pos 5000) (text "1") padded) (omega arith) refl refl refl

min_required_bid-Exceeds_example :
    Exceeds
      (bids_of
        (text "1")
        (min_required_bid
          (pos 5000)
          (text "1")
          (priced_in memory_store environment at_five (text "1") offer contested)).1)
      (min_required_bid
        (pos 5000)
        (text "1")
        (priced_in memory_store environment at_five (text "1") offer contested)).0
min_required_bid-Exceeds_example =
    min_required_bid-Exceeds (pos 5000) (text "1")
      (priced_in memory_store environment at_five (text "1") offer contested) contested_room
