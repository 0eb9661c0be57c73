-- ===== src/Service/Bidding.antt =====
-- What an answer of `AuctionService.PlaceBid` tells about the auction, the price and the cooldown.
use mathlib.Core.Path.{subst}
use auction_server.Prelude.{◌≡◌, refl, ◌⊎◌, false, List, [], ◌∷◌, Option, none, some, arith}
use auction_server.Prelude.Int.{ℤ, pos, ◌≤ℤ◌, ◌<ℤ◌}
use auction_server.Prelude.Text.{Text, is_blank}
use auction_server.Domain.{Auction, Bid, PlaceBidInput, active, approved}
use auction_server.Store.{AuctionStore, Exceeds, IsBelow}
use auction_server.Service.{
  Environment, Refusal, BidReply, BidTimes, accepted, refused, bid_cooldown_ms, complete_input,
  seconds_left, check_auction, check_price,
}
use auction_server.Service.Methods.{
  announce_bid, store_bid, require_price, require_auction, require_cooldown, place_bid,
}

-- An auction that takes bids at a time.
pub record TakesBids (now : ℤ) (a : Auction) : Type 0 where
  pub is_approved : a.moderation_status ≡ approved
  pub is_active : a.status ≡ active
  pub in_time : (a.expires_at_ms ≤ℤ pos 0) ⊎ (now <ℤ a.expires_at_ms)

pub check_auction-TakesBids :
    (now : ℤ) (a : Auction) → check_auction now (some a) ≡ none → TakesBids now a
unfolding check_auction
check_auction-TakesBids now a h = ground arith

check_auction_found :
    (now : ℤ) (o : Option Auction)
    → check_auction now o ≡ none
    → (a : Auction) × (o ≡ some a) × TakesBids now a
check_auction_found now none h = absurd (impossible h)
  where
    impossible : check_auction now none ≡ none → ⊥
    impossible e = unfold check_auction in cc
check_auction_found now (some a) h = (a, refl, check_auction-TakesBids now a h)

check_price_met :
    (price : ℤ) (o : Option ℤ) → check_price price o ≡ none → (m : ℤ) × (o ≡ some m) × (m ≤ℤ price)
unfolding check_price
check_price_met price none h = cc
check_price_met price (some m) h = (m, refl, ground arith)

IsBelow-mono : (m n : ℤ) (list : List Bid) → m ≤ℤ n → IsBelow m list → IsBelow n list
IsBelow-mono m n [] h k = tt
IsBelow-mono m n (b ∷ bs) h k = (omega arith, IsBelow-mono m n bs h k.1)

module _ (store : AuctionStore) (env : Environment) (times : BidTimes) (id : Text)
    (input : PlaceBidInput) (s : store.State) where
  -- The states in which the auction and the least price are looked up.
  abbrev pub priced_in : store.State
  priced_in = (store.get_auction_by_id times.get id s).1

  -- What has been checked when a bid is accepted.
  pub record IsAdmissible : Type 0 where
    pub has_name : is_blank input.user_name ≡ false
    pub is_positive : pos 1 ≤ℤ input.price
    pub has_cooled :
        seconds_left times.start
          (bid_cooldown_ms env)
          (store.last_bid_at_ms id (complete_input input).user_id s)
        ≡ none
    pub auction : Auction
    pub found : (store.get_auction_by_id times.get id s).0 ≡ some auction
    pub takes_bids : TakesBids times.start auction
    pub least : ℤ
    pub required : (store.min_required_bid times.require id priced_in).0 ≡ some least
    pub is_enough : least ≤ℤ input.price

  abbrev pub reply : BidReply
  reply = (place_bid store env times id input s).0

  -- An accepted bid has passed each test in turn.
  passed_fields :
      (b : Bid)
      → reply ≡ accepted b
      → (is_blank input.user_name ≡ false)
        × (pos 1 ≤ℤ input.price)
        × ((require_cooldown store env times id (complete_input input) s).0 ≡ accepted b)
  unfolding place_bid
  passed_fields b h = ground arith

  passed_cooldown :
      (b : Bid)
      → (require_cooldown store env times id (complete_input input) s).0 ≡ accepted b
      → (seconds_left times.start
            (bid_cooldown_ms env)
            (store.last_bid_at_ms id (complete_input input).user_id s)
          ≡ none)
        × ((require_auction store env times id (complete_input input) s).0 ≡ accepted b)
  unfolding require_cooldown
  passed_cooldown b h = ground arith

  passed_auction :
      (b : Bid)
      → (require_auction store env times id (complete_input input) s).0 ≡ accepted b
      → (check_auction times.start (store.get_auction_by_id times.get id s).0 ≡ none)
        × ((require_price store env times id (complete_input input) priced_in).0 ≡ accepted b)
  unfolding require_auction
  passed_auction b h = ground arith

  passed_price :
      (b : Bid)
      → (require_price store env times id (complete_input input) priced_in).0 ≡ accepted b
      → (check_price input.price (store.min_required_bid times.require id priced_in).0 ≡ none)
        × ((store_bid store env times id
              (complete_input input)
              (store.min_required_bid times.require id priced_in).1).0
            ≡ accepted b)
  unfolding require_price complete_input
  passed_price b h = ground arith

  -- A bid that the service accepts names its bidder and has a positive price; the cooldown of its
  -- user was over; the auction that was looked up is approved, active and not past its end when
  -- the call began; and the price reaches the least price that the store then required.
  pub accepted-IsAdmissible : (b : Bid) → reply ≡ accepted b → IsAdmissible
  accepted-IsAdmissible b h =
      let (named, positive, h₁) = passed_fields b h in
      let (cooled, h₂) = passed_cooldown b h₁ in
      let (checked, h₃) = passed_auction b h₂ in
      let (a, found, takes) =
        check_auction_found times.start (store.get_auction_by_id times.get id s).0 checked in
      let (m, required, enough) =
        check_price_met input.price (store.min_required_bid times.require id priced_in).0
          (passed_price b h₃).0 in
      record {
        has_name = named;
        is_positive = positive;
        has_cooled = cooled;
        auction = a;
        found = found;
        takes_bids = takes;
        least = m;
        required = required;
        is_enough = enough;
      }

  -- An accepted bid is dearer than every bid on the auction in the state in which the least price
  -- was computed, where the store has room for the auction before that (in the in-memory store: no
  -- key twice, and prices and step below 2 ^ 62).
  pub accepted_exceeds :
      (b : Bid)
      → store.HasRoom id priced_in
      → reply ≡ accepted b
      → IsBelow input.price (store.bids_of id (store.min_required_bid times.require id priced_in).1)
  accepted_exceeds b room h =
      let ok = accepted-IsAdmissible b h in
      let exceeds = store.min_required_exceeds times.require id priced_in room in
      IsBelow-mono ok.least input.price _ ok.is_enough (subst (Exceeds _) ok.required exceeds).1

  -- A bid that the service refuses makes no outward call, whatever the reason.
  pub refused_silent :
      (why : Refusal) → reply ≡ refused why → (place_bid store env times id input s).2 ≡ []
  unfolding place_bid require_cooldown require_auction require_price store_bid announce_bid
  refused_silent why h = ground arith
