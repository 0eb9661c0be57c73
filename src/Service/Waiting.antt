-- ===== src/Service/Waiting.antt =====
-- The cooldown between a user's bids: the refusal that announces a wait, the answer of
-- `BidCooldown`, and the store's record of the last bid agree.
use auction_server.Prelude.{
  ℕ, ◌+◌, ◌-◌, ◌*◌, ◌/◌, ◌^◌, ◌<◌, ◌≡◌, refl, ◌≢◌, ◌↔◌, ◌∙◌, sym, inl, inr, Bool, true, false, ◌&&◌,
  Option, none, some, arith, Bool-cases, if◌then◌else◌, ltb,
}
use auction_server.Prelude.Int.{
  ℤ, pos, pos_part, ◌≤ℤ◌, ◌<ℤ◌, leb_ℤ, add, sub, quot, add_pos, sub_pos, quot_pos,
}
use auction_server.Prelude.Text.{Text, is_blank, trim_space}
use auction_server.Domain.{Bid, PlaceBidInput}
use auction_server.Store.{AuctionStore}
use auction_server.Memory.{Repository}
use auction_server.Memory.Instance.{memory_store}
use auction_server.Memory.Steps.{Reach}
use auction_server.Memory.Steps.LastBid.{last_bid_at_ms-untrimmed}
use auction_server.Service.{
  Environment, BidTimes, accepted, refused, cooling_down, bid_cooldown_ms, complete_input,
  seconds_left, check_auction, check_price, cooldown_after,
}
use auction_server.Service.Methods.{
  announce_bid, store_bid, require_price, require_auction, require_cooldown, place_bid,
  bid_cooldown,
}

-- `place_bid` refuses for the cooldown exactly when `seconds_left` says so.
module _ (store : AuctionStore) (env : Environment) (times : BidTimes) (id : Text)
    (input : PlaceBidInput) (s : store.State) where
  abbrev left : Option ℤ
  left =
      seconds_left times.start (bid_cooldown_ms env)
        (store.last_bid_at_ms id (complete_input input).user_id s)

  pub refused_of_left :
      (n : ℤ)
      → is_blank input.user_name ≡ false
      → pos 1 ≤ℤ input.price
      → left ≡ some n
      → (place_bid store env times id input s).0 ≡ refused (cooling_down n)
  unfolding place_bid require_cooldown
  refused_of_left n named positive h = ground arith

  -- No later test gives that refusal.
  later_refusals :
      (n : ℤ)
      → (require_auction store env times id (complete_input input) s).0 ≢ refused (cooling_down n)
  unfolding require_auction require_price store_bid announce_bid check_auction check_price
  later_refusals n h = ground arith

  pub left_of_refused :
      (n : ℤ) → (place_bid store env times id input s).0 ≡ refused (cooling_down n) → left ≡ some n
  unfolding place_bid require_cooldown
  left_of_refused n h = ground (arith, later_refusals n)

-- `BidCooldown` forbids a bid exactly when `seconds_left` announces a wait.
cooldown_after_agrees :
    (now cd : ℤ) (last : Option ℤ)
    → pos 0 <ℤ cd
    → ((cooldown_after now cd last).can_bid ≡ false)
      ↔ ((n : ℤ) × (seconds_left now cd last ≡ some n))
unfolding cooldown_after seconds_left
cooldown_after_agrees now cd none positive = (λ h. absurd (no h), λ h. cc (h.1))
  where
    no : (cooldown_after now cd none).can_bid ≡ false → ⊥
    no h = cc
cooldown_after_agrees now cd (some at) positive =
    (λ h. (quot (add (sub (add at cd) now) (pos 999)) 1000, ground arith), λ h. ground (arith, h.1))

no_cooldown :
    (now cd : ℤ) (last : Option ℤ)
    → cd ≤ℤ pos 0
    → ((cooldown_after now cd none).can_bid ≡ true) × (seconds_left now cd last ≡ none)
unfolding cooldown_after seconds_left
no_cooldown now cd none h = (refl, refl)
no_cooldown now cd (some at) h = (refl, ground arith)

named_user :
    (input : PlaceBidInput)
    → is_blank input.user_name ≡ false
    → is_blank (complete_input input).user_id ≡ false
unfolding complete_input
named_user input named = ground arith

-- `BidCooldown` against `PlaceBid`.
module _ (store : AuctionStore) (env : Environment) (times : BidTimes) (id : Text)
    (input : PlaceBidInput) (s : store.State) where
  -- The endpoint that tells a user when to bid again and the check in `place_bid` agree: at one
  -- reading of the clock, `bid_cooldown` forbids a bid exactly when `place_bid` refuses one for
  -- the cooldown, for a bid with a name and a positive price on an auction id that is not blank.
  pub bid_cooldown_agrees :
      is_blank input.user_name ≡ false
      → pos 1 ≤ℤ input.price
      → is_blank id ≡ false
      → ((bid_cooldown store env times.start id (complete_input input).user_id s).can_bid ≡ false)
        ↔ ((n : ℤ) × ((place_bid store env times id input s).0 ≡ refused (cooling_down n)))
  unfolding bid_cooldown
  bid_cooldown_agrees named positive has_id =
      let user = (complete_input input).user_id in
      let last = store.last_bid_at_ms id user s in
      let cd = bid_cooldown_ms env in
      elim (Bool-cases (leb_ℤ cd (pos 0))) [
        | inl free ↦
            let (can, none_left) = no_cooldown times.start cd last (ground arith) in
            (
              λ h. absurd (contradiction can (ground (arith, named_user input named))),
              λ h. absurd (clash none_left (left_of_refused store env times id input s h.0 h.1)),
            )
        | inr timed ↦
            rw (has_id, named_user input named, timed)
              (let (forward, back) = cooldown_after_agrees times.start cd last (ground arith) in
                (
                  λ h.
                      let (n, waits) = forward h in
                      (n, refused_of_left store env times id input s n named positive waits),
                  λ h. back (h.0, left_of_refused store env times id input s h.0 h.1),
                ))
      ]
    where
      contradiction : {b : Bool} → b ≡ true → b ≡ false → ⊥
      contradiction p q = cc

      clash : {o : Option ℤ} {n : ℤ} → o ≡ none → o ≡ some n → ⊥
      clash p q = cc

-- A second bid after an accepted one.
module _ (store : AuctionStore) (env : Environment) (times later : BidTimes) (id : Text)
    (input again : PlaceBidInput) (s : store.State) where
  abbrev pub after : store.State
  after = (place_bid store env times id input s).1

  accepted-after :
      (b : Bid)
      → (place_bid store env times id input s).0 ≡ accepted b
      → (r : store.State) × ((store.place_bid times.pass times.place id (complete_input input) r).0
          ≡ some b)
        × (after
            ≡ (store.top_bids times.top id 5
                (store.place_bid times.pass times.place id (complete_input input) r).1).1)
  unfolding place_bid require_cooldown require_auction require_price store_bid announce_bid
  accepted-after b h = (
    (store.min_required_bid times.require id (store.get_auction_by_id times.get id s).1).1,
    ground arith,
    ground arith,
  )

  -- After a bid is accepted under a user id without spaces round it, another bid of that user on
  -- the auction is refused for the cooldown, whatever its price, if it is made before the cooldown
  -- after the first bid has passed. The auction id is a key of the store (in memory, one that is
  -- not blank), both names are not blank, the second price and the cooldown are positive, and the
  -- clock shows a positive time.
  pub second_bid_waits :
      (b : Bid)
      → (place_bid store env times id input s).0 ≡ accepted b
      → pos 0 <ℤ times.place
      → store.IsKey id
      → is_blank input.user_name ≡ false
      → trim_space (complete_input input).user_id ≡ (complete_input input).user_id
      → (complete_input again).user_id ≡ (complete_input input).user_id
      → is_blank again.user_name ≡ false
      → pos 1 ≤ℤ again.price
      → pos 0 <ℤ bid_cooldown_ms env
      → later.start <ℤ add times.place (bid_cooldown_ms env)
      → (n : ℤ) × ((place_bid store env later id again after).0 ≡ refused (cooling_down n))
  unfolding seconds_left
  second_bid_waits b h clock has_id named trimmed same named' positive timed soon =
      let (r, placed, state) = accepted-after b h in
      let last =
        store.last_bid_after_place times.pass times.place times.top id (complete_input input) 5 r b
          clock has_id (named_user input named) placed in
      let known : store.last_bid_at_ms id (complete_input again).user_id after ≡ some times.place =
        cc in
      let n = quot (add (sub (add times.place (bid_cooldown_ms env)) later.start) (pos 999)) 1000 in
      (
        n,
        refused_of_left store env later id again after n named' positive (rw known (ground arith)),
      )

-- With the in-memory store, no bid under a user id with spaces round it is refused for the
-- cooldown, in any reachable state: the time of a bid is kept under the trimmed id and looked up
-- under the id as given.
pub padded_user_never_waits :
    (env : Environment) (times : BidTimes) (id : Text) (input : PlaceBidInput) {days : ℤ}
    {r : Repository} (n : ℤ)
    → Reach days r
    → trim_space (complete_input input).user_id ≢ (complete_input input).user_id
    → (place_bid memory_store env times id input r).0 ≢ refused (cooling_down n)
unfolding seconds_left
padded_user_never_waits env times id input {r = r} n reached padded h = ground (
  arith,
  left_of_refused memory_store env times id input r n h,
  last_bid_at_ms-untrimmed id (complete_input input).user_id reached padded,
)

-- The announced wait in plain arithmetic, where nothing wraps.
seconds_left_small :
    (now at cd : ℕ)
    → at < 2 ^ 61
    → cd < 2 ^ 61
    → seconds_left (pos now) (pos cd) (some (pos at)) ≡ (
        if ltb 0 cd && (ltb 0 at && ltb now (at + cd))
        then some (pos ((at + cd - now + 999) / 1000))
        else none)
unfolding seconds_left
seconds_left_small now at cd small_at small_cd =
    rw (add_pos at cd (omega arith)) (elim (Bool-cases (ltb now (at + cd))) [
      | inl waits ↦
          let h : now < at + cd = ground arith in
          rw (sub_pos (at + cd) now (omega arith) (omega arith))
            (rw (add_pos (at + cd - now) 999 (omega arith)) (rw quot_pos (ground arith)))
      | inr over ↦ ground arith
    ])

-- The wait that a refusal announces is a number of whole seconds after which the cooldown is over,
-- and it ends less than a second after the cooldown, if the time of the last bid and the cooldown
-- are below 2 ^ 61 ms.
pub announced_wait_is_exact :
    (now at cd : ℕ) {n : ℤ}
    → at < 2 ^ 61
    → cd < 2 ^ 61
    → seconds_left (pos now) (pos cd) (some (pos at)) ≡ some n
    → (seconds_left (pos (now + pos_part n * 1000)) (pos cd) (some (pos at)) ≡ none)
      × (now + pos_part n * 1000 < at + cd + 1000)
      × (n ≡ pos (pos_part n))
announced_wait_is_exact now at cd {n = n} small_at small_cd h =
    let first = sym (seconds_left_small now at cd small_at small_cd) ∙ h in
    let later = seconds_left_small (now + pos_part n * 1000) at cd small_at small_cd in
    (later ∙ ground arith, ground arith, ground arith)
