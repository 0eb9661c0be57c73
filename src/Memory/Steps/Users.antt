-- ===== src/Memory/Steps/Users.antt =====
-- Two facts about every list of bids: user ids are trimmed, and a user with an id has one bid.
use auction_server.Prelude.{
  ◌≡◌, refl, false, ◌||◌, List, [], ◌∷◌, ◌++◌, Option, none, some, arith, is_nil, keep, All,
  Option-cases, inl, inr,
}
use auction_server.Prelude.Int.{ℤ}
use auction_server.Prelude.Text.{Text, text_eq, text_eq_iff, trim_space}
use auction_server.Domain.{Bid}
use auction_server.Memory.{Repository, bids_of}
use auction_server.Memory.Bidding.{replace_bid, merge_bid, is_not_by, has_bid_by}
use auction_server.Memory.Steps.{Reach}
use auction_server.Memory.Steps.Bidders.{Reach-EveryList}

-- No list of bids holds a user id with spaces round it.
abbrev pub HasTrimmedUsers : List Bid → Type 0
HasTrimmedUsers = All (λ b. trim_space b.user_id ≡ b.user_id)

append-HasTrimmedUsers :
    (bid : Bid) (list : List Bid)
    → trim_space bid.user_id ≡ bid.user_id
    → HasTrimmedUsers list
    → HasTrimmedUsers (list ++ bid ∷ [])
append-HasTrimmedUsers bid [] trimmed h = (trimmed, tt)
append-HasTrimmedUsers bid (b ∷ bs) trimmed h = (h.0, append-HasTrimmedUsers bid bs trimmed h.1)

abbrev OnSome : (List Bid → Type 0) → Option (List Bid) → Type 0
OnSome P none = Unit
OnSome P (some list) = P list

replace_bid-HasTrimmedUsers :
    (bid : Bid) (user : Text) (list : List Bid)
    → trim_space bid.user_id ≡ bid.user_id
    → HasTrimmedUsers list
    → OnSome HasTrimmedUsers (replace_bid user bid list)
unfolding replace_bid
replace_bid-HasTrimmedUsers bid user [] trimmed h = tt
replace_bid-HasTrimmedUsers bid user (b ∷ bs) trimmed h =
    elim (Option-cases (replace_bid user bid bs)) [
      | inl none_left ↦ ground arith
      | inr (new, e) ↦
          let ih = replace_bid-HasTrimmedUsers bid user bs trimmed h.1 in
          let ih' : HasTrimmedUsers new = rw e at ih in ground arith
    ]

merge_bid-HasTrimmedUsers :
    (bid : Bid) (list : List Bid)
    → trim_space bid.user_id ≡ bid.user_id
    → HasTrimmedUsers list
    → HasTrimmedUsers (merge_bid bid list)
unfolding merge_bid
merge_bid-HasTrimmedUsers bid list trimmed h =
    elim (Option-cases (replace_bid bid.user_id bid list)) [
      | inl added ↦ rw (added, merge_bid) (append-HasTrimmedUsers bid list trimmed h)
      | inr (new, replaced) ↦
          rw (replaced, merge_bid)
            (rw replaced at (replace_bid-HasTrimmedUsers bid bid.user_id list trimmed h))
    ]

keep-HasTrimmedUsers :
    (user : Text) (list : List Bid)
    → HasTrimmedUsers list
    → HasTrimmedUsers (keep (is_not_by user) list)
keep-HasTrimmedUsers user [] h = tt
keep-HasTrimmedUsers user (b ∷ bs) h = ground (arith, keep-HasTrimmedUsers user bs)

-- A user with an id has at most one bid in a list.
abbrev pub HasOneBidPerUser : List Bid → Type 0
HasOneBidPerUser [] = Unit
HasOneBidPerUser (b ∷ bs) =
    (is_nil b.user_id ≡ false → has_bid_by b.user_id bs ≡ false) × HasOneBidPerUser bs

has_bid_by-keep :
    (user other : Text) (list : List Bid)
    → has_bid_by user list ≡ false
    → has_bid_by user (keep (is_not_by other) list) ≡ false
unfolding has_bid_by is_not_by
has_bid_by-keep user other [] h = refl
has_bid_by-keep user other (b ∷ bs) h = ground (arith, has_bid_by-keep user other bs)

keep-HasOneBidPerUser :
    (user : Text) (list : List Bid)
    → HasOneBidPerUser list
    → HasOneBidPerUser (keep (is_not_by user) list)
unfolding is_not_by
keep-HasOneBidPerUser user [] h = tt
keep-HasOneBidPerUser user (b ∷ bs) h =
    ground (arith, keep-HasOneBidPerUser user bs, has_bid_by-keep b.user_id user bs)

-- Replacing a user's bid leaves the users of the list as they were.
replace_bid-users :
    (x : Text) (bid : Bid) (list : List Bid)
    → OnSome (λ new. has_bid_by x new ≡ has_bid_by x list) (replace_bid bid.user_id bid list)
unfolding replace_bid has_bid_by
replace_bid-users x bid [] = tt
replace_bid-users x bid (b ∷ bs) = elim (Option-cases (replace_bid bid.user_id bid bs)) [
  | inl none_left ↦ ground (arith, text_eq_iff b.user_id bid.user_id)
  | inr (new, e) ↦
      let ih = replace_bid-users x bid bs in
      let ih' : has_bid_by x new ≡ has_bid_by x bs = rw e at ih in
      ground (arith, text_eq_iff b.user_id bid.user_id)
]

replace_bid-none :
    (bid : Bid) (list : List Bid)
    → replace_bid bid.user_id bid list ≡ none
    → is_nil bid.user_id ≡ false
    → has_bid_by bid.user_id list ≡ false
unfolding replace_bid has_bid_by
replace_bid-none bid [] e h = refl
replace_bid-none bid (b ∷ bs) e h = ground (arith, replace_bid-none bid bs)

has_bid_by-append :
    (x : Text) (bid : Bid) (list : List Bid)
    → has_bid_by x (list ++ bid ∷ []) ≡ (has_bid_by x list || text_eq bid.user_id x)
unfolding has_bid_by
has_bid_by-append x bid [] = ground arith
has_bid_by-append x bid (b ∷ bs) = ground (arith, has_bid_by-append x bid bs)

append-HasOneBidPerUser :
    (bid : Bid) (list : List Bid)
    → (is_nil bid.user_id ≡ false → has_bid_by bid.user_id list ≡ false)
    → HasOneBidPerUser list
    → HasOneBidPerUser (list ++ bid ∷ [])
unfolding has_bid_by
append-HasOneBidPerUser bid [] new h = ground arith
append-HasOneBidPerUser bid (b ∷ bs) new h = ground (
  arith,
  append-HasOneBidPerUser bid bs,
  has_bid_by-append b.user_id bid bs,
  text_eq_iff bid.user_id b.user_id,
  text_eq_iff b.user_id bid.user_id,
)

replace_bid-HasOneBidPerUser :
    (bid : Bid) (list : List Bid)
    → HasOneBidPerUser list
    → OnSome HasOneBidPerUser (replace_bid bid.user_id bid list)
unfolding replace_bid
replace_bid-HasOneBidPerUser bid [] h = tt
replace_bid-HasOneBidPerUser bid (b ∷ bs) h = elim (Option-cases (replace_bid bid.user_id bid bs)) [
  | inl none_left ↦ ground (arith, text_eq_iff b.user_id bid.user_id)
  | inr (new, e) ↦
      let ih : HasOneBidPerUser new = rw e at (replace_bid-HasOneBidPerUser bid bs h.1) in
      let same : has_bid_by b.user_id new ≡ has_bid_by b.user_id bs =
        rw e at (replace_bid-users b.user_id bid bs) in
      ground (arith, text_eq_iff b.user_id bid.user_id)
]

merge_bid-HasOneBidPerUser :
    (bid : Bid) (list : List Bid) → HasOneBidPerUser list → HasOneBidPerUser (merge_bid bid list)
unfolding merge_bid
merge_bid-HasOneBidPerUser bid list h = elim (Option-cases (replace_bid bid.user_id bid list)) [
  | inl added ↦
      rw (added, merge_bid) (append-HasOneBidPerUser bid list (replace_bid-none bid list added) h)
  | inr (new, replaced) ↦
      rw (replaced, merge_bid) (rw replaced at (replace_bid-HasOneBidPerUser bid list h))
]

-- In every reachable state the user ids of the bids on an auction have no spaces round them.
pub Reach-HasTrimmedUsers :
    {days : ℤ} {r : Repository} (id : Text) → Reach days r → HasTrimmedUsers (bids_of id r)
Reach-HasTrimmedUsers id reached =
    (Reach-EveryList HasTrimmedUsers tt merge_bid-HasTrimmedUsers keep-HasTrimmedUsers
        reached).holds
      id

-- In every reachable state a user with an id that is not empty has at most one bid on an auction.
pub Reach-HasOneBidPerUser :
    {days : ℤ} {r : Repository} (id : Text) → Reach days r → HasOneBidPerUser (bids_of id r)
Reach-HasOneBidPerUser id reached =
    (Reach-EveryList HasOneBidPerUser tt (λ bid list trimmed. merge_bid-HasOneBidPerUser bid list)
        keep-HasOneBidPerUser reached).holds
      id
