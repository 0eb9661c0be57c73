-- ===== src/Memory/Steps/Cooldown.antt =====
-- The map `bidCooldownAt`: what place_bid writes to it, that nothing else does, and what
-- `LastBidAtMs` reads from it.
use mathlib.Core.Path.{subst}
use auction_server.Prelude.{
  ◌≡◌, refl, ◌≢◌, List, [], ◌∷◌, some, arith, inl, inr, Bool-cases, Option-cases, if◌then◌else◌,
  ◌∙◌,
}
use auction_server.Prelude.Int.{ℤ}
use auction_server.Prelude.Text.{Text, text_eq, text_eq_iff, trim_space, trim_space_idem}
use auction_server.Prelude.Dict.{Dict, lookup, insert, lookup-insert}
use auction_server.Domain.{Auction, Bid, PlaceBidInput}
use auction_server.Memory.{
  Repository, new_repository, bids_of, finalize_expired, finalize_entries, finalize_entry,
  refresh_auction_aggregates,
}
use auction_server.Memory.Bidding.{
  place_bid, store_bid, new_bid, active_auction, delete_bid, remove_bids, min_required_bid,
  min_required_of, cooldowns_of, latest_by,
}
use auction_server.Memory.Owner.{
  create_auction, extend_auction, bump_auction, set_featured, delete_auction, update_auction,
  put_auction,
}
use auction_server.Memory.Moderation.{approve_moderation, reject_moderation}
use auction_server.Memory.Steps.{Step, Reach}
use auction_server.Memory.Steps.Users.{HasTrimmedUsers}

refresh-cooldown :
    (id : Text) (r : Repository)
    → (refresh_auction_aggregates id r).bid_cooldown_at ≡ r.bid_cooldown_at
unfolding refresh_auction_aggregates
refresh-cooldown id r = ground arith

finalize_entry-cooldown :
    (now : ℤ) (id : Text) (a : Auction) (r : Repository)
    → (finalize_entry now id a r).bid_cooldown_at ≡ r.bid_cooldown_at
unfolding finalize_entry refresh_auction_aggregates
finalize_entry-cooldown now id a r = ground arith

finalize_entries-cooldown :
    (now : ℤ) (m : Dict Auction) (r : Repository)
    → (finalize_entries now m r).bid_cooldown_at ≡ r.bid_cooldown_at
unfolding finalize_entries
finalize_entries-cooldown now [] r = refl
finalize_entries-cooldown now ((id, a) ∷ m) r = cc (
  finalize_entries-cooldown now m (finalize_entry now id a r),
  finalize_entry-cooldown now id a r,
)

pub finalize_expired-cooldown :
    (now : ℤ) (r : Repository) → (finalize_expired now r).bid_cooldown_at ≡ r.bid_cooldown_at
unfolding finalize_expired
finalize_expired-cooldown now r = finalize_entries-cooldown now r.auctions r

pub delete_bid-cooldown :
    (id user : Text) (r : Repository) → (delete_bid id user r).1.bid_cooldown_at ≡ r.bid_cooldown_at
unfolding delete_bid remove_bids refresh_auction_aggregates
delete_bid-cooldown id user r = ground arith

min_required_of-cooldown :
    (id : Text) (a : Auction) (list : List Bid) (r : Repository)
    → (min_required_of id a list r).1.bid_cooldown_at ≡ r.bid_cooldown_at
unfolding min_required_of
min_required_of-cooldown id a [] r = refl
min_required_of-cooldown id a (b ∷ bs) r = ground arith

-- The entries of the map belong to trimmed user ids.
pub record HasTrimmedCooldowns (r : Repository) : Type 0 where
  pub trimmed :
      (id user : Text) (at : ℤ) → lookup user (cooldowns_of id r) ≡ some at → trim_space user ≡ user

same_cooldown :
    (r s : Repository)
    → s.bid_cooldown_at ≡ r.bid_cooldown_at
    → HasTrimmedCooldowns r
    → HasTrimmedCooldowns s
unfolding cooldowns_of
same_cooldown r s e h = record { trimmed = λ id user at p. h.trimmed id user at (ground arith) }

store_bid-cooldown :
    (bid : Bid) (id : Text) (a : Auction) (r : Repository)
    → (store_bid bid id a r).bid_cooldown_at
      ≡ insert id (insert bid.user_id bid.created_at (cooldowns_of id r)) r.bid_cooldown_at
unfolding store_bid
store_bid-cooldown bid id a r = refresh-cooldown id _

-- A bid sets the entry of its user on its auction, and no other.
pub cooldowns_of-store_bid :
    (bid : Bid) (id j : Text) (a : Auction) (r : Repository)
    → cooldowns_of j (store_bid bid id a r) ≡ (
        if text_eq id j
        then insert bid.user_id bid.created_at (cooldowns_of id r)
        else cooldowns_of j r)
unfolding cooldowns_of
cooldowns_of-store_bid bid id j a r = ground (
  arith,
  store_bid-cooldown bid id a r,
  lookup-insert id j (insert bid.user_id bid.created_at (cooldowns_of id r)) r.bid_cooldown_at,
)

store_bid-HasTrimmedCooldowns :
    (bid : Bid) (id : Text) (a : Auction) (r : Repository)
    → trim_space bid.user_id ≡ bid.user_id
    → HasTrimmedCooldowns r
    → HasTrimmedCooldowns (store_bid bid id a r)
store_bid-HasTrimmedCooldowns bid id a r trimmed h = record {
  trimmed = λ j user at p. ground (
    arith,
    cooldowns_of-store_bid bid id j a r,
    lookup-insert bid.user_id user bid.created_at (cooldowns_of id r),
    text_eq_iff bid.user_id user,
    h.trimmed j user at,
    h.trimmed id user at,
  );
}

place_bid-HasTrimmedCooldowns :
    (t now : ℤ) (id : Text) (input : PlaceBidInput) (r : Repository)
    → HasTrimmedCooldowns r
    → HasTrimmedCooldowns (place_bid t now id input r).1
unfolding place_bid new_bid
place_bid-HasTrimmedCooldowns t now id input r h =
    let r' = finalize_expired t r in
    let h' : HasTrimmedCooldowns r' = same_cooldown r r' (finalize_expired-cooldown t r) h in
    elim (Option-cases (active_auction id r')) [
      | inl missing ↦ rw (missing, place_bid) h'
      | inr (a, found) ↦
          rw (found, place_bid)
            (store_bid-HasTrimmedCooldowns (new_bid now id input) id a r'
              (trim_space_idem input.user_id) h')
    ]

min_required_bid-cooldown :
    (t : ℤ) (id : Text) (r : Repository)
    → (min_required_bid t id r).1.bid_cooldown_at ≡ r.bid_cooldown_at
unfolding min_required_bid
min_required_bid-cooldown t id r =
    let r' = finalize_expired t r in
    elim (Option-cases (active_auction id r')) [
      | inl missing ↦ rw (missing, min_required_bid) (finalize_expired-cooldown t r)
      | inr (a, found) ↦
          rw (found, min_required_bid)
            (min_required_of-cooldown id a (bids_of id r') r' ∙ finalize_expired-cooldown t r)
    ]

Step-HasTrimmedCooldowns :
    {r s : Repository} → Step r s → HasTrimmedCooldowns r → HasTrimmedCooldowns s
unfolding create_auction extend_auction bump_auction set_featured delete_auction update_auction
    put_auction approve_moderation reject_moderation
Step-HasTrimmedCooldowns {r = r} (Step.finalize t) h =
    same_cooldown r _ (finalize_expired-cooldown t r) h
Step-HasTrimmedCooldowns {r = r} (Step.create now input) h = same_cooldown r _ refl h
Step-HasTrimmedCooldowns {r = r} (Step.bid t now id input) h =
    place_bid-HasTrimmedCooldowns t now id input r h
Step-HasTrimmedCooldowns {r = r} (Step.unbid id user) h =
    same_cooldown r _ (delete_bid-cooldown id user r) h
Step-HasTrimmedCooldowns {r = r} (Step.require t id) h =
    same_cooldown r _ (min_required_bid-cooldown t id r) h
Step-HasTrimmedCooldowns {r = r} (Step.extend now id owner hours) h =
    same_cooldown r (extend_auction now id owner hours r).1 (ground arith) h
Step-HasTrimmedCooldowns {r = r} (Step.bump now id owner) h =
    same_cooldown r (bump_auction now id owner r).1 (ground arith) h
Step-HasTrimmedCooldowns {r = r} (Step.feature now id owner) h =
    same_cooldown r (set_featured now id owner r).1 (ground arith) h
Step-HasTrimmedCooldowns {r = r} (Step.delete id owner) h =
    same_cooldown r (delete_auction id owner r).1 (ground arith) h
Step-HasTrimmedCooldowns {r = r} (Step.update id input) h =
    same_cooldown r (update_auction id input r).1 (ground arith) h
Step-HasTrimmedCooldowns {r = r} (Step.approve now id) h =
    same_cooldown r (approve_moderation now id r).1 (ground arith) h
Step-HasTrimmedCooldowns {r = r} (Step.reject id reason) h =
    same_cooldown r (reject_moderation id reason r).1 (ground arith) h

pub Reach-HasTrimmedCooldowns : {days : ℤ} {r : Repository} → Reach days r → HasTrimmedCooldowns r
unfolding new_repository cooldowns_of lookup
Reach-HasTrimmedCooldowns Reach.start = record { trimmed = λ id user at p. cc }
Reach-HasTrimmedCooldowns (Reach.next reached step) =
    Step-HasTrimmedCooldowns step (Reach-HasTrimmedCooldowns reached)

-- A user id with spaces round it is the id of no bid.
pub latest_by-untrimmed :
    (user : Text) (at : ℤ) (list : List Bid)
    → trim_space user ≢ user
    → HasTrimmedUsers list
    → latest_by user at list ≡ at
unfolding latest_by
latest_by-untrimmed user at [] padded h = refl
latest_by-untrimmed user at (b ∷ bs) padded h = elim (Bool-cases (text_eq b.user_id user)) [
  | inl same ↦
      absurd (padded (subst (λ x. trim_space x ≡ x) ((text_eq_iff b.user_id user).0 same) h.0))
  | inr other ↦ rw other (latest_by-untrimmed user at bs padded h.1)
]
