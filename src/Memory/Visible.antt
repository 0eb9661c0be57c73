-- ===== src/Memory/Visible.antt =====
-- What the public feed of the in-memory store shows (memory/auction_repository.go, `ListAuctions`).
use auction_server.Prelude.{
  ◌≡◌, Bool, true, List, [], ◌∷◌, some, arith, keep, All, inl, inr, ◌⊎◌, Bool-cases,
}
use auction_server.Prelude.Int.{ℤ, pos, ◌≤ℤ◌, ◌<ℤ◌}
use auction_server.Prelude.Text.{Text, text, text_eq, text_eq_iff, text_eq_self}
use auction_server.Prelude.Dict.{Dict, lookup, HasUniqueKeys}
use auction_server.Prelude.Sort.{sort-All}
use auction_server.Domain.{Auction, AuctionFeedFilter, active, approved}
use auction_server.Memory.{Repository, finalize_expired}
use auction_server.Memory.Expiry.{no_active_past_end}
use auction_server.Memory.Feed.{in_feed, values, feed_of, list_auctions, by_offers, by_recency}
use auction_server.Memory.Steps.Keys.{IsMap, finalize_expired-IsMap}

-- What `keep` keeps has passed the test.
keep-All :
    (p : Auction → Bool) (P Q : Auction → Type 0) (list : List Auction)
    → ((a : Auction) → p a ≡ true → Q a → P a)
    → All Q list
    → All P (keep p list)
keep-All p P Q [] test h = tt
keep-All p P Q (a ∷ rest) test h =
    let ih = keep-All p P Q rest test h.1 in
    elim (Bool-cases (p a)) [
      | inl kept ↦ rw kept (test a kept h.0, ih)
      | inr dropped ↦ rw dropped ih
    ]

-- A fact about what every key holds is a fact about every value.
values-All :
    (P : Auction → Type 0) (m : Dict Auction)
    → HasUniqueKeys m
    → ((k : Text) (a : Auction) → lookup k m ≡ some a → P a)
    → All P (values m)
unfolding values lookup
values-All P [] unique h = tt
values-All P ((k, a) ∷ m) unique h = (
  h k a (ground (arith, text_eq_self k)),
  values-All P m unique.1 (λ j b found. h j b (ground (arith, text_eq_iff k j))),
)

-- An auction that the public may see at a time.
pub record IsPublished (now : ℤ) (a : Auction) : Type 0 where
  pub is_approved : a.moderation_status ≡ approved
  pub is_active : a.status ≡ active
  pub in_time : (a.expires_at_ms ≤ℤ pos 0) ⊎ (now <ℤ a.expires_at_ms)

feed_of-All :
    (P Q : Auction → Type 0) (filter : AuctionFeedFilter) (r : Repository)
    → ((a : Auction) → in_feed filter.status a ≡ true → Q a → P a)
    → All Q (values r.auctions)
    → All P (feed_of filter r)
unfolding feed_of
feed_of-All P Q filter r test h =
    let kept = keep-All (in_feed filter.status) P Q (values r.auctions) test h in
    elim (Bool-cases (text_eq filter.sort (text "trending"))) [
      | inl trending ↦ rw (trending, feed_of) (sort-All by_offers P _ kept)
      | inr recent ↦ rw (recent, feed_of) (sort-All by_recency P _ kept)
    ]

in_feed_active :
    (a : Auction) → in_feed active a ≡ true → (a.moderation_status ≡ approved) × (a.status ≡ active)
unfolding in_feed
in_feed_active a h = ground arith

-- In a store whose map of auctions lists each key once, the list of active auctions holds only
-- auctions that are approved, active and not past their end at the time of the call.
pub list_auctions-IsPublished :
    (now : ℤ) (filter : AuctionFeedFilter) (r : Repository)
    → IsMap r
    → filter.status ≡ active
    → All (IsPublished now) (list_auctions now filter r).0
unfolding list_auctions
list_auctions-IsPublished now filter r h only_active =
    feed_of-All (IsPublished now) InTime filter (finalize_expired now r) published (
      values-All InTime (finalize_expired now r).auctions (finalize_expired-IsMap now r h).unique
        (λ k a found is_active. no_active_past_end now k r h.unique found is_active))
  where
    InTime : Auction → Type 0
    InTime a = a.status ≡ active → (a.expires_at_ms ≤ℤ pos 0) ⊎ (now <ℤ a.expires_at_ms)

    published : (a : Auction) → in_feed filter.status a ≡ true → InTime a → IsPublished now a
    published a shown in_time =
        let checked : (a.moderation_status ≡ approved) × (a.status ≡ active) =
          in_feed_active a (rw only_active at shown) in
        record { is_approved = checked.0; is_active = checked.1; in_time = in_time checked.1 }
