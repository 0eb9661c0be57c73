-- ===== src/Service/Moderation.antt =====
-- `ModerationService` (internal/service/moderation_service.go): the queue of submitted auctions and
-- the moderators' decisions, with the outward calls that follow them.
use auction_server.Prelude.{Bool, List, [], ◌∷◌, ◌++◌, Option, none, some, is_nil, if◌then◌else◌}
use auction_server.Prelude.Int.{ℤ, pos, ltb_ℤ}
use auction_server.Prelude.Text.{Text, text, trim_space}
use auction_server.Domain.{
  Auction, ModerationQueueFilter, ModerationQueuePage, support_auction_id, support_admin_id,
}
use auction_server.Effects.{
  Effect, hub_chat, chat_message, invalidate_feed_cache, enqueue_pending, dequeue_pending,
  publish_auction_submitted, publish_moderation_decided,
}
use auction_server.Store.{AuctionStore}

-- The fields of `ModerationService` beside the store: whether there are a chat repository, a hub
-- and a Redis client.
pub record ModerationEnvironment : Type 0 where
  pub has_chat : Bool
  pub has_hub : Bool
  pub has_redis : Bool

-- `OnAuctionSubmitted`, and `OnAuctionUpdated`, which calls it. The clock is read where the auction
-- has no creation time.
unfoldable pub on_auction_submitted : ModerationEnvironment → ℤ → ℤ → Auction → List Effect
on_auction_submitted env t t' a =
    enqueue_pending env.has_redis t a.id a.created_at_ms
    ++ publish_auction_submitted t' (record {
      auction_id = a.id;
      owner_id = a.owner_id;
      title = a.title;
      at_ms = a.created_at_ms;
    })
      ∷ []

-- The words of the message to the owner: "your auction was rejected", the quotation marks round
-- the title, by their code points.
unfoldable pub rejected_words : Text
rejected_words =
    0x62d ∷ 0x631 ∷ 0x627 ∷ 0x62c ∷ 0x20 ∷ 0x634 ∷ 0x645 ∷ 0x627 ∷ 0x20 ∷ 0x631 ∷ 0x62f ∷ 0x20
    ∷ 0x634 ∷ 0x62f ∷ []

unfoldable pub open_quote : Text
open_quote = 0x20 ∷ b'(' ∷ 0xab ∷ []

unfoldable pub close_quote : Text
close_quote = 0xbb ∷ b')' ∷ []

-- The body of the message to the owner.
unfoldable pub rejection_body : Text → Text → Text
rejection_body title reason =
    rejected_words
    ++ ((if is_nil title then [] else open_quote ++ (trim_space title ++ close_quote))
        ++ (if is_nil reason then [] else text ": " ++ reason))

unfoldable pub tell_owner : ModerationEnvironment → Auction → Text → List Effect
tell_owner env a reason =
    if env.has_chat
    then chat_message support_auction_id support_admin_id a.owner_id support_admin_id
        (rejection_body a.title reason)
      ∷ (if env.has_hub then hub_chat support_auction_id support_admin_id a.owner_id ∷ [] else [])
    else []

module _ (store : AuctionStore) where
  open store use {State}

  -- `ListQueue`; `count` is what `moderation.PendingCount` answers, -1 without Redis.
  unfoldable pub list_queue : ModerationQueueFilter → ℤ → State → Option ModerationQueuePage
  list_queue filter count s = elim (store.list_moderation_queue filter s) [
    | none ↦ none
    | some page ↦ some (if ltb_ℤ count (pos 0) then page else record page { pending_count = count })
  ]

  -- `Approve`
  unfoldable pub approve :
      ModerationEnvironment → ℤ → ℤ → Text → State → Option Auction × State × List Effect
  approve env now t id s =
      let (a, s') = store.approve_moderation now id s in
      elim a [
        | none ↦ (none, s', [])
        | some b ↦ (
          some b,
          s',
          dequeue_pending env.has_redis id
              ++ (invalidate_feed_cache env.has_redis
                  ++ publish_moderation_decided t (record {
                    auction_id = id;
                    owner_id = b.owner_id;
                    decision = text "APPROVED";
                    reason = [];
                    at_ms = b.created_at_ms;
                  })
                    ∷ []),
        )
      ]

  -- `Reject`
  unfoldable pub reject :
      ModerationEnvironment → ℤ → ℤ → Text → Text → State → Option Auction × State × List Effect
  reject env now t id reason s =
      let (a, s') = store.reject_moderation now id reason s in
      elim a [
        | none ↦ (none, s', [])
        | some b ↦
            let why = trim_space b.moderation_reason in
            (
              some b,
              s',
              dequeue_pending env.has_redis id
                  ++ (tell_owner env b why
                      ++ publish_moderation_decided t (record {
                        auction_id = id;
                        owner_id = b.owner_id;
                        decision = text "REJECTED";
                        reason = why;
                        at_ms = b.created_at_ms;
                      })
                        ∷ []),
            )
      ]
