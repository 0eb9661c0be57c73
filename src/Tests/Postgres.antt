-- ===== src/Tests/Postgres.antt =====
-- The theorems on the PostgreSQL store at work on a database of two auctions.
use auction_server.Prelude.{◌≡◌, ◌⊎◌, refl, Bool, true, false, List, [], ◌∷◌, none, some, arith}
use mathlib.Core.Option
use auction_server.Prelude.Int.{pos}
use auction_server.Prelude.Text.{
  text, text_eq, text_gt, text_gt_asym, text_gt_trans, text_gt_total, is_space, trim_left,
  trim_right, trim, trim_space,
}
use auction_server.Prelude.Sort.{sort}
use auction_server.Domain.{AuctionFeedFilter, active, approved}
use auction_server.Memory
use auction_server.Store.{Exceeds}
use auction_server.Server.Chat.{ChatMessage, SendChatInput}
use auction_server.Postgres.{
  AuctionRow, AuctionRepository, BidRow, Database, auction_row, bid_rows, has_id, select_row,
}
use auction_server.Postgres.Scan.{scan_auction, scan_auction_row, scan_counted, top_summaries}
use auction_server.Postgres.Bidding.{
  Statement, set_cooldown, accepts_bids, bid_row, bidder_of, delete_bid, min_required_bid,
  place_bid, write_bid,
}
use auction_server.Postgres.BidLists.{last_bid_at_ms}
use auction_server.Postgres.BidTable.{
  BidCall, place, remove, ask, bid_map, replay, run, run_refines,
}
use auction_server.Postgres.Placing.{
  is_open, last_bid_at_ms-place_then_delete, no_fault, place_bid_all_or_nothing,
}
use auction_server.Postgres.Cursor.{make_cursor, parse_feed_cursor, sort_ms}
use auction_server.Postgres.CursorText.{parse_feed_cursor-make_cursor}
use auction_server.Postgres.Pages.{by_key, feed_rows, feed_status, has_bid_of, list_auctions_page}
use auction_server.Postgres.Feed.{is_public}
use auction_server.Postgres.Keyset.{IsTextOrder}
use auction_server.Postgres.Walk.{walk}
use auction_server.Postgres.FeedWalk.{feed_walk}
use auction_server.Postgres.Pricing.{bids_of, min_required_bid-AboveBids}
use auction_server.Postgres.Moderation.{approve}
use auction_server.Postgres.Agreement.{approve_agrees}
use auction_server.Postgres.Chat.{
  ChatTables, insert_message, is_between, is_listed, is_on_auction, list_messages,
}
use auction_server.Postgres.Conversation.{conversation, full_conversation_stays}
use auction_server.Tests.{offer}

abbrev car : AuctionRow
car = record {
  id = text "1";
  owner_id = text "o";
  title = text "t";
  description = [];
  image_urls = [];
  status = active;
  created_at_ms = pos 1000;
  expires_at_ms = pos 3601000;
  ended_at_ms = none;
  min_bid_step = pos 0;
  base_price = pos 100;
  bumped_at_ms = pos 1000;
  view_count = 0;
  is_featured = false;
  moderation_status = approved;
  moderation_reason = [];
  moderated_at_ms = none;
  duration_hours = pos 1;
}

abbrev bike : AuctionRow
bike = record car { id = text "2"; bumped_at_ms = pos 0; created_at_ms = pos 2000 }

abbrev earlier : BidRow
earlier = record {
  auction_id = text "1";
  user_id = text "v";
  user_name = text "V";
  phone = text "6";
  price = pos 150;
  created_at_ms = pos 1500;
}

abbrev pub market : Database
market = record {
  auctions = car ∷ bike ∷ [];
  bids = earlier ∷ [];
  bid_cooldowns = [];
  users = [];
  next_auction = pos 3;
}

abbrev tries : List BidCall
tries =
    ask (text "1")
    ∷ place (pos 2000) (text "1") offer
    ∷ place (pos 2100) (text "9") offer
    ∷ remove (text "1") (text "v")
    ∷ []

run_refines_example :
    bid_map (run tries market) ≡ replay (λ t j. is_open t j market) tries (bid_map market)
run_refines_example = run_refines tries market

-- The last statement before the commit fails.
abbrev cooldown_fails : Statement → Bool
cooldown_fails set_cooldown = true
cooldown_fails _ = false

place_bid_all_or_nothing_example :
    (place_bid cooldown_fails (pos 2000) (text "1") offer market ≡ (none, market))
    ⊎ (place_bid cooldown_fails (pos 2000) (text "1") offer market
        ≡ place_bid no_fault (pos 2000) (text "1") offer market)
place_bid_all_or_nothing_example =
    place_bid_all_or_nothing cooldown_fails (pos 2000) (text "1") offer market

last_bid_at_ms-place_then_delete_example :
    last_bid_at_ms
      (text "1")
      (text "u")
      (delete_bid (text "1") (text "u") (place_bid no_fault (pos 2000) (text "1") offer market).1).1
    ≡ some (pos 2000)
unfolding place_bid write_bid accepts_bids bid_row bidder_of auction_row has_id select_row text_eq
    is_space trim_left trim_right trim trim_space bid_rows
last_bid_at_ms-place_then_delete_example =
    last_bid_at_ms-place_then_delete no_fault (pos 2000) (text "1") offer market refl (omega arith)
      refl refl refl (text "1") (text "u")

parse_feed_cursor-make_cursor_example :
    parse_feed_cursor (make_cursor sort_ms (scan_auction market car)) ≡ some (pos 1000, text "1")
unfolding sort_ms scan_auction scan_counted scan_auction_row top_summaries is_space trim_left
    trim_right trim trim_space
parse_feed_cursor-make_cursor_example =
    parse_feed_cursor-make_cursor sort_ms (scan_auction market car) refl (omega arith) (omega arith)
      refl refl

min_required_bid-AboveBids_example :
    Exceeds
      (bids_of (text "1") (min_required_bid (text "1") market).1)
      (min_required_bid (text "1") market).0
unfolding bid_rows auction_row has_id select_row text_eq
min_required_bid-AboveBids_example = min_required_bid-AboveBids (text "1") market (record {
  prices = (omega arith, tt);
  step = λ a found. let same : car ≡ a = cc in rw (← same) (omega arith);
})

abbrev keeping : AuctionRepository
keeping = record { feed_visible_hours = pos 72; delete_days_after_expiry = pos 1 }

approve_agrees_example :
    Option.map scan_auction_row (approve (pos 9000000) car)
    ≡ some (Memory.Moderation.approve (pos 9000000) (scan_auction_row car))
approve_agrees_example = approve_agrees car 9000000 1 (record {
  created = 1000;
  created_at = refl;
  expires_at = refl;
  positive = omega arith;
  small = omega arith;
  fits = omega arith;
  not_ended = refl;
})

text_gt-IsTextOrder : IsTextOrder text_gt
text_gt-IsTextOrder = record {
  text_asym = text_gt_asym;
  text_trans = text_gt_trans;
  text_total = text_gt_total;
}

abbrev newest : AuctionFeedFilter
newest = record { status = active; sort = []; limit = pos 1; cursor = []; bidder_user_id = [] }

feed_walk_example :
    walk (λ c. list_auctions_page text_gt (pos 2000) (record newest { cursor = c }) market) 3 []
    ≡ sort (by_key text_gt sort_ms) (feed_rows (pos 2000) newest market)
unfolding feed_rows feed_status is_public has_bid_of scan_auction scan_counted scan_auction_row
    top_summaries sort_ms text_eq is_space trim_left trim_right trim trim_space
feed_walk_example =
    feed_walk text_gt text_gt-IsTextOrder (pos 2000) market newest 3 refl ((refl, tt), (tt, tt))
      (
        record {
          cursor = record {
            key_positive = omega arith;
            key_in_range = omega arith;
            id_not_empty = refl;
            id_trimmed = refl;
          };
          bumped = omega arith;
        },
        (
          record {
            cursor = record {
              key_positive = omega arith;
              key_in_range = omega arith;
              id_not_empty = refl;
              id_trimmed = refl;
            };
            bumped = omega arith;
          },
          tt,
        ),
      )
      (omega arith)

abbrev first_line : ChatMessage
first_line = record {
  id = pos 1;
  auction_id = text "1";
  sender_id = text "u";
  peer_id = text "v";
  sender_name = [];
  body = text "hi";
  attachment_url = [];
  created_at_ms = pos 1000;
}

abbrev chat : ChatTables
chat = record {
  db = market;
  messages = record { message = first_line; auction_owner_id = text "o" } ∷ [];
  reports = [];
  next_message = pos 2;
}

abbrev reply : SendChatInput
reply = record {
  sender_id = text "v";
  peer_id = text "u";
  sender_name = [];
  body = text "yes";
  attachment_url = [];
}

-- A client that asks for one message sees the first one still.
full_conversation_stays_example :
    list_messages
      (text "1")
      (text "u")
      (text "v")
      1
      (insert_message (pos 2000) (text "1") reply chat).1
    ≡ list_messages (text "1") (text "u") (text "v") 1 chat
unfolding conversation is_listed is_between is_on_auction text_eq is_space trim_left trim_right trim
    trim_space
full_conversation_stays_example =
    full_conversation_stays (pos 2000) (text "1") (text "u") (text "v") reply 1 chat (omega arith)
      (omega arith) (omega arith, tt)
