-- ===== src/Tests/Users.antt =====
-- The theorems on users, profiles, chats and uploads at work on a table of two users.
use auction_server.Prelude.{
  ℕ, ◌≡◌, ◌⊎◌, refl, true, false, List, [], ◌∷◌, none, All, ◌==◌, map, keep, arith,
}
use auction_server.Prelude.Int.{pos}
use auction_server.Prelude.Text.{
  Text, text, text_eq, text_gt, format_int, digits_from, is_space, trim_left, trim_right, trim,
  trim_space,
}
use auction_server.Prelude.Strings.{to_lower}
use auction_server.Domain.{Auction, approved}
use auction_server.Postgres.{UserRow, any_row}
use auction_server.Users.{UserTables, or_zero}
use auction_server.Users.Graph.{
  SocialCall, follows, blocks, unblocks, accounts, graph_of, replay, run,
}
use auction_server.Users.Refinement.{run_refines_graph}
use auction_server.Server.Chat.{ChatStore, ChatMessage, SendChatInput}
use auction_server.Server.{Request, method_get, method_post}
use auction_server.Server.Profile.{viewer_of}
use auction_server.Server.Social.{handle_user_social_path, profile_page}
use auction_server.Server.ProfilePrivacy.{
  HidesPhone, shown_posts, handle_user_social_path-HidesPhone, profile_page-posts,
}
use auction_server.Server.Uploads.{
  Upload, handle_upload, upload_by_method, upload_file, stored_ext, store_file, file_name, ext,
  has_dot_after, has_slash_after, is_image_ext,
}
use auction_server.Server.UploadNames.{handle_upload-HasNoSlash}
use auction_server.Memory.Instance.{memory_store}
use auction_server.Prelude.Sort.{sort, insert_sorted}
use auction_server.Dashboard.{
  admin_user_row, after_one, by_registration, found_users, like, like_part, like_parts,
  list_for_admin, matches, matches_number, on_suffix, search_pattern,
}
use auction_server.Dashboard.Search.{has_words, pages, search_pages_find}
use auction_server.Tests.{config, contested}
use auction_server.Tests.Postgres.{market}

abbrev user_named : Text → UserRow
user_named name = record {
  id = name;
  username = [];
  password = [];
  display_name = name;
  phone = text "5";
  subscription_plan = [];
  subscription_buy_at_ms = none;
  subscription_expire_at_ms = none;
  created_at_ms = pos 1;
  gender = [];
  account_type = [];
  receive_calls = false;
  city = [];
  avatar_key = [];
  bio = [];
  verified = false;
  user_number = none;
}

abbrev two_users : UserTables
two_users = record {
  db = record market { users = user_named (text "u") ∷ user_named (text "v") ∷ [] };
  follows = [];
  blocks = [];
  next_user_number = pos 1;
}

abbrev quarrel : List SocialCall
quarrel =
    follows (pos 1) (text "u") (text "v")
    ∷ blocks (pos 2) (text "v") (text "u")
    ∷ unblocks (text "v") (text "u")
    ∷ []

run_refines_graph_example :
    graph_of (run quarrel two_users) ≡ replay (accounts two_users) quarrel (graph_of two_users)
unfolding any_row
run_refines_graph_example =
    run_refines_graph quarrel two_users (record { followers = λ x y h. cc; blockers = λ x y h. cc })

abbrev log : ChatStore
log = record {
  State = List ChatMessage;
  list_messages = λ auction viewer peer limit s. s;
  insert_message = λ auction input s. (none, s);
}

abbrev taunt : SendChatInput
taunt = record {
  sender_id = text "u";
  peer_id = text "v";
  sender_name = [];
  body = text "hi";
  attachment_url = [];
}

abbrev request : Text → Request
request path = record {
  method = method_get;
  path = path;
  query = λ name. [];
  header = λ name. [];
  create_body = none;
  update_body = none;
  bid_body = none;
  reason_body = [];
}

handle_user_social_path-HidesPhone_example :
    HidesPhone
      (handle_user_social_path memory_store
        (pos 5)
        (pos 6)
        (request (text "/v1/users/u"))
        two_users
        contested).0
handle_user_social_path-HidesPhone_example =
    handle_user_social_path-HidesPhone memory_store (pos 5) (pos 6) (request (text "/v1/users/u"))
      two_users contested

abbrev with_owner : UserTables
with_owner = record two_users { db = record market { users = user_named (text "o") ∷ [] } }

profile_page-posts_example :
    All
      (λ (a : Auction). (a.moderation_status ≡ approved) ⊎ (viewer_of (request []) ≡ text "o"))
      (shown_posts
        (profile_page memory_store (pos 5) (pos 6) (request []) (text "o") with_owner contested).0)
profile_page-posts_example =
    profile_page-posts memory_store (pos 5) (pos 6) (request []) (text "o") with_owner contested

abbrev photo : Upload
photo = record {
  filename = text "../../a.PNG";
  content_type = [];
  random = text "0f";
  host = [];
  has_tls = false;
}

abbrev as_is : ℕ → ℕ
as_is c = 0

handle_upload-HasNoSlash_example :
    All (λ (c : ℕ). c == b'/' ≡ false) (file_name (pos 7) (text "0f") (text ".png"))
unfolding handle_upload upload_by_method upload_file stored_ext store_file ext has_dot_after
    has_slash_after to_lower is_image_ext text_eq
handle_upload-HasNoSlash_example =
    handle_upload-HasNoSlash as_is config [] (pos 7) true
      (record (request []) { method = method_post }) photo
      {name = file_name (pos 7) (text "0f") (text ".png")} (λ c. refl) (refl, (refl, tt)) refl

abbrev same_text : Text → Text
same_text s = s

search_pages_find_example :
    pages same_text as_is text_gt (text "u") two_users.db 1 2 0
    ≡ map (admin_user_row two_users.db) (
        sort
          (by_registration same_text as_is text_gt)
          (keep (has_words same_text (text "u")) two_users.db.users))
unfolding list_for_admin found_users by_registration search_pattern matches matches_number like
    like_parts like_part on_suffix after_one or_zero to_lower text_eq format_int digits_from
    is_space trim_left trim_right trim trim_space sort insert_sorted text_gt
search_pages_find_example =
    search_pages_find same_text as_is text_gt (text "u") two_users.db 1 2 refl
      (record { no_run = refl; no_one = refl; no_quote = refl }, tt) (omega arith) (omega arith)
      (omega arith)
