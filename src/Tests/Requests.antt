-- ===== src/Tests/Requests.antt =====
-- The theorems on the settings and the HTTP handlers at work on concrete requests.
use auction_server.Prelude.{◌≡◌, refl, ◌⊎◌, true, false, [], ◌∷◌, none, some}
use auction_server.Prelude.Int.{pos}
use auction_server.Prelude.Text.{
  Text, text, text_eq, is_space, trim_left, trim_right, trim, trim_space,
}
use auction_server.Prelude.Strings.{split, trim_prefix, has_prefix}
use auction_server.Prelude.Dict.{lookup}
use auction_server.Prelude.Sort.{sort, insert_sorted}
use auction_server.Settings.{Settings, Store, defaults_from_config}
use auction_server.Memory.{
  finalize_expired, finalize_entries, finalize_entry, is_due, is_stale, expiry_delete_cutoff,
  bids_of,
}
use auction_server.Memory.Bidding.{get_auction_by_id, top_bids_locked}
use auction_server.Memory.Instance.{memory_store}
use auction_server.Service.Methods.{get_auction}
use auction_server.Service.Moderation.{ModerationEnvironment}
use auction_server.Server.{Method, Request, Server, Outside, method_get, method_post, method_put}
use auction_server.Server.Admin.{require_admin, key_of, handle_admin_moderation_auction}
use auction_server.Server.AdminKey.{HasAdminKey, handle_admin_moderation_auction-HasAdminKey}
use auction_server.Server.AppConfig.{SettingsBody, handle_app_config, handle_admin_app_settings}
use auction_server.Server.Auctions.{
  handle_auction_by_path, auction_by_parts, auction_action, only_get, get_one, show_auction,
}
use auction_server.Server.SettingsPut.{put_then_get}
use auction_server.Server.Visibility.{MaySee, handle_auction_by_path-MaySee}
use auction_server.Tests.{config, environment, times_at, open_auction, rival, contested}

-- A request with the key "k" in its header.
abbrev request : Method → Text → Request
request m path = record {
  method = m;
  path = path;
  query = λ name. [];
  header = λ name. text "k";
  create_body = none;
  update_body = none;
  bid_body = none;
  reason_body = [];
}

abbrev server : Server
server = record { env = environment; moderation = none }

abbrev outside : Outside
outside = record {
  bid_times = times_at (pos 5000);
  first = pos 5000;
  second = pos 5000;
  third = pos 5000;
  cached_bids = none;
  cached_page = none;
  pending_count = pos 0;
}

abbrev defaults : Settings
defaults = defaults_from_config config

abbrev file : Store
file = record { path = text "f"; current = defaults }

abbrev no_cooldown_body : SettingsBody
no_cooldown_body = record {
  new_post_enabled = none;
  messages_enabled = some false;
  public_base_url = [];
  bid_cooldown_seconds = some (pos 0);
  post_duration_hours = none;
  last_moment_hours = none;
  extend_duration_hours = none;
  top_bids_poll_interval_seconds = none;
  chat_poll_interval_seconds = none;
  feed_page_size = none;
  offline_message = none;
}

-- The key lets the requests pass.
admitted : require_admin config (request method_put []) ≡ none
unfolding require_admin key_of text_eq is_space trim_left trim_right trim trim_space
admitted = refl

put_then_get_example :
    handle_app_config config
      (request method_get [])
      (handle_admin_app_settings config false
        (some no_cooldown_body)
        true
        (request method_put [])
        (some file)).1
    ≡ (handle_admin_app_settings config false
        (some no_cooldown_body)
        true
        (request method_put [])
        (some file)).0
put_then_get_example =
    put_then_get config false no_cooldown_body file (request method_put []) (request method_get [])
      refl admitted refl

abbrev moderators : ModerationEnvironment
moderators = record { has_chat = false; has_hub = true; has_redis = false }

abbrev approval : Request
approval = request method_post (text "/v1/admin/moderation/auctions/1/approve")

handle_admin_moderation_auction-HasAdminKey_example :
    HasAdminKey config approval
    ⊎ (((handle_admin_moderation_auction memory_store server moderators outside approval
            contested).1
          ≡ contested)
        × ((handle_admin_moderation_auction memory_store server moderators outside approval
              contested).2
            ≡ []))
handle_admin_moderation_auction-HasAdminKey_example =
    handle_admin_moderation_auction-HasAdminKey memory_store server moderators outside approval
      contested

handle_auction_by_path-MaySee_example :
    MaySee [] (record open_auction { min_bid_step = pos 1; top_bids = rival ∷ [] })
unfolding handle_auction_by_path auction_by_parts auction_action only_get get_one show_auction
    get_auction get_auction_by_id top_bids_locked finalize_expired finalize_entries finalize_entry
    is_due is_stale expiry_delete_cutoff bids_of lookup text_eq split trim_prefix has_prefix
    is_space trim_left trim_right trim trim_space sort insert_sorted
handle_auction_by_path-MaySee_example =
    handle_auction_by_path-MaySee memory_store server outside
      (request method_get (text "/v1/auctions/1")) contested 200
      (record open_auction { min_bid_step = pos 1; top_bids = rival ∷ [] }) refl
