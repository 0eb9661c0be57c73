-- ===== src/Settings.antt =====
-- The settings of the mobile application (internal/appsettings/store.go, internal/config/config.go):
-- the stored values, the defaults from the server's configuration, and the file store.
pub mod Effective
pub mod Environment
use auction_server.Prelude.{
  Bool, true, false, ◌&&◌, not, List, [], ◌∷◌, Option, none, some, is_nil, if◌then◌else◌,
}
use auction_server.Prelude.Int.{ℤ, pos, ltb_ℤ, leb_ℤ}
use auction_server.Prelude.Text.{Text, text, trim_space, is_blank}
use auction_server.Prelude.Strings.{trim_suffix}

-- `Config`
pub record Config : Type 0 where
  pub port : Text
  pub top_bids_push_interval_seconds : Text
  pub feed_refresh_interval_seconds : Text
  pub feed_visible_hours : ℤ
  pub my_auctions_delete_days_after_expiry : ℤ
  pub bid_cooldown_seconds : ℤ
  pub postgres_dsn : Text
  pub redis_addr : Text
  pub kafka_brokers : Text
  pub admin_api_key : Text
  pub public_base_url : Text
  pub upload_dir : Text

pub record Settings : Type 0 where
  pub new_post_enabled : Bool
  pub messages_enabled : Bool
  pub public_base_url : Text
  pub bid_cooldown_seconds : ℤ
  pub post_duration_hours : ℤ
  pub last_moment_hours : ℤ
  pub extend_duration_hours : ℤ
  pub top_bids_poll_interval_seconds : ℤ
  pub chat_poll_interval_seconds : ℤ
  pub feed_page_size : ℤ
  pub offline_message : Text

-- The default message by its code points (Persian for "check your internet access").
unfoldable pub default_offline_message : Text
default_offline_message =
    0x62f ∷ 0x633 ∷ 0x62a ∷ 0x631 ∷ 0x633 ∷ 0x6cc ∷ 0x20 ∷ 0x62e ∷ 0x648 ∷ 0x62f ∷ 0x20 ∷ 0x631
    ∷ 0x627 ∷ 0x20 ∷ 0x628 ∷ 0x647 ∷ 0x20 ∷ 0x627 ∷ 0x6cc ∷ 0x646 ∷ 0x62a ∷ 0x631 ∷ 0x646 ∷ 0x62a
    ∷ 0x20 ∷ 0x628 ∷ 0x631 ∷ 0x631 ∷ 0x633 ∷ 0x6cc ∷ 0x20 ∷ 0x6a9 ∷ 0x646 ∷ 0x6cc ∷ 0x62f ∷ []

-- `DefaultsFromConfig`
unfoldable pub defaults_from_config : Config → Settings
defaults_from_config cfg = record {
  new_post_enabled = true;
  messages_enabled = true;
  public_base_url = trim_space cfg.public_base_url;
  bid_cooldown_seconds = cfg.bid_cooldown_seconds;
  post_duration_hours = pos 72;
  last_moment_hours = pos 3;
  extend_duration_hours = pos 72;
  top_bids_poll_interval_seconds = pos 30;
  chat_poll_interval_seconds = pos 30;
  feed_page_size = pos 30;
  offline_message = default_offline_message;
}

-- `if v <= 0 { v = default }`
abbrev pub or_default : ℤ → ℤ → ℤ
or_default v default = if leb_ℤ v (pos 0) then default else v

-- `Resolved`
unfoldable pub resolved : Settings → Config → Settings
resolved st cfg =
    let def = defaults_from_config cfg in
    record st {
      bid_cooldown_seconds = or_default st.bid_cooldown_seconds def.bid_cooldown_seconds;
      post_duration_hours = or_default st.post_duration_hours def.post_duration_hours;
      last_moment_hours = or_default st.last_moment_hours def.last_moment_hours;
      extend_duration_hours = or_default st.extend_duration_hours def.extend_duration_hours;
      top_bids_poll_interval_seconds =
          or_default st.top_bids_poll_interval_seconds def.top_bids_poll_interval_seconds;
      chat_poll_interval_seconds =
          or_default st.chat_poll_interval_seconds def.chat_poll_interval_seconds;
      feed_page_size = or_default st.feed_page_size def.feed_page_size;
      offline_message =
          if is_blank st.offline_message then def.offline_message else st.offline_message;
    }

-- `if patch.V > 0 { out.V = patch.V }`
abbrev pub if_positive : ℤ → ℤ → ℤ
if_positive patch old = if ltb_ℤ (pos 0) patch then patch else old

-- `if strings.TrimSpace(patch.V) != "" { out.V = strings.TrimSpace(patch.V) }`
abbrev pub if_not_blank : Text → Text → Text
if_not_blank patch old = if is_blank patch then old else trim_space patch

-- `mergeSettings`
unfoldable pub merge_settings : Settings → Settings → Settings
merge_settings base patch = record {
  new_post_enabled = patch.new_post_enabled;
  messages_enabled = patch.messages_enabled;
  public_base_url = if_not_blank patch.public_base_url base.public_base_url;
  bid_cooldown_seconds = if_positive patch.bid_cooldown_seconds base.bid_cooldown_seconds;
  post_duration_hours = if_positive patch.post_duration_hours base.post_duration_hours;
  last_moment_hours = if_positive patch.last_moment_hours base.last_moment_hours;
  extend_duration_hours = if_positive patch.extend_duration_hours base.extend_duration_hours;
  top_bids_poll_interval_seconds =
      if_positive patch.top_bids_poll_interval_seconds base.top_bids_poll_interval_seconds;
  chat_poll_interval_seconds =
      if_positive patch.chat_poll_interval_seconds base.chat_poll_interval_seconds;
  feed_page_size = if_positive patch.feed_page_size base.feed_page_size;
  offline_message = if_not_blank patch.offline_message base.offline_message;
}

-- `Store`; the file holds what the last successful write put there.
pub record Store : Type 0 where
  pub path : Text
  pub current : Settings

-- `load`: `none` is a file that cannot be read or decoded.
unfoldable pub load : Option Settings → Store → Store
load none s = s
load (some loaded) s = record s { current = merge_settings s.current loaded }

-- `NewStore`
unfoldable pub new_store : Text → Settings → Option Settings → Store
new_store path defaults file = load file (record { path = path; current = defaults })

-- `Apply`: the memory is written first, and whether the file could be written is an argument.
unfoldable pub apply : Bool → Settings → Store → Settings × Bool × Store
apply written patch s = (patch, written, record s { current = patch })

-- `EffectiveBaseURL`
unfoldable pub effective_base_url : Text → Store → Text
effective_base_url fallback s =
    let u = trim_space s.current.public_base_url in
    if is_nil u then trim_suffix (trim_space fallback) (text "/") else trim_suffix u (text "/")
