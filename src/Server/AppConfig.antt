-- ===== src/Server/AppConfig.antt =====
-- The endpoints of the application's configuration (internal/http/app_config.go, and
-- `handleRealtimeConfig` of internal/http/server.go). The settings provider is the file store, or
-- `none` for a nil provider; whether the file could be written is an argument.
use auction_server.Prelude.{Bool, List, [], ◌++◌, Option, none, some, is_nil, if◌then◌else◌}
use auction_server.Prelude.Int.{ℤ, pos, ltb_ℤ, leb_ℤ}
use auction_server.Prelude.Text.{Text, text, trim_space}
use auction_server.Prelude.Strings.{trim_suffix}
use auction_server.Effects.{Effect, invalidate_feed_cache}
use auction_server.Settings.{
  Config, Settings, Store, defaults_from_config, resolved, apply, effective_base_url,
}
use auction_server.Server.{
  Request, Response, respond, method_get, method_put, write_error, method_not_allowed,
  settings_to_public, ws_of_base, public_settings, admin_settings,
}
use auction_server.Server.Admin.{admin_cors, require_admin}

-- `strings.TrimSuffix(strings.TrimSpace(s.cfg.PublicBaseURL), "/")`
unfoldable pub default_base_url : Config → Text
default_base_url cfg = trim_suffix (trim_space cfg.public_base_url) (text "/")

-- `effectivePublicBaseURL`
unfoldable pub effective_public_base_url : Config → Option Store → Text
effective_public_base_url cfg none = default_base_url cfg
effective_public_base_url cfg (some st) = effective_base_url cfg.public_base_url st

-- `resolvedSettings`
unfoldable pub server_settings : Config → Option Store → Settings
server_settings cfg none = defaults_from_config cfg
server_settings cfg (some st) = resolved st.current cfg

-- `handleAppConfig`
unfoldable pub handle_app_config : Config → Request → Option Store → Response
handle_app_config cfg req st = elim req.method [
  | method_get ↦ respond 200 (
      public_settings
        (settings_to_public (server_settings cfg st) (effective_public_base_url cfg st)))
  | _ ↦ method_not_allowed
]

-- The payload of `handleRealtimeConfig`.
pub record RealtimeConfig : Type 0 where
  pub top_bids_push_interval_seconds : Text
  pub feed_refresh_interval_seconds : Text
  pub ws_base_url : Text

unfoldable pub handle_realtime_config : Config → Option Store → RealtimeConfig
handle_realtime_config cfg st =
    let base = effective_public_base_url cfg st in
    record {
      top_bids_push_interval_seconds = cfg.top_bids_push_interval_seconds;
      feed_refresh_interval_seconds = cfg.feed_refresh_interval_seconds;
      ws_base_url = if is_nil base then [] else ws_of_base base ++ text "/v1/ws/auctions/";
    }

-- The body of a change of the settings: `none` is a nil pointer.
pub record SettingsBody : Type 0 where
  pub new_post_enabled : Option Bool
  pub messages_enabled : Option Bool
  pub public_base_url : Text
  pub bid_cooldown_seconds : Option ℤ
  pub post_duration_hours : Option ℤ
  pub last_moment_hours : Option ℤ
  pub extend_duration_hours : Option ℤ
  pub top_bids_poll_interval_seconds : Option ℤ
  pub chat_poll_interval_seconds : Option ℤ
  pub feed_page_size : Option ℤ
  pub offline_message : Option Text

-- `if body.V != nil { cur.V = *body.V }`
abbrev pub if_given {ℓ} : {A : Type ℓ} → Option A → A → A
if_given none old = old
if_given (some v) old = v

-- The same with `*body.V > 0`.
abbrev pub if_given_positive : Option ℤ → ℤ → ℤ
if_given_positive none old = old
if_given_positive (some v) old = if ltb_ℤ (pos 0) v then v else old

-- The same with `*body.V >= 0`.
abbrev pub if_given_natural : Option ℤ → ℤ → ℤ
if_given_natural none old = old
if_given_natural (some v) old = if leb_ℤ (pos 0) v then v else old

abbrev pub if_given_trimmed : Option Text → Text → Text
if_given_trimmed none old = old
if_given_trimmed (some v) old = trim_space v

-- The changes that the handler makes to the settings in force.
unfoldable pub changed : SettingsBody → Settings → Settings
changed body cur = record {
  new_post_enabled = if_given body.new_post_enabled cur.new_post_enabled;
  messages_enabled = if_given body.messages_enabled cur.messages_enabled;
  public_base_url =
      if is_nil body.public_base_url
      then cur.public_base_url
      else trim_suffix (trim_space body.public_base_url) (text "/");
  bid_cooldown_seconds = if_given_natural body.bid_cooldown_seconds cur.bid_cooldown_seconds;
  post_duration_hours = if_given_positive body.post_duration_hours cur.post_duration_hours;
  last_moment_hours = if_given_positive body.last_moment_hours cur.last_moment_hours;
  extend_duration_hours = if_given_positive body.extend_duration_hours cur.extend_duration_hours;
  top_bids_poll_interval_seconds =
      if_given_positive body.top_bids_poll_interval_seconds cur.top_bids_poll_interval_seconds;
  chat_poll_interval_seconds =
      if_given_positive body.chat_poll_interval_seconds cur.chat_poll_interval_seconds;
  feed_page_size = if_given_positive body.feed_page_size cur.feed_page_size;
  offline_message = if_given_trimmed body.offline_message cur.offline_message;
}

module _ (cfg : Config) (redis : Bool) (body : Option SettingsBody) (written : Bool) where
  unfoldable pub get_settings : Store → Response
  get_settings st =
      let base = default_base_url cfg in
      respond 200 (
        admin_settings
          (settings_to_public (server_settings cfg (some st))
            (effective_public_base_url cfg (some st)))
          (settings_to_public (defaults_from_config cfg) base))

  unfoldable pub put_settings : Store → Response × Option Store × List Effect
  put_settings st = elim body [
    | none ↦ (write_error 400 "invalid body", some st, [])
    | some b ↦
        let (saved, ok, st') = apply written (changed b (server_settings cfg (some st))) st in
        if ok
        then (
          respond 200 (
              public_settings (
                settings_to_public (resolved saved cfg)
                  (effective_public_base_url cfg (some st')))),
          some st',
          invalidate_feed_cache redis,
        )
        else (write_error 500 "could not save settings", some st', [])
  ]

  unfoldable pub settings_by_method : Request → Store → Response × Option Store × List Effect
  settings_by_method req st = elim req.method [
    | method_get ↦ (get_settings st, some st, [])
    | method_put ↦ put_settings st
    | _ ↦ (method_not_allowed, some st, [])
  ]

  -- `handleAdminAppSettings`
  unfoldable pub handle_admin_app_settings :
      Request → Option Store → Response × Option Store × List Effect
  handle_admin_app_settings req st = elim (admin_cors req) [
    | some response ↦ (response, st, [])
    | none ↦ elim (require_admin cfg req) [
      | some response ↦ (response, st, [])
      | none ↦ elim st [
        | none ↦ (write_error 503 "settings not available", none, [])
        | some file ↦ settings_by_method req file
      ]
    ]
  ]
