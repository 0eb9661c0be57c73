-- ===== src/Server/SettingsPut.antt =====
-- What a change of the settings does to what clients are served (internal/http/app_config.go).
use auction_server.Prelude.{◌≡◌, Bool, true, none, some, arith}
use auction_server.Prelude.Int.{pos}
use auction_server.Settings.{Config, Store, defaults_from_config, resolved, apply}
use auction_server.Server.{Request, method_get, method_put}
use auction_server.Server.Admin.{admin_cors, require_admin}
use auction_server.Server.AppConfig.{
  SettingsBody, server_settings, handle_app_config, changed, put_settings, settings_by_method,
  handle_admin_app_settings,
}

module _ (cfg : Config) (redis : Bool) (b : SettingsBody) (file : Store) (req : Request) where
  admitted_put :
      (written : Bool)
      → req.method ≡ method_put
      → require_admin cfg req ≡ none
      → handle_admin_app_settings cfg redis (some b) written req (some file)
        ≡ put_settings cfg redis (some b) written file
  unfolding handle_admin_app_settings settings_by_method admin_cors
  admitted_put written put admitted = ground arith

  -- The answer to a change of the settings that is admitted and saved is the answer that the next
  -- reader of the configuration gets.
  pub put_then_get :
      (reader : Request)
      → req.method ≡ method_put
      → require_admin cfg req ≡ none
      → reader.method ≡ method_get
      → (handle_app_config cfg reader
          (handle_admin_app_settings cfg redis (some b) true req (some file)).1)
        ≡ (handle_admin_app_settings cfg redis (some b) true req (some file)).0
  unfolding put_settings apply handle_app_config server_settings
  put_then_get reader put admitted get = rw (admitted_put true put admitted) (ground arith)

  -- After an admitted change of the cooldown to zero, whether or not it could be saved, the
  -- cooldown in force is the one of the configuration.
  pub put_zero_cooldown :
      (written : Bool)
      → req.method ≡ method_put
      → require_admin cfg req ≡ none
      → b.bid_cooldown_seconds ≡ some (pos 0)
      → (server_settings cfg
          (handle_admin_app_settings cfg redis
            (some b)
            written
            req
            (some file)).1).bid_cooldown_seconds
        ≡ cfg.bid_cooldown_seconds
  unfolding put_settings apply server_settings changed resolved defaults_from_config
  put_zero_cooldown written put admitted zero =
      rw (admitted_put written put admitted) (ground arith)
