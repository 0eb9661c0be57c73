-- ===== src/Server/AdminKey.antt =====
-- Without the admin key, the moderators' endpoints change nothing (internal/http/admin_moderation.go,
-- internal/http/app_config.go).
use auction_server.Prelude.{
  ◌≡◌, refl, ◌⊎◌, inl, inr, Bool, false, Option, none, arith, [], is_nil, Option-cases,
}
use auction_server.Prelude.Text.{text_eq_iff, trim_space}
use auction_server.Settings.{Config, Store}
use auction_server.Store.{AuctionStore}
use auction_server.Service.Moderation.{ModerationEnvironment}
use auction_server.Server.{Request, Server, Outside}
use auction_server.Server.Admin.{key_of, require_admin, admin_cors, handle_admin_moderation_auction}
use auction_server.Server.AppConfig.{SettingsBody, handle_admin_app_settings}

-- The request carries the configured key, and there is one.
pub record HasAdminKey (cfg : Config) (req : Request) : Type 0 where
  pub enabled : is_nil (trim_space cfg.admin_api_key) ≡ false
  pub same_key : key_of req ≡ trim_space cfg.admin_api_key

pub require_admin_passed :
    (cfg : Config) (req : Request) → require_admin cfg req ≡ none → HasAdminKey cfg req
unfolding require_admin
require_admin_passed cfg req h = record {
  enabled = ground arith;
  same_key = ground (arith, text_eq_iff (key_of req) (trim_space cfg.admin_api_key));
}

-- Either a request to decide on an auction carries the configured admin key, which is not blank,
-- or it leaves the store as it was and makes no outward call.
pub handle_admin_moderation_auction-HasAdminKey :
    (store : AuctionStore) (srv : Server) (env : ModerationEnvironment) (out : Outside)
    (req : Request) (s : store.State)
    → HasAdminKey srv.env.cfg req
      ⊎ (((handle_admin_moderation_auction store srv env out req s).1 ≡ s)
          × ((handle_admin_moderation_auction store srv env out req s).2 ≡ []))
unfolding handle_admin_moderation_auction
handle_admin_moderation_auction-HasAdminKey store srv env out req s =
    elim (Option-cases (require_admin srv.env.cfg req)) [
      | inl passed ↦ inl (require_admin_passed srv.env.cfg req passed)
      | inr (answer, stopped) ↦ inr (elim (Option-cases (admin_cors req)) [
        | inl simple ↦ rw (simple, stopped, handle_admin_moderation_auction) (refl, refl)
        | inr (cors, preflight) ↦ rw (preflight, handle_admin_moderation_auction) (refl, refl)
      ])
    ]

-- Either a request for the application's settings carries the configured admin key, which is not
-- blank, or it leaves the settings as they were and makes no outward call.
pub handle_admin_app_settings-HasAdminKey :
    (cfg : Config) (redis : Bool) (body : Option SettingsBody) (written : Bool) (req : Request)
    (st : Option Store)
    → HasAdminKey cfg req
      ⊎ (((handle_admin_app_settings cfg redis body written req st).1 ≡ st)
          × ((handle_admin_app_settings cfg redis body written req st).2 ≡ []))
unfolding handle_admin_app_settings
handle_admin_app_settings-HasAdminKey cfg redis body written req st =
    elim (Option-cases (require_admin cfg req)) [
      | inl passed ↦ inl (require_admin_passed cfg req passed)
      | inr (answer, stopped) ↦ inr (elim (Option-cases (admin_cors req)) [
        | inl simple ↦ rw (simple, stopped, handle_admin_app_settings) (refl, refl)
        | inr (cors, preflight) ↦ rw (preflight, handle_admin_app_settings) (refl, refl)
      ])
    ]
