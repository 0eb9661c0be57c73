-- ===== src/Settings/Environment.antt =====
-- The configuration from the environment (internal/config/config.go). `getenv` is `os.Getenv`.
use auction_server.Prelude.{
  none, some, [], is_nil, if◌then◌else◌, inl, inr, Bool-cases, Option-cases, arith,
}
use auction_server.Prelude.Int.{ℤ, pos, leb_ℤ, ltb_ℤ, ◌≤ℤ◌}
use auction_server.Prelude.Text.{Text, text}
use auction_server.Postgres.Cursor.{parse_int}
use auction_server.Settings.{Config}

-- `env`
unfoldable pub env : Text → Text → Text
env value fallback = if is_nil value then fallback else value

-- `envInt`
unfoldable pub env_int : Text → ℤ → ℤ
env_int raw fallback =
    if is_nil raw
    then fallback
    else elim (parse_int raw) [ none ↦ fallback | some n ↦ if leb_ℤ n (pos 0) then fallback else n ]

-- `envIntAllowZero`
unfoldable pub env_int_allow_zero : Text → ℤ → ℤ
env_int_allow_zero raw fallback =
    if is_nil raw
    then fallback
    else elim (parse_int raw) [ none ↦ fallback | some n ↦ if ltb_ℤ n (pos 0) then fallback else n ]

-- `Load`
unfoldable pub load_config : (Text → Text) → Config
unfolding env env_int env_int_allow_zero
load_config getenv = record {
  port = env (getenv (text "APP_PORT")) (text "8080");
  top_bids_push_interval_seconds = env (getenv (text "TOP_BIDS_PUSH_INTERVAL_SECONDS")) (text "10");
  feed_refresh_interval_seconds = env (getenv (text "FEED_REFRESH_INTERVAL_SECONDS")) (text "30");
  feed_visible_hours = env_int (getenv (text "FEED_VISIBLE_HOURS")) (pos 72);
  my_auctions_delete_days_after_expiry =
      env_int_allow_zero (getenv (text "MY_AUCTIONS_DELETE_DAYS_AFTER_EXPIRY")) (pos 0);
  bid_cooldown_seconds = env_int_allow_zero (getenv (text "BID_COOLDOWN_SECONDS")) (pos 300);
  postgres_dsn = env (getenv (text "POSTGRES_DSN")) [];
  redis_addr = env (getenv (text "REDIS_ADDR")) [];
  kafka_brokers = env (getenv (text "KAFKA_BROKERS")) [];
  admin_api_key = env (getenv (text "ADMIN_API_KEY")) [];
  public_base_url = env (getenv (text "PUBLIC_BASE_URL")) [];
  upload_dir = env (getenv (text "UPLOAD_DIR")) (text "uploads");
}

env_int-positive : (raw : Text) (fallback : ℤ) → pos 1 ≤ℤ fallback → pos 1 ≤ℤ env_int raw fallback
unfolding env_int
env_int-positive raw fallback h = elim (Bool-cases (is_nil raw)) [
  | inl unset ↦ rw unset h
  | inr given ↦ elim (Option-cases (parse_int raw)) [
    | inl no_number ↦ rw (given, no_number) h
    | inr (n, number) ↦ rw (given, number) (ground (arith, h))
  ]
]

env_int_allow_zero-natural :
    (raw : Text) (fallback : ℤ) → pos 0 ≤ℤ fallback → pos 0 ≤ℤ env_int_allow_zero raw fallback
unfolding env_int_allow_zero
env_int_allow_zero-natural raw fallback h = elim (Bool-cases (is_nil raw)) [
  | inl unset ↦ rw unset h
  | inr given ↦ elim (Option-cases (parse_int raw)) [
    | inl no_number ↦ rw (given, no_number) h
    | inr (n, number) ↦ rw (given, number) (ground (arith, h))
  ]
]

-- The numbers of a configuration are in range.
pub record IsSound (cfg : Config) : Type 0 where
  pub visible : pos 1 ≤ℤ cfg.feed_visible_hours
  pub days : pos 0 ≤ℤ cfg.my_auctions_delete_days_after_expiry
  pub cooldown : pos 0 ≤ℤ cfg.bid_cooldown_seconds

-- Whatever the environment holds, the visible hours are positive, and the days and the cooldown are not
-- negative.
pub load_config-IsSound : (getenv : Text → Text) → IsSound (load_config getenv)
unfolding load_config
load_config-IsSound getenv = record {
  visible = env_int-positive (getenv (text "FEED_VISIBLE_HOURS")) (pos 72) (omega arith);
  days =
      env_int_allow_zero-natural (getenv (text "MY_AUCTIONS_DELETE_DAYS_AFTER_EXPIRY")) (pos 0)
        (omega arith);
  cooldown =
      env_int_allow_zero-natural (getenv (text "BID_COOLDOWN_SECONDS")) (pos 300) (omega arith);
}
