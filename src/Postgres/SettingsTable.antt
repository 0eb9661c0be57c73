-- ===== src/Postgres/SettingsTable.antt =====
-- The settings in the PostgreSQL store (internal/repository/postgres/app_settings.go): the one row of
-- `app_settings`, whose numbers are of type INT.
use auction_server.Prelude.{
  ◌≡◌, refl, ◌&&◌, Bool, true, false, Option, none, some, is_nil, ltb, leb, ◌^◌, if◌then◌else◌, inl,
  inr, Bool-cases, Option-cases,
}
use auction_server.Prelude.Int.{ℤ, pos_part, neg_part}
use auction_server.Prelude.Text.{Text, text, trim_space, is_blank}
use auction_server.Prelude.Strings.{trim_suffix}
use auction_server.Settings.{Settings, Store, apply}

-- `none` is a table without its row.
pub record AppSettingsRepository : Type 0 where
  pub fallback : Text
  pub defaults : Settings
  pub row : Option Settings

-- A value of type INT; the statement fails for another one.
unfoldable pub in_int : ℤ → Bool
in_int n = ltb (pos_part n) (2 ^ 31) && leb (neg_part n) (2 ^ 31)

unfoldable pub has_ints : Settings → Bool
unfolding in_int
has_ints s =
    in_int s.bid_cooldown_seconds
    && (in_int s.post_duration_hours
        && (in_int s.last_moment_hours
            && (in_int s.extend_duration_hours
                && (in_int s.top_bids_poll_interval_seconds
                    && (in_int s.chat_poll_interval_seconds && in_int s.feed_page_size)))))

-- `ensureRow`
unfoldable pub ensure_row : AppSettingsRepository → AppSettingsRepository
unfolding has_ints
ensure_row r = elim r.row [
  | some s ↦ r
  | none ↦
      if has_ints r.defaults
      then record r {
        row = some (record r.defaults {
          new_post_enabled = true;
          messages_enabled = true;
          public_base_url = r.fallback;
        });
      }
      else r
]

-- `NewAppSettingsRepository`
unfoldable pub new_app_settings_repository : Option Settings → Settings → AppSettingsRepository
unfolding ensure_row
new_app_settings_repository row defaults =
    ensure_row
      (record { fallback = trim_space defaults.public_base_url; defaults = defaults; row = row })

-- `Get`
unfoldable pub get : AppSettingsRepository → Settings
get r = elim r.row [ none ↦ r.defaults | some s ↦ s ]

-- What `UPDATE app_settings` writes: an empty address keeps the one that is there.
unfoldable pub written : Settings → Settings → Settings
written patch old =
    let url = trim_space patch.public_base_url in
    record patch {
      public_base_url = if is_nil url then old.public_base_url else url;
      offline_message = trim_space patch.offline_message;
    }

-- `Apply`; the Boolean says whether it is done without an error.
unfoldable pub apply_patch :
    Settings → AppSettingsRepository → Settings × Bool × AppSettingsRepository
unfolding has_ints written get
apply_patch patch r =
    let after : AppSettingsRepository = record r {
      row = elim r.row [ none ↦ none | some old ↦ some (written patch old) ];
    } in
    if has_ints patch then (get after, true, after) else (patch, false, r)

-- `EffectiveBaseURL`
unfoldable pub effective_url : Text → AppSettingsRepository → Text
unfolding get
effective_url fallback r =
    let url = trim_space (get r).public_base_url in
    trim_suffix (if is_nil url then trim_space fallback else url) (text "/")

-- A change with a trimmed address and message and numbers of type INT is stored as it is in the
-- settings file.
pub apply_patch_agrees :
    (patch old : Settings) (r : AppSettingsRepository) (file : Store)
    → r.row ≡ some old
    → has_ints patch ≡ true
    → is_blank patch.public_base_url ≡ false
    → trim_space patch.public_base_url ≡ patch.public_base_url
    → trim_space patch.offline_message ≡ patch.offline_message
    → (apply_patch patch r).0 ≡ (apply true patch file).0
unfolding apply_patch apply get written
apply_patch_agrees patch old r file stored ints some_url url message =
    rw (ints, stored) (rw (some_url, url, message) refl)

-- An empty address does not clear the one in force.
pub address_not_cleared :
    (patch : Settings) (r : AppSettingsRepository) (fallback : Text)
    → is_blank patch.public_base_url ≡ true
    → effective_url fallback (apply_patch patch r).2 ≡ effective_url fallback r
unfolding apply_patch effective_url get written
address_not_cleared patch r fallback blank = elim (Bool-cases (has_ints patch)) [
  | inr large ↦ rw large refl
  | inl fits ↦ elim (Option-cases r.row) [
    | inl missing ↦ rw (fits, missing) refl
    | inr (old, stored) ↦ rw (fits, stored) (rw blank refl)
  ]
]
