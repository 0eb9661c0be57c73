-- ===== src/Settings/Effective.antt =====
-- What a client gets from the settings store: the resolved settings (internal/appsettings/store.go).
use auction_server.Prelude.{
  ◌≡◌, refl, Bool, true, false, Option, none, some, arith, Bool-cases, inl, inr, if◌then◌else◌,
}
use auction_server.Prelude.Int.{ℤ, pos, leb_ℤ}
use auction_server.Prelude.Text.{
  Text, trim_space, trim_space_idem, trim, trim_left, trim_right, is_space, is_blank,
}
use auction_server.Settings.{
  Config, Settings, defaults_from_config, default_offline_message, or_default, resolved,
  if_positive, if_not_blank, merge_settings, Store, load, apply,
}

-- Every duration, interval and size is positive and the offline message is not blank.
pub record IsUsable (st : Settings) : Type 0 where
  pub bid_cooldown : leb_ℤ st.bid_cooldown_seconds (pos 0) ≡ false
  pub post_duration : leb_ℤ st.post_duration_hours (pos 0) ≡ false
  pub last_moment : leb_ℤ st.last_moment_hours (pos 0) ≡ false
  pub extend_duration : leb_ℤ st.extend_duration_hours (pos 0) ≡ false
  pub top_bids_poll : leb_ℤ st.top_bids_poll_interval_seconds (pos 0) ≡ false
  pub chat_poll : leb_ℤ st.chat_poll_interval_seconds (pos 0) ≡ false
  pub feed_page : leb_ℤ st.feed_page_size (pos 0) ≡ false
  pub message : is_blank st.offline_message ≡ false

or_default-positive : (v d : ℤ) → leb_ℤ d (pos 0) ≡ false → leb_ℤ (or_default v d) (pos 0) ≡ false
or_default-positive v d h = ground arith

message_given : (m : Text) → is_blank (if is_blank m then default_offline_message else m) ≡ false
unfolding default_offline_message trim_space trim trim_left trim_right is_space
message_given m = elim (Bool-cases (is_blank m)) [
  | inl blank ↦ rw blank refl
  | inr given ↦ rw given given
]

if_not_blank-given :
    (patch old : Text) → is_blank old ≡ false → is_blank (if_not_blank patch old) ≡ false
if_not_blank-given patch old h = ground (arith, trim_space_idem patch)

-- Whatever was stored, the resolved settings have positive durations, intervals and sizes and an
-- offline message that is not blank, if the configured cooldown is positive.
pub resolved-IsUsable :
    (st : Settings) (cfg : Config)
    → leb_ℤ cfg.bid_cooldown_seconds (pos 0) ≡ false
    → IsUsable (resolved st cfg)
unfolding resolved defaults_from_config
resolved-IsUsable st cfg h =
    let def = defaults_from_config cfg in
    record {
      bid_cooldown = or_default-positive st.bid_cooldown_seconds def.bid_cooldown_seconds h;
      post_duration = or_default-positive st.post_duration_hours def.post_duration_hours refl;
      last_moment = or_default-positive st.last_moment_hours def.last_moment_hours refl;
      extend_duration = or_default-positive st.extend_duration_hours def.extend_duration_hours refl;
      top_bids_poll =
          or_default-positive st.top_bids_poll_interval_seconds def.top_bids_poll_interval_seconds
            refl;
      chat_poll =
          or_default-positive st.chat_poll_interval_seconds def.chat_poll_interval_seconds refl;
      feed_page = or_default-positive st.feed_page_size def.feed_page_size refl;
      message = message_given st.offline_message;
    }

-- Usable settings are served as they are stored, whatever the configuration.
pub resolved_of_usable : (st : Settings) (cfg : Config) → IsUsable st → resolved st cfg ≡ st
unfolding resolved
resolved_of_usable st cfg h = ground (
  arith, h.bid_cooldown, h.post_duration, h.last_moment, h.extend_duration, h.top_bids_poll,
  h.chat_poll, h.feed_page, h.message,
)

-- A cooldown of zero or less, which the store accepts, is served as the configured one.
pub resolved_cooldown_after_apply :
    (written : Bool) (patch : Settings) (s : Store) (cfg : Config)
    → leb_ℤ patch.bid_cooldown_seconds (pos 0) ≡ true
    → (resolved (apply written patch s).2.current cfg).bid_cooldown_seconds
      ≡ cfg.bid_cooldown_seconds
unfolding resolved apply defaults_from_config
resolved_cooldown_after_apply written patch s cfg h = ground arith

if_positive-positive :
    (p old : ℤ) → leb_ℤ old (pos 0) ≡ false → leb_ℤ (if_positive p old) (pos 0) ≡ false
if_positive-positive p old h = ground arith

-- Loading a file, whatever it holds, over usable settings leaves usable settings.
pub load-IsUsable :
    (file : Option Settings) (s : Store) → IsUsable s.current → IsUsable (load file s).current
unfolding load merge_settings
load-IsUsable none s h = h
load-IsUsable (some loaded) s h = record {
  bid_cooldown =
      if_positive-positive loaded.bid_cooldown_seconds s.current.bid_cooldown_seconds
        h.bid_cooldown;
  post_duration =
      if_positive-positive loaded.post_duration_hours s.current.post_duration_hours h.post_duration;
  last_moment =
      if_positive-positive loaded.last_moment_hours s.current.last_moment_hours h.last_moment;
  extend_duration =
      if_positive-positive loaded.extend_duration_hours s.current.extend_duration_hours
        h.extend_duration;
  top_bids_poll =
      if_positive-positive loaded.top_bids_poll_interval_seconds
        s.current.top_bids_poll_interval_seconds h.top_bids_poll;
  chat_poll =
      if_positive-positive loaded.chat_poll_interval_seconds s.current.chat_poll_interval_seconds
        h.chat_poll;
  feed_page = if_positive-positive loaded.feed_page_size s.current.feed_page_size h.feed_page;
  message = if_not_blank-given loaded.offline_message s.current.offline_message h.message;
}
