-- ===== src/Server/Social.antt =====
-- The endpoints below /v1/users/ (internal/http/users_profile.go): a user, the profile page, follows and
-- blocks. The auctions of a profile page come from the auction service.
use auction_server.Prelude.{
  Bool, true, false, ◌&&◌, ◌||◌, not, List, [], ◌∷◌, none, some, is_nil, keep, if◌then◌else◌,
}
use auction_server.Prelude.Int.{ℤ, pos, ltb_ℤ, leb_ℤ}
use auction_server.Prelude.Text.{Text, text, text_eq}
use auction_server.Prelude.Strings.{split, trim_prefix, trim_slashes}
use auction_server.Domain.{Auction, active, approved, pending, moderation_eq}
use auction_server.Store.{AuctionStore}
use auction_server.Service.Methods.{list_my_auctions}
use auction_server.Users.{UserTables, get_by_id}
use auction_server.Users.Social.{
  block, block_status, count_followers, follow, is_following, list_blocked, list_following, unblock,
  unfollow,
}
use auction_server.Server.{
  Request, method_delete, method_get, method_not_allowed, method_post, write_error,
}
use auction_server.Server.Profile.{
  ProfileReply, answered, blocked_list, following, following_list, ok, page, public_user_view,
  status, user, viewer_of,
}

-- The tests of the loop over the auctions of a profile page.
unfoldable pub is_shown : ℤ → Text → Text → Auction → Bool
is_shown now viewer owner a =
    not (not (moderation_eq a.moderation_status approved) && not (text_eq viewer owner))
    && (leb_ℤ a.expires_at_ms (pos 0)
        || (ltb_ℤ now a.expires_at_ms || moderation_eq a.moderation_status pending))

unfoldable pub follow_endpoint : ℤ → Request → Text → UserTables → ProfileReply × UserTables
unfolding viewer_of
follow_endpoint now req id t =
    let viewer = viewer_of req in
    elim req.method [
      | method_post ↦
          if is_nil viewer
          then (answered (write_error 400 "viewerId is required"), t)
          else (let (done, t') = follow now viewer id t in
              (if done then ok else answered (write_error 400 "could not follow"), t'))
      | method_delete ↦
          if is_nil viewer
          then (answered (write_error 400 "viewerId is required"), t)
          else (ok, unfollow viewer id t)
      | method_get ↦ (following (is_following viewer id t), t)
      | _ ↦ (answered method_not_allowed, t)
    ]

unfoldable pub block_endpoint : ℤ → Request → Text → UserTables → ProfileReply × UserTables
unfolding viewer_of
block_endpoint now req id t =
    let viewer = viewer_of req in
    elim req.method [
      | method_post ↦
          if is_nil viewer
          then (answered (write_error 400 "viewerId is required"), t)
          else (let (done, t') = block now viewer id t in
              (if done then ok else answered (write_error 400 "could not block"), t'))
      | method_delete ↦
          if is_nil viewer
          then (answered (write_error 400 "viewerId is required"), t)
          else (ok, unblock viewer id t)
      | method_get ↦
          if is_nil viewer
          then (answered (write_error 400 "viewerId is required"), t)
          else (status (block_status viewer id t), t)
      | _ ↦ (answered method_not_allowed, t)
    ]

-- A list that only the user may read.
unfoldable pub own_list : Request → Text → ProfileReply → ProfileReply
unfolding viewer_of
own_list req id list =
    let viewer = viewer_of req in
    if is_nil viewer || not (text_eq viewer id)
    then answered (write_error 400 "viewerId must match user")
    else list

abbrev not_found : ProfileReply
not_found = answered (write_error 404 "not found")

unfoldable pub is_get : Request → Bool
is_get req = elim req.method [ method_get ↦ true | _ ↦ false ]

module _ (store : AuctionStore) where
  -- The page with the user's profile and auctions; `listed` and `now` are the clock readings of the
  -- list and of the handler.
  unfoldable pub profile_page :
      (now listed : ℤ) → Request → Text → UserTables → store.State → ProfileReply × store.State
  unfolding is_shown viewer_of public_user_view
  profile_page now listed req id t s = elim (get_by_id id t) [
    | none ↦ (answered (write_error 404 "user not found"), s)
    | some u ↦
        let (raw, s') = list_my_auctions store listed id active s in
        (
          page (record {
            user = public_user_view u;
            follower_count = count_followers id t;
            active_posts = keep (is_shown now (viewer_of req) id) raw;
          }),
          s',
        )
  ]

  unfoldable pub one_user : Text → UserTables → ProfileReply
  unfolding public_user_view
  one_user id t = elim (get_by_id id t) [
    | none ↦ answered (write_error 404 "user not found")
    | some u ↦ user (public_user_view u)
  ]

  -- The dispatch on the part of the path after the user's id.
  unfoldable pub social_action :
      (now listed : ℤ)
      → Request
      → Text
      → Text
      → UserTables
      → store.State
      → ProfileReply × UserTables × store.State
  unfolding profile_page follow_endpoint block_endpoint own_list is_get
  social_action now listed req id action t s =
      if text_eq action (text "profile-page") && is_get req
      then (let (reply, s') = profile_page now listed req id t s in (reply, t, s'))
      else if text_eq action (text "follow")
      then (let (reply, t') = follow_endpoint now req id t in (reply, t', s))
      else if text_eq action (text "following") && is_get req
      then (own_list req id (following_list (list_following id (pos 50) t)), t, s)
      else if text_eq action (text "block")
      then (let (reply, t') = block_endpoint now req id t in (reply, t', s))
      else if text_eq action (text "blocked") && is_get req
      then (own_list req id (blocked_list (list_blocked id (pos 50) t)), t, s)
      else (not_found, t, s)

  unfoldable pub social_by_parts :
      (now listed : ℤ)
      → Request
      → List Text
      → UserTables
      → store.State
      → ProfileReply × UserTables × store.State
  unfolding social_action one_user is_get
  social_by_parts now listed req [] t s = (not_found, t, s)
  social_by_parts now listed req (id ∷ []) t s =
      if is_nil id
      then (not_found, t, s)
      else if is_get req
      then (one_user id t, t, s)
      else (not_found, t, s)
  social_by_parts now listed req (id ∷ action ∷ []) t s =
      if is_nil id then (not_found, t, s) else social_action now listed req id action t s
  social_by_parts now listed req (id ∷ action ∷ more ∷ rest) t s = (not_found, t, s)

  -- `handleUserSocialPath`
  unfoldable pub handle_user_social_path :
      (now listed : ℤ)
      → Request
      → UserTables
      → store.State
      → ProfileReply × UserTables × store.State
  unfolding social_by_parts
  handle_user_social_path now listed req =
      social_by_parts now listed req
        (split (trim_slashes (trim_prefix req.path (text "/v1/users/"))))
