-- ===== src/Server/ProfilePrivacy.antt =====
-- What the profile endpoints show of a user (internal/http/users_profile.go).
use auction_server.Prelude.{
  ℕ, ◌≡◌, ◌⊎◌, refl, Bool, false, ◌&&◌, List, [], ◌∷◌, Option, none, some, arith, inl, inr,
  Bool-cases, Option-cases, keep, All, is_nil,
}
use auction_server.Prelude.Int.{ℤ, pos}
use auction_server.Prelude.Text.{
  Text, text, text_eq, text_eq_iff, trim_space, trim_space_idem, is_blank,
}
use auction_server.Prelude.Strings.{split, trim_prefix, trim_slashes}
use auction_server.Domain.{Auction, approved, active}
use auction_server.Store.{AuctionStore}
use auction_server.Service.Methods.{list_my_auctions}
use auction_server.Users.{User, UserTables, get_by_id, ProfileUpdateInput}
use auction_server.Users.Profiles.{set_name, update_profile}
use auction_server.Users.Social.{list_blocked, list_following}
use auction_server.Server.{Request, method_patch, write_error}
use auction_server.Server.Profile.{
  ProfileReply, following_list, blocked_list, user, page, answered, public_user_view,
  handle_me_profile, patch_profile, updated_reply, profile_error, viewer_of,
}
use auction_server.Server.Social.{
  one_user, profile_page, social_action, social_by_parts, handle_user_social_path, is_shown,
  follow_endpoint, block_endpoint, own_list, is_get,
}

-- The user in a reply.
unfoldable pub shown_user : ProfileReply → Option User
shown_user (user u) = some u
shown_user (page p) = some p.user
shown_user _ = none

-- A user who takes no calls is shown without a phone.
pub record HidesPhone (reply : ProfileReply) : Type 0 where
  pub hidden : (u : User) → shown_user reply ≡ some u → u.receive_calls ≡ false → u.phone ≡ []

public_user_view-hides :
    (u : User) → (public_user_view u).receive_calls ≡ false → (public_user_view u).phone ≡ []
unfolding public_user_view
public_user_view-hides u h = ground arith

HidesPhone-silent : (reply : ProfileReply) → shown_user reply ≡ none → HidesPhone reply
HidesPhone-silent reply h = record { hidden = λ u shown calls. absurd (cc (h, shown)) }

HidesPhone-user : (v : User) → HidesPhone (user (public_user_view v))
unfolding shown_user
HidesPhone-user v = record {
  hidden = λ u shown calls.
      let same : public_user_view v ≡ u = cc in
      rw (← same) (public_user_view-hides v (rw same calls));
}

HidesPhone-page :
    (v : User) (n : ℕ) (posts : List Auction)
    → HidesPhone
        (page (record { user = public_user_view v; follower_count = n; active_posts = posts }))
unfolding shown_user
HidesPhone-page v n posts = record {
  hidden = λ u shown calls.
      let same : public_user_view v ≡ u = cc in
      rw (← same) (public_user_view-hides v (rw same calls));
}

follow-silent :
    (now : ℤ) (req : Request) (id : Text) (t : UserTables)
    → shown_user (follow_endpoint now req id t).0 ≡ none
unfolding follow_endpoint shown_user
follow-silent now req id t = ground arith

block-silent :
    (now : ℤ) (req : Request) (id : Text) (t : UserTables)
    → shown_user (block_endpoint now req id t).0 ≡ none
unfolding block_endpoint shown_user
block-silent now req id t = ground arith

own_list-silent :
    (req : Request) (id : Text) (reply : ProfileReply)
    → shown_user reply ≡ none
    → shown_user (own_list req id reply) ≡ none
unfolding own_list shown_user
own_list-silent req id reply h = ground arith

module _ (store : AuctionStore) (now listed : ℤ) (req : Request) (t : UserTables) where
  social_silent :
      (id action : Text) (s : store.State)
      → text_eq action (text "profile-page") && is_get req ≡ false
      → shown_user (social_action store now listed req id action t s).0 ≡ none
  unfolding social_action shown_user
  social_silent id action s others = ground (
    arith,
    follow-silent now req id t,
    block-silent now req id t,
    own_list-silent req id (following_list (list_following id (pos 50) t)),
    own_list-silent req id (blocked_list (list_blocked id (pos 50) t)),
  )

  one_user-HidesPhone : (id : Text) → HidesPhone (one_user store id t)
  unfolding one_user shown_user
  one_user-HidesPhone id = elim (Option-cases (get_by_id id t)) [
    | inl missing ↦ rw (one_user, missing) (HidesPhone-silent _ refl)
    | inr (u, found) ↦ rw (one_user, found) (HidesPhone-user u)
  ]

  profile_page-HidesPhone :
      (id : Text) (s : store.State) → HidesPhone (profile_page store now listed req id t s).0
  unfolding profile_page shown_user
  profile_page-HidesPhone id s = elim (Option-cases (get_by_id id t)) [
    | inl missing ↦ rw (profile_page, missing) (HidesPhone-silent _ refl)
    | inr (u, found) ↦ rw (profile_page, found) (HidesPhone-page u _ _)
  ]

  social_action-HidesPhone :
      (id action : Text) (s : store.State)
      → HidesPhone (social_action store now listed req id action t s).0
  unfolding social_action
  social_action-HidesPhone id action s =
      elim (Bool-cases (text_eq action (text "profile-page") && is_get req)) [
        | inl shows ↦ rw shows (profile_page-HidesPhone id s)
        | inr others ↦ HidesPhone-silent _ (social_silent id action s others)
      ]

  social_by_parts-HidesPhone :
      (parts : List Text) (s : store.State)
      → HidesPhone (social_by_parts store now listed req parts t s).0
  unfolding social_by_parts shown_user
  social_by_parts-HidesPhone [] s = HidesPhone-silent _ refl
  social_by_parts-HidesPhone (id ∷ []) s = elim (Bool-cases (is_nil id)) [
    | inl missing ↦ rw missing (HidesPhone-silent _ refl)
    | inr given ↦ elim (Bool-cases (is_get req)) [
      | inl reads ↦ rw (given, reads) (one_user-HidesPhone id)
      | inr writes ↦ rw (given, writes) (HidesPhone-silent _ refl)
    ]
  ]
  social_by_parts-HidesPhone (id ∷ action ∷ []) s = elim (Bool-cases (is_nil id)) [
    | inl missing ↦ rw missing (HidesPhone-silent _ refl)
    | inr given ↦ rw given (social_action-HidesPhone id action s)
  ]
  social_by_parts-HidesPhone (id ∷ action ∷ more ∷ rest) s = HidesPhone-silent _ refl

  -- A user that the endpoint of profiles shows, alone or on a profile page, has no phone where the
  -- user takes no calls.
  pub handle_user_social_path-HidesPhone :
      (s : store.State) → HidesPhone (handle_user_social_path store now listed req t s).0
  unfolding handle_user_social_path
  handle_user_social_path-HidesPhone s =
      social_by_parts-HidesPhone (split (trim_slashes (trim_prefix req.path (text "/v1/users/")))) s

is_shown-keep :
    (now : ℤ) (viewer owner : Text) (list : List Auction)
    → All
        (λ (a : Auction). (a.moderation_status ≡ approved) ⊎ (viewer ≡ owner))
        (keep (is_shown now viewer owner) list)
unfolding is_shown
is_shown-keep now viewer owner [] = tt
is_shown-keep now viewer owner (a ∷ list) =
    let rest = is_shown-keep now viewer owner list in
    elim (Bool-cases (is_shown now viewer owner a)) [
      | inr hidden ↦ rw hidden rest
      | inl shown ↦ rw shown (ground (arith, text_eq_iff viewer owner), rest)
    ]

-- The auctions that a reply shows.
unfoldable pub shown_posts : ProfileReply → List Auction
shown_posts (page p) = p.active_posts
shown_posts _ = []

-- Every auction on a profile page is approved, or the viewer that the request names is the user of
-- the page.
pub profile_page-posts :
    (store : AuctionStore) (now listed : ℤ) (req : Request) (id : Text) (t : UserTables)
    (s : store.State)
    → All
        (λ (a : Auction). (a.moderation_status ≡ approved) ⊎ (viewer_of req ≡ id))
        (shown_posts (profile_page store now listed req id t s).0)
unfolding profile_page shown_posts
profile_page-posts store now listed req id t s = elim (Option-cases (get_by_id id t)) [
  | inl missing ↦ rw (profile_page, missing) tt
  | inr (u, found) ↦
      rw (profile_page, found)
        (is_shown-keep now (viewer_of req) id (list_my_auctions store listed id active s).0)
]

-- A change of the name to one that another user has is answered as a bad request and changes no
-- table.
pub name_clash_is_bad_request :
    (lower : Text → Text) (redis : Bool) (req : Request) (input : ProfileUpdateInput)
    (t : UserTables)
    → req.method ≡ method_patch
    → is_blank input.user_id ≡ false
    → set_name lower (trim_space input.user_id) input.name t ≡ none
    → handle_me_profile lower redis req (some input) t
      ≡ (answered (write_error 400 "could not update profile"), t, [])
unfolding handle_me_profile patch_profile update_profile updated_reply profile_error
name_clash_is_bad_request lower redis req input t patches some_id clash =
    let same = trim_space_idem input.user_id in
    let clashes : set_name lower (trim_space (trim_space input.user_id)) input.name t ≡ none =
      rw same clash in
    let named : is_nil (trim_space (trim_space input.user_id)) ≡ false = rw same some_id in
    ground arith
