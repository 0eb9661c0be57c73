-- ===== src/Server/Profile.antt =====
-- The endpoints of a user's own profile and bids (internal/http/users_profile.go). They are
-- registered only where there is a store of users.
use auction_server.Prelude.{
  ℕ, Bool, true, false, not, List, [], ◌∷◌, ◌++◌, Option, none, some, is_nil, if◌then◌else◌,
}
use auction_server.Prelude.Text.{Text, text, trim_space}
use auction_server.Domain.{Auction}
use auction_server.Effects.{Effect, invalidate_top_bids}
use auction_server.Users.{ProfileUpdateInput, User, UserTables, bid_auction_ids, get_by_id}
use auction_server.Users.Profiles.{
  display_name_taken, ProfileError, ProfileResult, failed, profile, update_profile,
}
use auction_server.Users.Social.{BlockStatus, BlockUserSummary, FollowUserSummary}
use auction_server.Server.{
  Request, Response, method_get, method_not_allowed, method_patch, method_put, respond, error,
  write_error,
}

pub record PublicProfilePage : Type 0 where
  pub user : User
  pub follower_count : ℕ
  pub active_posts : List Auction

-- The payload of a response with code 200, or another response.
pub data ProfileReply : Type 0 where
  user : User → ProfileReply
  page : PublicProfilePage → ProfileReply
  auction_ids : List Text → ProfileReply
  following : Bool → ProfileReply
  following_list : List FollowUserSummary → ProfileReply
  blocked_list : List BlockUserSummary → ProfileReply
  status : BlockStatus → ProfileReply
  ok : ProfileReply
  answered : Response → ProfileReply

unfoldable pub viewer_of : Request → Text
viewer_of req = trim_space (req.query (text "viewerId"))

-- `handleMeBidAuctions`
unfoldable pub handle_me_bid_auctions : Request → UserTables → ProfileReply
handle_me_bid_auctions req t = elim req.method [
  | method_get ↦
      let id = trim_space (req.query (text "userId")) in
      if is_nil id
      then answered (write_error 400 "userId is required")
      else auction_ids (bid_auction_ids id t)
  | _ ↦ answered method_not_allowed
]

-- `publicUserView`
unfoldable pub public_user_view : User → User
public_user_view u = if not u.receive_calls then record u { phone = [] } else u

unfoldable pub user_or_not_found : Option User → ProfileReply
user_or_not_found none = answered (write_error 404 "user not found")
user_or_not_found (some u) = user u

unfoldable pub get_profile : Request → UserTables → ProfileReply
unfolding user_or_not_found
get_profile req t =
    let id = trim_space (req.query (text "userId")) in
    if is_nil id
    then answered (write_error 400 "userId is required")
    else user_or_not_found (get_by_id id t)

-- The message for a taken name, by its code points (Persian for "this display name cannot be used").
unfoldable pub name_taken_message : Text
name_taken_message =
    0x627 ∷ 0x645 ∷ 0x6a9 ∷ 0x627 ∷ 0x646 ∷ 0x20 ∷ 0x627 ∷ 0x633 ∷ 0x62a ∷ 0x641 ∷ 0x627 ∷ 0x62f
    ∷ 0x647 ∷ 0x20 ∷ 0x627 ∷ 0x632 ∷ 0x20 ∷ 0x627 ∷ 0x6cc ∷ 0x646 ∷ 0x20 ∷ 0x646 ∷ 0x627 ∷ 0x645
    ∷ 0x20 ∷ 0x646 ∷ 0x645 ∷ 0x627 ∷ 0x6cc ∷ 0x634 ∷ 0x6cc ∷ 0x20 ∷ 0x648 ∷ 0x62c ∷ 0x648 ∷ 0x62f
    ∷ 0x20 ∷ 0x646 ∷ 0x62f ∷ 0x627 ∷ 0x631 ∷ 0x62f ∷ []

unfoldable pub profile_error : ProfileError → ProfileReply
unfolding name_taken_message
profile_error display_name_taken = answered (respond 409 (error name_taken_message))
profile_error _ = answered (write_error 400 "could not update profile")

unfoldable pub invalidate_all : Bool → List Text → List Effect
invalidate_all redis [] = []
invalidate_all redis (id ∷ ids) = invalidate_top_bids redis id ++ invalidate_all redis ids

-- Whether the input sets who may call.
unfoldable pub sets_calls : ProfileUpdateInput → Bool
sets_calls input = elim input.receive_calls [ none ↦ false | some calls ↦ true ]

unfoldable pub updated_reply :
    Bool → ProfileUpdateInput → ProfileResult × UserTables → ProfileReply × UserTables × List Effect
unfolding profile_error invalidate_all sets_calls
updated_reply redis input (failed e, t) = (profile_error e, t, [])
updated_reply redis input (profile u, t) = (
  user u,
  t,
  if sets_calls input then invalidate_all redis (bid_auction_ids input.user_id t) else [],
)

unfoldable pub patch_profile :
    (Text → Text)
    → Bool
    → Option ProfileUpdateInput
    → UserTables
    → ProfileReply × UserTables × List Effect
unfolding updated_reply
patch_profile lower redis none t = (answered (write_error 400 "invalid body"), t, [])
patch_profile lower redis (some given) t =
    let input : ProfileUpdateInput = record given { user_id = trim_space given.user_id } in
    if is_nil input.user_id
    then (answered (write_error 400 "userId is required"), t, [])
    else updated_reply redis input (update_profile lower input t)

-- `handleMeProfile`
unfoldable pub handle_me_profile :
    (Text → Text)
    → Bool
    → Request
    → Option ProfileUpdateInput
    → UserTables
    → ProfileReply × UserTables × List Effect
unfolding patch_profile get_profile
handle_me_profile lower redis req body t = elim req.method [
  | method_get ↦ (get_profile req t, t, [])
  | method_patch ↦ patch_profile lower redis body t
  | method_put ↦ patch_profile lower redis body t
  | _ ↦ (answered method_not_allowed, t, [])
]
