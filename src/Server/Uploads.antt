-- ===== src/Server/Uploads.antt =====
-- The upload of images (internal/http/uploads.go). `lower` is `unicode.ToLower` beyond ASCII; whether
-- the file is written to the disk is an outcome of the environment.
use auction_server.Prelude.{
  ℕ, Bool, false, ◌&&◌, ◌||◌, not, [], ◌∷◌, ◌++◌, Option, none, some, is_nil, ◌==◌, if◌then◌else◌,
}
use auction_server.Prelude.Int.{ℤ}
use auction_server.Prelude.Text.{Text, text, text_eq, trim_space, is_blank, trim_right, format_int}
use auction_server.Prelude.Strings.{to_lower}
use auction_server.Settings.{Config}
use auction_server.Server.{
  Method, Request, Response, method_not_allowed, method_options, method_post, no_content, respond,
  write_error,
}

-- What the multipart reader finds in the request. `random` is `randomHex(8)`.
pub record Upload : Type 0 where
  pub filename : Text
  pub content_type : Text
  pub random : Text
  pub host : Text
  pub has_tls : Bool

pub data Form : Type 0 where
  invalid_form no_file : Form
  file : Upload → Form

pub data UploadReply : Type 0 where
  stored : (name url : Text) → UploadReply
  answered : Response → UploadReply

-- `filepath.Ext(s)`: from the last dot of the last element of the path.
unfoldable pub has_dot_after : Text → Bool
has_dot_after [] = false
has_dot_after (c ∷ s) = let rest = has_dot_after s in c == b'.' || rest

unfoldable pub has_slash_after : Text → Bool
has_slash_after [] = false
has_slash_after (c ∷ s) = let rest = has_slash_after s in c == b'/' || rest

unfoldable pub ext : Text → Text
unfolding has_dot_after has_slash_after
ext [] = []
ext (c ∷ s) =
    let rest = ext s in
    if c == b'.' && not (has_dot_after s || has_slash_after s) then c ∷ s else rest

unfoldable pub is_image_ext : Text → Bool
is_image_ext e =
    text_eq e (text ".jpg")
    || text_eq e (text ".jpeg")
    || text_eq e (text ".png")
    || text_eq e (text ".webp")

unfoldable pub is_image_type : Text → Bool
is_image_type t =
    text_eq t (text "image/jpeg") || text_eq t (text "image/png") || text_eq t (text "image/webp")

-- The extension under which the file is stored; `none` is the refusal.
unfoldable pub stored_ext : (ℕ → ℕ) → Upload → Option Text
unfolding ext to_lower is_image_ext is_image_type
stored_ext lower u =
    let e = to_lower lower (ext u.filename) in
    if is_image_ext e
    then some e
    else if is_image_type (to_lower lower u.content_type)
    then some (if is_nil e then text ".jpg" else e)
    else none

-- `fmt.Sprintf("%d-%s%s", …)`
unfoldable pub file_name : ℤ → Text → Text → Text
file_name now random e = format_int now ++ b'-' ∷ (random ++ e)

-- `publicBaseURL`
unfoldable pub public_base_url : Config → Upload → Text
public_base_url cfg u =
    if not (is_blank cfg.public_base_url)
    then trim_space cfg.public_base_url
    else (if u.has_tls then text "https" else text "http")
      ++ (text "://" ++ (if is_nil u.host then text "localhost:" ++ cfg.port else u.host))

-- `strings.TrimRight(s, "/")`
unfoldable pub trim_right_slashes : Text → Text
trim_right_slashes = trim_right (λ c. c == b'/')

-- The file is stored under the name unless the disk refuses it; `base` is the effective base address.
unfoldable pub store_file : Config → Text → ℤ → Bool → Upload → Text → UploadReply
unfolding file_name public_base_url trim_right_slashes
store_file cfg base now written u e =
    let name = file_name now u.random e in
    let own = trim_right_slashes base in
    if written
    then stored name (
        (if is_nil own then trim_right_slashes (public_base_url cfg u) else own)
        ++ (text "/uploads/" ++ name))
    else answered (write_error 500 "could not save file")

unfoldable pub upload_file : (ℕ → ℕ) → Config → Text → ℤ → Bool → Form → UploadReply
unfolding stored_ext store_file
upload_file lower cfg base now written invalid_form =
    answered (write_error 400 "invalid multipart form")
upload_file lower cfg base now written no_file = answered (write_error 400 "file field is required")
upload_file lower cfg base now written (file u) = elim (stored_ext lower u) [
  | none ↦ answered (write_error 400 "only jpeg, png, webp images are allowed")
  | some e ↦ store_file cfg base now written u e
]

unfoldable pub upload_by_method : (ℕ → ℕ) → Config → Text → ℤ → Bool → Method → Form → UploadReply
unfolding upload_file
upload_by_method lower cfg base now written m form = elim m [
  | method_options ↦ answered (respond 204 no_content)
  | method_post ↦ upload_file lower cfg base now written form
  | _ ↦ answered method_not_allowed
]

-- `handleUpload`
unfoldable pub handle_upload : (ℕ → ℕ) → Config → Text → ℤ → Bool → Request → Form → UploadReply
unfolding upload_by_method
handle_upload lower cfg base now written req form =
    upload_by_method lower cfg base now written req.method form
