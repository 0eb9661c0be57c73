-- ===== src/Server/UploadNames.antt =====
-- The names under which uploaded files are stored (internal/http/uploads.go).
use auction_server.Prelude.{
  ℕ, zero, suc, ◌+◌, ◌/◌, ◌%◌, ◌≡◌, refl, Bool, false, ◌&&◌, ◌||◌, not, [], ◌∷◌, ◌++◌, some, is_nil,
  ◌==◌, All, arith, inl, inr, Bool-cases, Option-cases,
}
use auction_server.Prelude.Int.{ℤ, pos, negsuc}
use auction_server.Prelude.Text.{Text, text, format_int, digits_from}
use auction_server.Prelude.Strings.{to_lower}
use auction_server.Settings.{Config}
use auction_server.Server.{
  Method, Request, method_get, method_post, method_put, method_patch, method_delete, method_options,
  other_method,
}
use auction_server.Server.Uploads.{
  Upload, file, ext, file_name, handle_upload, has_dot_after, has_slash_after, is_image_ext,
  is_image_type, store_file, stored, stored_ext, upload_by_method, upload_file,
}

-- A name of one path element.
abbrev pub HasNoSlash : Text → Type 0
HasNoSlash = All (λ c. c == b'/' ≡ false)

has_slash_after-HasNoSlash : (s : Text) → has_slash_after s ≡ false → HasNoSlash s
unfolding has_slash_after
has_slash_after-HasNoSlash [] h = tt
has_slash_after-HasNoSlash (c ∷ s) h = (ground arith, has_slash_after-HasNoSlash s (ground arith))

ext-HasNoSlash : (s : Text) → HasNoSlash (ext s)
unfolding ext
ext-HasNoSlash [] = tt
ext-HasNoSlash (c ∷ s) =
    elim (Bool-cases (c == b'.' && not (has_dot_after s || has_slash_after s))) [
      | inl last ↦ rw last (ground arith, has_slash_after-HasNoSlash s (ground arith))
      | inr earlier ↦ rw earlier (ext-HasNoSlash s)
    ]

to_lower-HasNoSlash :
    (lower : ℕ → ℕ) (s : Text)
    → ((c : ℕ) → lower c == b'/' ≡ false)
    → HasNoSlash s
    → HasNoSlash (to_lower lower s)
unfolding to_lower
to_lower-HasNoSlash lower [] keeps h = tt
to_lower-HasNoSlash lower (c ∷ s) keeps h =
    (ground (arith, keeps c, h.0), to_lower-HasNoSlash lower s keeps h.1)

stored_ext-HasNoSlash :
    (lower : ℕ → ℕ) (u : Upload) {e : Text}
    → ((c : ℕ) → lower c == b'/' ≡ false)
    → stored_ext lower u ≡ some e
    → HasNoSlash e
unfolding stored_ext
stored_ext-HasNoSlash lower u {e} keeps h =
    let own = to_lower-HasNoSlash lower (ext u.filename) keeps (ext-HasNoSlash u.filename) in
    elim (Bool-cases (is_image_ext (to_lower lower (ext u.filename)))) [
      | inl image ↦
          let same : to_lower lower (ext u.filename) ≡ e = cc (rw (stored_ext, image) at h) in
          rw (← same) own
      | inr other ↦ elim (Bool-cases (is_image_type (to_lower lower u.content_type))) [
        | inr neither ↦ absurd (cc (rw (stored_ext, other, neither) at h))
        | inl typed ↦ elim (Bool-cases (is_nil (to_lower lower (ext u.filename)))) [
          | inl bare ↦
              let jpg : text ".jpg" ≡ e = cc (rw (stored_ext, other, typed, bare) at h) in
              rw (← jpg) (refl, (refl, (refl, (refl, tt))))
          | inr kept ↦
              let same : to_lower lower (ext u.filename) ≡ e =
                cc (rw (stored_ext, other, typed, kept) at h) in
              rw (← same) own
        ]
      ]
    ]

append-HasNoSlash : (s t : Text) → HasNoSlash s → HasNoSlash t → HasNoSlash (s ++ t)
append-HasNoSlash [] t h k = k
append-HasNoSlash (c ∷ s) t h k = (h.0, append-HasNoSlash s t h.1 k)

digits_from-HasNoSlash : (f n : ℕ) (acc : Text) → HasNoSlash acc → HasNoSlash (digits_from f n acc)
unfolding digits_from
digits_from-HasNoSlash zero n acc h = h
digits_from-HasNoSlash (suc f) n acc h =
    ground (arith, h, digits_from-HasNoSlash f (n / 10) ((b'0' + n % 10) ∷ acc) (ground arith, h))

format_int-HasNoSlash : (n : ℤ) → HasNoSlash (format_int n)
unfolding format_int
format_int-HasNoSlash (pos n) = digits_from-HasNoSlash (suc n) n [] tt
format_int-HasNoSlash (negsuc n) = (refl, digits_from-HasNoSlash (suc (suc n)) (suc n) [] tt)

file_name-HasNoSlash :
    (now : ℤ) (random e : Text)
    → HasNoSlash random
    → HasNoSlash e
    → HasNoSlash (file_name now random e)
unfolding file_name
file_name-HasNoSlash now random e h k =
    append-HasNoSlash (format_int now) (b'-' ∷ (random ++ e)) (format_int-HasNoSlash now)
      (refl, append-HasNoSlash random e h k)

upload_file-HasNoSlash :
    (lower : ℕ → ℕ) (cfg : Config) (base : Text) (now : ℤ) (written : Bool) (u : Upload)
    {name url : Text}
    → ((c : ℕ) → lower c == b'/' ≡ false)
    → HasNoSlash u.random
    → upload_file lower cfg base now written (file u) ≡ stored name url
    → HasNoSlash name
unfolding upload_file store_file
upload_file-HasNoSlash lower cfg base now written u {name} {url} keeps random h =
    elim (Option-cases (stored_ext lower u)) [
      | inl refused ↦ absurd (cc (rw (upload_file, refused) at h))
      | inr (e, accepted) ↦
          let kept = stored_ext-HasNoSlash lower u keeps accepted in
          elim (Bool-cases written) [
            | inr failed ↦ absurd (cc (rw (upload_file, accepted, store_file, failed) at h))
            | inl done ↦
                let same : file_name now u.random e ≡ name =
                  cc (rw (upload_file, accepted, store_file, done) at h) in
                rw (← same) (file_name-HasNoSlash now u.random e random kept)
          ]
    ]

upload_by_method-HasNoSlash :
    (lower : ℕ → ℕ) (cfg : Config) (base : Text) (now : ℤ) (written : Bool) (m : Method)
    (u : Upload) {name url : Text}
    → ((c : ℕ) → lower c == b'/' ≡ false)
    → HasNoSlash u.random
    → upload_by_method lower cfg base now written m (file u) ≡ stored name url
    → HasNoSlash name
unfolding upload_by_method
upload_by_method-HasNoSlash lower cfg base now written method_post u keeps random h =
    upload_file-HasNoSlash lower cfg base now written u keeps random h
upload_by_method-HasNoSlash lower cfg base now written method_get u keeps random h = absurd (cc h)
upload_by_method-HasNoSlash lower cfg base now written method_put u keeps random h = absurd (cc h)
upload_by_method-HasNoSlash lower cfg base now written method_patch u keeps random h = absurd (cc h)
upload_by_method-HasNoSlash lower cfg base now written method_delete u keeps random h =
    absurd (cc h)
upload_by_method-HasNoSlash lower cfg base now written method_options u keeps random h =
    absurd (cc h)
upload_by_method-HasNoSlash lower cfg base now written other_method u keeps random h = absurd (cc h)

-- Whatever file name a client sends, the name under which an upload is stored has no slash, so
-- that the file stays in the directory of the uploads. The random part has none, and no character
-- is lower-cased to one.
pub handle_upload-HasNoSlash :
    (lower : ℕ → ℕ) (cfg : Config) (base : Text) (now : ℤ) (written : Bool) (req : Request)
    (u : Upload) {name url : Text}
    → ((c : ℕ) → lower c == b'/' ≡ false)
    → HasNoSlash u.random
    → handle_upload lower cfg base now written req (file u) ≡ stored name url
    → HasNoSlash name
unfolding handle_upload
handle_upload-HasNoSlash lower cfg base now written req u keeps random h =
    upload_by_method-HasNoSlash lower cfg base now written req.method u keeps random h
