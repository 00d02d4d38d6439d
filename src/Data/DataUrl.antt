-- ===== src/Data/DataUrl.antt =====
-- internal/handlers/thumb.go: images as data URLs - the thumbnail that is written, the bytes that are
-- read, and the logo that is served. A string is the list of its bytes; what the image packages of Go
-- answer, and the scaled pixels, are parameters.
pub mod ReadBack
pub mod Served
pub mod Logo
use lambs_server.Base.{
  ℕ, ◌+◌, ◌*◌, ◌^◌, Bool, true, false, not, ◌&&◌, ◌||◌, Option, none, some, List, [], ◌∷◌, ◌++◌,
  ◌≡◌, refl, text_beq, filter, length, ltb, leb, contains, if◌then◌else◌, ◌==◌, nat_eq, text_eq,
  Result, ok, err,
}
use lambs_server.Base.Text.{Text, codes, has_prefix, strip, cut, split, last_or}
use lambs_server.Data.Base64.{encode, decode, query_unescape}

-- `8<<20`
abbrev pub max_url : ℕ
max_url = 8388608

abbrev pub image_types : List Text
image_types =
    codes "image/png"
    ∷ codes "image/jpeg"
    ∷ codes "image/gif"
    ∷ codes "image/webp"
    ∷ codes "image/x-icon"
    ∷ codes "image/svg+xml"
    ∷ []

-- The media type and the payload, for what stands before and behind the first comma. Without a
-- parameter, a ";" behind the comma makes the text a wrong one.
unfoldable pub read_payload :
    (kind : Text) → (is_base64 : Bool) → (payload : Text) → Option (List ℕ × Text)
read_payload kind is_base64 payload =
    if not (contains image_types kind)
    then none
    else elim (if is_base64 then decode payload else query_unescape payload) [
      | none ↦ none
      | some raw ↦ some (raw, kind)
    ]

unfoldable pub read_head : (head payload : Text) → Option (List ℕ × Text)
unfolding read_payload
read_head head payload = elim (cut b';' head) [
  | none ↦ if contains payload b';' then none else read_payload head false payload
  | some (kind, params) ↦
      read_payload kind (last_or [] (split b';' params) == codes "base64") payload
]

-- `DataURLBytes`: the bytes and the media type.
unfoldable pub data_url_bytes : Text → Option (List ℕ × Text)
unfolding read_head
data_url_bytes url =
    if not (has_prefix url (codes "data:"))
    then none
    else if ltb max_url (length url)
    then none
    else elim (cut b',' (strip url (codes "data:"))) [
      | none ↦ none
      | some (head, payload) ↦ read_head head payload
    ]

-- What the image packages answer for some bytes: `DecodeConfig`, `Decode` with the size, and the
-- scaled image - whether a pixel is transparent, and its PNG and JPEG forms, where none is an error.
pub record Codec : Type 0 where
  pub config : List ℕ → Option (ℕ × ℕ)
  pub image : List ℕ → Option (ℕ × ℕ)
  pub has_alpha : List ℕ → Bool
  pub png : List ℕ → Option (List ℕ)
  pub jpeg : List ℕ → Option (List ℕ)

pub data ThumbError : Type 0 where
  too_large bad_base64 bad_image no_encoding : ThumbError

unfoldable pub is_huge : Option (ℕ × ℕ) → Bool
is_huge none = false
is_huge (some (w, h)) = ltb 4096 w || ltb 4096 h

unfoldable pub written : (prefix : Text) → Option (List ℕ) → Result ThumbError Text
written prefix none = err no_encoding
written prefix (some bytes) = ok (prefix ++ encode bytes)

-- The scaled image as a data URL.
unfoldable pub scaled : Codec → List ℕ → Result ThumbError Text
unfolding written
scaled c raw =
    if c.has_alpha raw
    then written (codes "data:image/png;base64,") (c.png raw)
    else written (codes "data:image/jpeg;base64,") (c.jpeg raw)

unfoldable pub thumb_of : Codec → (url raw : List ℕ) → (max_side : ℕ) → Result ThumbError Text
unfolding is_huge scaled
thumb_of c url raw max_side = if is_huge (c.config raw) then err too_large else elim (c.image raw) [
  | none ↦ err bad_image
  | some (w, h) ↦ if leb w max_side && leb h max_side then ok url else scaled c raw
]

unfoldable pub thumb_from : Codec → (url payload : Text) → (max_side : ℕ) → Result ThumbError Text
unfolding thumb_of
thumb_from c url payload max_side =
    if ltb max_url (length url)
    then err too_large
    else elim (decode payload) [ none ↦ err bad_base64 | some raw ↦ thumb_of c url raw max_side ]

-- `makeThumb`
unfoldable pub make_thumb : Codec → Text → (max_side : ℕ) → Result ThumbError Text
unfolding thumb_from
make_thumb c url max_side =
    if url == [] || max_side == 0
    then ok url
    else if has_prefix url (codes "data:image/svg")
    then ok url
    else elim (cut b',' url) [
      | none ↦ ok url
      | some (head, payload) ↦ thumb_from c url payload max_side
    ]

pub data LogoReply : Type 0 where
  missing : LogoReply
  image : (content_type : Text) → (is_sandboxed : Bool) → (body : List ℕ) → LogoReply

-- Which of the two columns is served.
unfoldable pub logo_source : (full : Bool) → (icon thumb : Text) → Text
logo_source full icon thumb =
    let chosen = (if full && not (icon == []) then icon else thumb) in
    if chosen == [] then icon else chosen

unfoldable pub serve : Option (List ℕ × Text) → LogoReply
serve none = missing
serve (some (raw, kind)) = image kind (kind == codes "image/svg+xml") raw

-- `ProjectLogo` for the columns of the row, which a failed query leaves empty.
unfoldable pub project_logo : (full : Bool) → (icon thumb : Text) → LogoReply
unfolding serve logo_source
project_logo full icon thumb = serve (data_url_bytes (logo_source full icon thumb))

data_url_bytes_tests :
    (data_url_bytes (codes "data:image/png;base64,TQ==") ≡ some (codes "M", codes "image/png"))
    × (data_url_bytes (codes "data:image/svg+xml,%3Csvg%3E")
        ≡ some (codes "<svg>", codes "image/svg+xml"))
    × (data_url_bytes (codes "data:image/svg+xml,<svg style='a;b'>") ≡ none)
    × (data_url_bytes (codes "data:text/html;base64,TQ==") ≡ none)
unfolding data_url_bytes has_prefix strip cut split contains decode query_unescape text_beq filter
data_url_bytes_tests = (refl, refl, refl, refl)
