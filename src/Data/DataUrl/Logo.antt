-- ===== src/Data/DataUrl/Logo.antt =====
-- What the logo route serves at all.

use lambs_server.Base.{
  ℕ, ◌≡◌, inl, inr, subst, Bool, true, false, not, ◌||◌, Option, none, some, List, length, contains,
  ltb, if◌then◌else◌, ◌==◌, nat_eq, text_eq, Option-cases, Bool-cases, arith,
}
use lambs_server.Base.Text.{Text, codes, has_prefix, strip, cut}
use lambs_server.Data.Base64.{decode, query_unescape}
use lambs_server.Data.DataUrl.{
  max_url, image_types, read_payload, read_head, data_url_bytes, image, logo_source, serve,
  project_logo,
}

-- A media type that is read is one of the six.
abbrev IsKnown : Option (List ℕ × Text) → Type 0
IsKnown none = Unit {0}
IsKnown (some (raw, kind)) = contains image_types kind ≡ true

read_payload-IsKnown :
    (kind : Text) (is_base64 : Bool) (payload : Text)
    → IsKnown (read_payload kind is_base64 payload)
read_payload-IsKnown kind is_base64 payload = elim (Bool-cases (contains image_types kind)) [
  | inr other ↦ unfold read_payload in rw other tt
  | inl known ↦ elim (Option-cases (if is_base64 then decode payload else query_unescape payload)) [
    | inl wrong ↦ unfold read_payload in rw (known, wrong) tt
    | inr (raw, right) ↦ unfold read_payload in rw (known, right) known
  ]
]

read_head-IsKnown : (head payload : Text) → IsKnown (read_head head payload)
unfolding read_head
read_head-IsKnown head payload = elim (Option-cases (cut b';' head)) [
  | inr ((kind, params), parts) ↦ rw (parts, read_head) (read_payload-IsKnown kind _ payload)
  | inl whole ↦ elim (Bool-cases (contains payload b';')) [
    | inl wrong ↦ rw (whole, read_head) (rw wrong tt)
    | inr fine ↦ rw (whole, read_head) (rw fine (read_payload-IsKnown head false payload))
  ]
]

data_url_bytes-IsKnown : (url : Text) → IsKnown (data_url_bytes url)
unfolding data_url_bytes
data_url_bytes-IsKnown url =
    elim (Bool-cases (not (has_prefix url (codes "data:")) || ltb max_url (length url))) [
      | inl wrong ↦ ground (arith, wrong)
      | inr fine ↦ elim (Option-cases (cut b',' (strip url (codes "data:")))) [
        | inl none' ↦ ground (arith, fine, none')
        | inr ((head, payload), parts) ↦ ground (arith, fine, parts, read_head-IsKnown head payload)
      ]
    ]

serve_cases :
    (o : Option (List ℕ × Text)) (kind : Text) (is_sandboxed : Bool) (body : List ℕ)
    → serve o ≡ image kind is_sandboxed body
    → IsKnown o
    → (contains image_types kind ≡ true) × (is_sandboxed ≡ (kind == codes "image/svg+xml"))
unfolding serve
serve_cases none kind is_sandboxed body e known = cc
serve_cases (some (raw, type)) kind is_sandboxed body e known =
    let same : type ≡ kind = cc e in
    (
      subst (λ t. contains image_types t ≡ true) same known,
      subst (λ t. is_sandboxed ≡ (t == codes "image/svg+xml")) same (cc e),
    )

-- The logo route serves nothing but the six types of images, and the one of them that may hold a
-- script only in a sandbox, whatever the columns of the row hold.
pub project_logo-safe :
    (full : Bool) (icon thumb kind : Text) (is_sandboxed : Bool) (body : List ℕ)
    → project_logo full icon thumb ≡ image kind is_sandboxed body
    → (contains image_types kind ≡ true) × (is_sandboxed ≡ (kind == codes "image/svg+xml"))
unfolding project_logo
project_logo-safe full icon thumb kind is_sandboxed body e =
    serve_cases (data_url_bytes (logo_source full icon thumb)) kind is_sandboxed body e
      (data_url_bytes-IsKnown (logo_source full icon thumb))
