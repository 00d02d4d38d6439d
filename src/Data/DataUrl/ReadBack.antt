-- ===== src/Data/DataUrl/ReadBack.antt =====
-- What is written as a data URL is read back.

use lambs_server.Base.{
  ℕ, ◌≤◌, ◌≡◌, ◌∙◌, inl, inr, refl, sym, subst, Bool, true, false, not, ◌&&◌, ◌||◌, none, some,
  List, [], ◌∷◌, ◌++◌, append_assoc, length, length-append, All, all, contains, ltb, leb, ◌==◌,
  eq_iff, nat_eq, text_eq, text_beq, Bool-cases, arith,
}
use lambs_server.Base.Text.{Text, codes, has_prefix, strip, cut, split, last_or}
use lambs_server.Data.Base64.{encode}
use lambs_server.Data.Base64.RoundTrip.{IsByte, decode-encode, length-encode}
use lambs_server.Data.DataUrl.{max_url, image_types, read_payload, read_head, data_url_bytes}

contains-append : (a b : Text) (c : ℕ) → contains (a ++ b) c ≡ (contains a c || contains b c)
unfolding contains
contains-append [] b c = refl
contains-append (d ∷ a) b c = ground (arith, contains-append a b c)

-- What stands before and behind the first separator.
pub cut-append : (c : ℕ) (a b : Text) → contains a c ≡ false → cut c (a ++ c ∷ b) ≡ some (a, b)
unfolding cut contains
cut-append c [] b free = rw ((eq_iff c c).1 refl) refl
cut-append c (d ∷ a) b free = elim (Bool-cases (d == c)) [
  | inl hit ↦ ground (arith, free, hit)
  | inr miss ↦ rw (miss, cut-append c a b (ground (arith, free, miss))) refl
]

all-contains :
    (p : Text → Bool) (xs : List Text) (a : Text)
    → all p xs ≡ true
    → contains xs a ≡ true
    → p a ≡ true
unfolding all contains
all-contains p [] a every has = cc
all-contains p (x ∷ xs) a every has = elim (Bool-cases (x == a)) [
  | inl hit ↦ subst (λ y. p y ≡ true) ((eq_iff x a).0 hit) (ground (arith, every))
  | inr miss ↦ all-contains p xs a (ground (arith, every)) (ground (arith, has, miss))
]

-- A media type of the list has no separator in it, and is short.
abbrev is_plain : Text → Bool
is_plain kind = not (contains kind b';') && (not (contains kind b',') && leb (length kind) 13)

types_plain : all is_plain image_types ≡ true
unfolding all contains
types_plain = refl

-- An image as a data URL.
abbrev pub url_of : (kind : Text) → (raw : List ℕ) → Text
url_of kind raw = codes "data:" ++ (kind ++ (codes ";base64," ++ encode raw))

-- The number of bytes whose URL is certainly not longer than the bound.
abbrev pub max_raw : ℕ
max_raw = 6291435

module _ (kind : Text) (raw : List ℕ) (known : contains image_types kind ≡ true) where
  plain : is_plain kind ≡ true
  plain = all-contains is_plain image_types kind types_plain known

  length-url_of : length raw ≤ max_raw → length (url_of kind raw) ≤ max_url
  length-url_of small =
      ground (arith, plain, length-append kind (codes ";base64," ++ encode raw), length-encode raw)

  cut-url_of :
      cut b',' (kind ++ (codes ";base64," ++ encode raw))
      ≡ some (kind ++ codes ";base64", encode raw)
  cut-url_of = rw (sym (append_assoc kind (codes ";base64") (b',' ∷ encode raw))) (
      cut-append b',' (kind ++ codes ";base64") (encode raw)
        (contains-append kind (codes ";base64") b',' ∙ unfold contains in ground (arith, plain)))

  read_payload-encode :
      All IsByte raw
      → read_payload kind (last_or [] (split b';' (codes "base64")) == codes "base64") (encode raw)
        ≡ some (raw, kind)
  unfolding read_payload split text_beq
  read_payload-encode bytes = rw (known, decode-encode raw bytes) refl

  read_head-url_of :
      All IsByte raw → read_head (kind ++ codes ";base64") (encode raw) ≡ some (raw, kind)
  unfolding read_head
  read_head-url_of bytes =
      let parts : cut b';' (kind ++ codes ";base64") ≡ some (kind, codes "base64") =
        cut-append b';' kind (codes "base64") (ground (arith, plain)) in
      rw (parts, read_head) (read_payload-encode bytes)

  -- The same where the URL itself is known to be short enough.
  pub data_url_bytes-short :
      All IsByte raw
      → ltb max_url (length (url_of kind raw)) ≡ false
      → data_url_bytes (url_of kind raw) ≡ some (raw, kind)
  data_url_bytes-short bytes fits =
      unfold data_url_bytes in
      unfold has_prefix in unfold strip in rw (fits, cut-url_of) (read_head-url_of bytes)

  -- An image of a listed type and of at most 6,291,435 bytes, written as a base64 data URL, is read
  -- back: the same bytes and the same type.
  pub data_url_bytes-url_of :
      All IsByte raw → length raw ≤ max_raw → data_url_bytes (url_of kind raw) ≡ some (raw, kind)
  data_url_bytes-url_of bytes small =
      data_url_bytes-short bytes (ground (arith, length-url_of small))

pub data_url_bytes-long : (url : Text) → ltb max_url (length url) ≡ true → data_url_bytes url ≡ none
data_url_bytes-long url long = elim (Bool-cases (has_prefix url (codes "data:"))) [
  | inl image' ↦ unfold data_url_bytes in simp (image', long)
  | inr other ↦ unfold data_url_bytes in simp other
]
