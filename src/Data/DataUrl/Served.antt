-- ===== src/Data/DataUrl/Served.antt =====
-- What makeThumb writes, and what is served of it.

use lambs_server.Base.{
  ℕ, ◌≤◌, ◌<◌, ltb, if◌then◌else◌, ◌≡◌, ◌⊎◌, true, false, Option, none, some, List, [], length, All,
  nat_eq, text_eq,
}
use lambs_server.Base.Text.{Text, codes, has_prefix, cut}
use lambs_server.Data.Base64.{decode}
use lambs_server.Data.Base64.RoundTrip.{IsByte}
use lambs_server.Data.DataUrl.{Codec, missing, image, max_url, project_logo}

-- The bytes and the type of the scaled image.
abbrev pub IsScaled : Codec → (source : List ℕ) → (kind : Text) → (bytes : List ℕ) → Type 0
IsScaled c source kind bytes =
    ((c.has_alpha source ≡ true) × (c.png source ≡ some bytes) × (kind ≡ codes "image/png"))
    ⊎ ((c.has_alpha source ≡ false) × (c.jpeg source ≡ some bytes) × (kind ≡ codes "image/jpeg"))

-- The encoders write bytes.
abbrev pub IsEncoder : Codec → Type 0
IsEncoder c =
    ((source bytes : List ℕ) → c.png source ≡ some bytes → All IsByte bytes)
    × ((source bytes : List ℕ) → c.jpeg source ≡ some bytes → All IsByte bytes)

-- The logo of a thumbnail that is not the image itself.
abbrev pub IsServed : Codec → (source : List ℕ) → (icon thumb : Text) → Type 0
IsServed c source icon thumb =
    (kind : Text) × (bytes : List ℕ) × IsScaled c source kind bytes
    × (project_logo false icon thumb
        ≡ (if ltb max_url (length thumb) then missing else image kind false bytes))

-- The bytes of the image that a data URL holds.
abbrev pub source_of : Text → Option (List ℕ)
source_of url = elim (cut b',' url) [ none ↦ none | some (head, payload) ↦ decode payload ]

-- The size of the decoded image, against the bound.
abbrev pub IsWithin : Codec → (source : List ℕ) → (max_side : ℕ) → Type 0
IsWithin c source max_side =
    (w : ℕ) × (h : ℕ) × (c.image source ≡ some (w, h)) × (w ≤ max_side) × (h ≤ max_side)

abbrev pub IsBeyond : Codec → (source : List ℕ) → (max_side : ℕ) → Type 0
IsBeyond c source max_side =
    (w : ℕ) × (h : ℕ) × (c.image source ≡ some (w, h)) × ((max_side < w) ⊎ (max_side < h))

-- What is not scaled: the empty text, any image for the bound 0, a vector image, a text without a
-- comma, and an image within the bound.
abbrev pub IsLeft : Codec → (url : Text) → (max_side : ℕ) → Type 0
IsLeft c url max_side =
    (url ≡ [])
    ⊎ ((max_side ≡ 0)
        ⊎ ((has_prefix url (codes "data:image/svg") ≡ true)
            ⊎ ((cut b',' url ≡ none)
                ⊎ ((source : List ℕ) × (source_of url ≡ some source)
                    × IsWithin c source max_side))))
