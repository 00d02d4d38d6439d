-- ===== src/Tests/Images.antt =====
-- A small image, a tab with a password, and a DSN.
use lambs_server.Base.{
  ℕ, ◌+◌, ◌≤◌, ◌≡◌, refl, Bool, true, false, not, ◌&&◌, ◌==◌, text_eq, Option, some, none, List, [],
  ◌∷◌, ◌++◌, map, filter, length, contains, arith,
}
use lambs_server.Base.Text.{Text, codes}
use lambs_server.Data.DataUrl.{Codec, data_url_bytes, image_types, project_logo}
use lambs_server.Data.DataUrl.ReadBack.{url_of, data_url_bytes-url_of}
use lambs_server.Data.DataUrl.Logo.{project_logo-safe}
use lambs_server.Data.Tabs.{named, cells, value, Tab, tab, plain, redact_tabs}
use lambs_server.Data.Tabs.Shown.{
  under, itself, rows_of, untouched, shown_item, hide_item, shown-redact_tabs,
}
use lambs_server.Settings.{mask_dsn}
use lambs_server.Settings.Masked.{dsn_of, mask_dsn-password}

abbrev pixels : List ℕ
pixels = 137 ∷ 80 ∷ 78 ∷ 71 ∷ []

-- Every image is 200 by 100, and its scaled form is one byte.
abbrev codec : Codec
codec = record {
  config = λ raw. some (200, 100);
  image = λ raw. some (200, 100);
  has_alpha = λ raw. false;
  png = λ raw. none;
  jpeg = λ raw. some (255 ∷ []);
}

data_url_bytes-url_of_example :
    data_url_bytes (url_of (codes "image/png") pixels) ≡ some (pixels, codes "image/png")
unfolding contains lambs_server.Base.text_beq
data_url_bytes-url_of_example =
    data_url_bytes-url_of (codes "image/png") pixels refl (omega arith) (omega arith)

project_logo-safe_example :
    (contains image_types (codes "image/png") ≡ true)
    × (false ≡ (codes "image/png" == codes "image/svg+xml"))
unfolding project_logo data_url_bytes lambs_server.Base.Text.has_prefix lambs_server.Base.text_beq
    lambs_server.Data.Base64.encode lambs_server.Base.Text.cut lambs_server.Base.Text.strip contains
    lambs_server.Base.Text.split lambs_server.Data.Base64.decode filter
project_logo-safe_example =
    project_logo-safe true (url_of (codes "image/png") pixels) [] (codes "image/png") false pixels
      refl

abbrev users_tab : Tab ℕ
users_tab = record {
  name = 1;
  pk = 2;
  cols = some (named (codes "id") ∷ named (codes "password") ∷ named (codes "mail") ∷ []);
  rows = some (cells (10 ∷ 11 ∷ 12 ∷ []) ∷ value 3 ∷ cells (20 ∷ 21 ∷ []) ∷ []);
  rest = 0;
}

redact_tabs_test :
    map shown_item (redact_tabs (λ c. c) {V = ℕ} 0 (tab users_tab ∷ plain 5 ∷ []))
    ≡ rows_of (
        under ((named (codes "id"), 10) ∷ (named (codes "mail"), 12) ∷ [])
        ∷ itself 3
        ∷ under ((named (codes "id"), 20) ∷ [])
        ∷ [])
      ∷ untouched 5
      ∷ []
unfolding redact_tabs lambs_server.Data.Redact.is_sensitive_key lambs_server.Base.any
    lambs_server.Base.Text.has_substring filter
redact_tabs_test = refl

shown-redact_tabs_example :
    map shown_item (redact_tabs (λ c. c) {V = ℕ} 0 (tab users_tab ∷ plain 5 ∷ []))
    ≡ map (hide_item (λ c. c) {V = ℕ}) (map shown_item (tab users_tab ∷ plain 5 ∷ []))
shown-redact_tabs_example = shown-redact_tabs (λ c. c) {V = ℕ} 0 (tab users_tab ∷ plain 5 ∷ [])

mask_dsn-password_example :
    mask_dsn (dsn_of (codes "mysql") (codes "root") (codes "p:@w") (codes "db/shop"))
    ≡ some (dsn_of (codes "mysql") (codes "root") (codes "***") (codes "db/shop"))
unfolding contains lambs_server.Base.Text.has_prefix
mask_dsn-password_example =
    mask_dsn-password (codes "mysql") (codes "root") (codes "p:@w") (codes "db/shop") refl refl refl
      refl
