-- ===== src/Data/Tabs.antt =====
-- internal/handlers/redact_tabs.go. A tab is the JSON object of a table that was read before: its
-- columns, and rows of cells. `V` is a JSON value and `null` its null; an entry that is no array is
-- none, and what a tab holds besides is `rest`.
pub mod Shown
use lambs_server.Base.{
  ℕ, zero, suc, ◌≡◌, ◌∙◌, refl, sym, ap, Bool, true, false, not, ◌&&◌, Option, none, some, List, [],
  ◌∷◌, map, filter, length, get_elem?, All, if◌then◌else◌, ◌==◌, eq_iff, ◌≤◌, nat_eq, Bool-cases,
  inl, inr, arith,
}
use lambs_server.Base.Text.{Text}
use lambs_server.Data.Redact.{is_sensitive_key}

-- A column is named by a text, or by another value.
pub data Column (V : Type 0) : Type 0 where
  named : Text → Column V
  other : V → Column V

pub data Row (V : Type 0) : Type 0 where
  cells : List V → Row V
  value : V → Row V

pub record Tab (V : Type 0) : Type 0 where
  pub name : V
  pub pk : V
  pub cols : Option (List (Column V))
  pub rows : Option (List (Row V))
  pub rest : V

-- An element of the array: an object, or another value.
pub data Item (V : Type 0) : Type 0 where
  tab : Tab V → Item V
  plain : V → Item V

unfoldable pub or_nil {ℓ} : {A : Type ℓ} → Option (List A) → List A
or_nil none = []
or_nil (some xs) = xs

-- The cells that a list of places names, as far as the row has them.
unfoldable pub cells_at {ℓ} : {A : Type ℓ} → List ℕ → List A → List A
cells_at [] xs = []
cells_at (i ∷ is) xs =
    let rest = cells_at is xs in elim (get_elem? xs i) [ none ↦ rest | some x ↦ x ∷ rest ]

module _ (lower : ℕ → ℕ) {V : Type 0} where
  unfoldable pub is_secret : Column V → Bool
  is_secret (named k) = is_sensitive_key lower k
  is_secret (other v) = false

  unfoldable pub kept_cols : List (Column V) → List (Column V)
  unfolding is_secret
  kept_cols cols = filter (λ c. not (is_secret c)) cols

  -- The places of these columns, counted from `i`.
  unfoldable pub keep_from : ℕ → List (Column V) → List ℕ
  unfolding is_secret
  keep_from i [] = []
  keep_from i (c ∷ cols) =
      let rest = keep_from (suc i) cols in if is_secret c then rest else i ∷ rest

  unfoldable pub kept_row : List ℕ → Row V → Row V
  unfolding cells_at
  kept_row keep (cells vs) = cells (cells_at keep vs)
  kept_row keep (value v) = value v

  -- One element that is an object.
  unfoldable pub redact_tab : (null : V) → Tab V → Tab V
  unfolding keep_from kept_cols kept_row or_nil
  redact_tab null t =
      let cols = or_nil t.cols in
      let keep = keep_from 0 cols in
      if length keep == length cols then t else record {
        name = t.name;
        pk = t.pk;
        cols = some (kept_cols cols);
        rows = some (map (kept_row keep) (or_nil t.rows));
        rest = null;
      }

  unfoldable pub redact_item : (null : V) → Item V → Item V
  unfolding redact_tab
  redact_item null (tab t) = tab (redact_tab null t)
  redact_item null (plain v) = plain v

  -- `redactTabs` on an array; any other value is returned as it is.
  unfoldable pub redact_tabs : (null : V) → List (Item V) → List (Item V)
  unfolding redact_item
  redact_tabs null items = map (redact_item null) items
