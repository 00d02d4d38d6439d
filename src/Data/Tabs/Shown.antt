-- ===== src/Data/Tabs/Shown.antt =====
-- What redactTabs leaves of an array of tabs.

use lambs_server.Base.{
  ℕ, suc, ◌≡◌, refl, ap, Bool, false, not, List, [], ◌∷◌, map, filter, length, All, ◌==◌, eq_iff,
  ◌≤◌, nat_eq, Bool-cases, inl, inr, arith,
}
use lambs_server.Data.Tabs.{
  Column, Row, cells, value, Tab, Item, tab, plain, or_nil, cells_at, is_secret, kept_cols,
  keep_from, kept_row, redact_tab, redact_tabs,
}

-- The cells of a row with the columns that they stand under.
abbrev pub zip {ℓ κ} : {A : Type ℓ} {B : Type κ} → List A → List B → List (A × B)
zip [] ys = []
zip (x ∷ xs) [] = []
zip (x ∷ xs) (y ∷ ys) = (x, y) ∷ zip xs ys

-- What a row shows: cells, or a value that is no array, as it is.
pub data ShownRow (V : Type 0) : Type 0 where
  under : List (Column V × V) → ShownRow V
  itself : V → ShownRow V

-- What an element of the array shows: rows, or a value that is no object, as it is.
pub data ShownItem (V : Type 0) : Type 0 where
  rows_of : List (ShownRow V) → ShownItem V
  untouched : V → ShownItem V

module _ {V : Type 0} where
  -- The cells of a row under their columns.
  abbrev pub shown_row : List (Column V) → Row V → ShownRow V
  shown_row cols (cells vs) = under (zip cols vs)
  shown_row cols (value v) = itself v

  -- What a tab shows, row by row.
  abbrev pub shown : Tab V → List (ShownRow V)
  shown t = map (shown_row (or_nil t.cols)) (or_nil t.rows)

  abbrev pub shown_item : Item V → ShownItem V
  shown_item (tab t) = rows_of (shown t)
  shown_item (plain v) = untouched v

zip-nil {ℓ κ} : {A : Type ℓ} {B : Type κ} (xs : List A) → zip {B = B} xs [] ≡ []
zip-nil [] = refl
zip-nil (x ∷ xs) = refl

cells_at_nil {ℓ} : {A : Type ℓ} (is : List ℕ) → cells_at {A = A} is [] ≡ []
unfolding cells_at
cells_at_nil [] = refl
cells_at_nil (i ∷ is) = cells_at_nil is

cells_at-suc {ℓ} :
    {A : Type ℓ} (is : List ℕ) (x : A) (xs : List A)
    → cells_at (map suc is) (x ∷ xs) ≡ cells_at is xs
unfolding cells_at
cells_at-suc [] x xs = refl
cells_at-suc (i ∷ is) x xs = ground (arith, cells_at-suc is x xs)

module _ (lower : ℕ → ℕ) {V : Type 0} where
  keep_from-suc :
      (i : ℕ) (cols : List (Column V))
      → keep_from lower (suc i) cols ≡ map suc (keep_from lower i cols)
  unfolding keep_from
  keep_from-suc i [] = refl
  keep_from-suc i (c ∷ cols) = elim (Bool-cases (is_secret lower c)) [
    | inl secret ↦ rw secret (keep_from-suc (suc i) cols)
    | inr open' ↦ rw open' (ap (λ is. suc i ∷ is) (keep_from-suc (suc i) cols))
  ]

  kept_cells :
      (cols : List (Column V)) (v : V) (vs : List V)
      → cells_at (keep_from lower 1 cols) (v ∷ vs) ≡ cells_at (keep_from lower 0 cols) vs
  kept_cells cols v vs = rw (keep_from-suc 0 cols) (cells_at-suc (keep_from lower 0 cols) v vs)

  abbrev pub is_open : Column V × V → Bool
  is_open cell = not (is_secret lower cell.0)

  zip_step :
      (c : Column V) (cols : List (Column V)) (v : V) (vs : List V)
      → zip (kept_cols lower cols) (cells_at (keep_from lower 0 cols) vs)
        ≡ filter is_open (zip cols vs)
      → zip (kept_cols lower (c ∷ cols)) (cells_at (keep_from lower 0 (c ∷ cols)) (v ∷ vs))
        ≡ filter is_open (zip (c ∷ cols) (v ∷ vs))
  unfolding kept_cols filter keep_from cells_at
  zip_step c cols v vs ih = elim (Bool-cases (is_secret lower c)) [
    | inl secret ↦ rw (secret, kept_cells cols v vs) ih
    | inr open' ↦ rw (open', kept_cells cols v vs) (ap (λ cs. (c, v) ∷ cs) ih)
  ]

  zip-kept :
      (cols : List (Column V)) (vs : List V)
      → zip (kept_cols lower cols) (cells_at (keep_from lower 0 cols) vs)
        ≡ filter is_open (zip cols vs)
  zip-kept [] vs = unfold kept_cols in unfold filter in refl
  zip-kept (c ∷ cols) [] =
      rw (cells_at_nil {A = V} (keep_from lower 0 (c ∷ cols))) (unfold filter in zip-nil _)
  zip-kept (c ∷ cols) (v ∷ vs) = zip_step c cols v vs (zip-kept cols vs)

  -- Without the cells under a sensitive name.
  abbrev pub hide : ShownRow V → ShownRow V
  hide (under cs) = under (filter is_open cs)
  hide (itself v) = itself v

  abbrev pub hide_item : ShownItem V → ShownItem V
  hide_item (rows_of rs) = rows_of (map hide rs)
  hide_item (untouched v) = untouched v

  rows-kept :
      (cols : List (Column V)) (rows : List (Row V))
      → map (shown_row (kept_cols lower cols)) (map (kept_row lower (keep_from lower 0 cols)) rows)
        ≡ map hide (map (shown_row cols) rows)
  unfolding kept_row
  rows-kept cols [] = refl
  rows-kept cols (cells vs ∷ rows) =
      rw (zip-kept cols vs)
        (ap (λ rest. under (filter is_open (zip cols vs)) ∷ rest) (rows-kept cols rows))
  rows-kept cols (value v ∷ rows) = ap (λ rest. itself v ∷ rest) (rows-kept cols rows)

  length-keep_from-le :
      (i : ℕ) (cols : List (Column V)) → length (keep_from lower i cols) ≤ length cols
  unfolding keep_from
  length-keep_from-le i [] = omega arith
  length-keep_from-le i (c ∷ cols) = ground (arith, length-keep_from-le (suc i) cols)

  none_secret :
      (i : ℕ) (cols : List (Column V))
      → length (keep_from lower i cols) ≡ length cols
      → All (λ c. is_secret lower c ≡ false) cols
  unfolding keep_from
  none_secret i [] e = tt
  none_secret i (c ∷ cols) e =
      ground (arith, e, length-keep_from-le (suc i) cols, none_secret (suc i) cols)

  zip_open :
      (cols : List (Column V)) (vs : List V)
      → All (λ c. is_secret lower c ≡ false) cols
      → filter is_open (zip cols vs) ≡ zip cols vs
  unfolding filter
  zip_open [] vs clear = refl
  zip_open (c ∷ cols) [] clear = refl
  zip_open (c ∷ cols) (v ∷ vs) clear =
      rw (clear.0) (ap (λ cs. (c, v) ∷ cs) (zip_open cols vs clear.1))

  rows_open :
      (cols : List (Column V)) (rows : List (Row V))
      → All (λ c. is_secret lower c ≡ false) cols
      → map (shown_row cols) rows ≡ map hide (map (shown_row cols) rows)
  rows_open cols [] clear = refl
  rows_open cols (cells vs ∷ rows) clear =
      rw (zip_open cols vs clear)
        (ap (λ rest. under (zip cols vs) ∷ rest) (rows_open cols rows clear))
  rows_open cols (value v ∷ rows) clear = ap (λ rest. itself v ∷ rest) (rows_open cols rows clear)

  -- A tab that is served shows in each row that is an array, of the cells that stand under a column,
  -- those whose column has no sensitive name, each still under its own column; other rows are as
  -- before.
  pub shown-redact_tab :
      (null : V) (t : Tab V) → shown (redact_tab lower null t) ≡ map hide (shown t)
  shown-redact_tab null t =
      elim (Bool-cases (length (keep_from lower 0 (or_nil t.cols)) == length (or_nil t.cols))) [
        | inl whole ↦
            unfold redact_tab in
            rw whole (
              rows_open (or_nil t.cols) (or_nil t.rows)
                (none_secret 0 (or_nil t.cols) ((eq_iff {V = ℕ} _ _).0 whole)))
        | inr less ↦
            unfold redact_tab in
            unfold or_nil in rw less (unfold or_nil in rows-kept (or_nil t.cols) (or_nil t.rows))
      ]

  -- What redactTabs leaves of an array of tabs, element by element: of an object, in each row that is
  -- an array, of the cells that stand under a column, those and only those whose column has no
  -- sensitive name, each still under its own column; a row that is no array, and an element that is
  -- no object, as they are. Cells beyond the last column are not spoken of.
  pub shown-redact_tabs :
      (null : V) (items : List (Item V))
      → map shown_item (redact_tabs lower null items) ≡ map hide_item (map shown_item items)
  unfolding redact_tabs
  shown-redact_tabs null [] = refl
  shown-redact_tabs null (tab t ∷ items) =
      rw (shown-redact_tab null t)
        (ap (λ rest. rows_of (map hide (shown t)) ∷ rest) (shown-redact_tabs null items))
  shown-redact_tabs null (plain v ∷ items) =
      ap (λ rest. untouched v ∷ rest) (shown-redact_tabs null items)
