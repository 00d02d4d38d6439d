-- ===== src/Data/Sweep.antt =====
-- internal/handlers/readall.go: a table read in chunks.
use native.Mathlib.Nat.{zero-add, suc-add}
use lambs_server.Base.{
  ℕ, zero, suc, ◌+◌, ◌-◌, ◌*◌, ◌≤◌, ◌<◌, ◌≡◌, refl, ap, subst, ◌∙◌, String, Option, none, some,
  List, [], ◌∷◌, ◌++◌, ltb, leb, length, take, drop, if◌then◌else◌, arith, Bool-cases, inl, inr,
  Result, ok, err,
}

-- A chunk: its rows, the columns and the primary key.
pub record Chunk {ℓ} (A : Type ℓ) : Type ℓ where
  pub rows : List A
  pub cols : List String
  pub pk : String

pub data SweepError : Type 0 where
  source_failed too_large : SweepError

-- `readAllChunk`, and the rounds of the loop up to `readAllMax`.
abbrev pub read_all_chunk : ℕ
read_all_chunk = 500

abbrev pub read_all_rounds : ℕ
read_all_rounds = 2000

module _ {ℓ} {A : Type ℓ} (size : ℕ) (read : (limit off : ℕ) → Option (Chunk A)) where
  -- What a chunk leaves: the rows so far, and the columns of the last chunk that had rows.
  unfoldable pub add_chunk : Chunk A → Chunk A → Chunk A
  add_chunk all c =
      if ltb 0 (length c.rows)
      then record { rows = all.rows ++ c.rows; cols = c.cols; pk = c.pk }
      else record { rows = all.rows ++ c.rows; cols = all.cols; pk = all.pk }

  -- The loop, from an offset on.
  unfoldable pub sweep : (rounds off : ℕ) → Chunk A → Result SweepError (Chunk A)
  unfolding add_chunk
  sweep zero off all = err too_large
  sweep (suc rounds) off all = elim (read size off) [
    | none ↦ err source_failed
    | some c ↦
        let next = add_chunk all c in
        let rest = sweep rounds (off + size) next in
        if ltb (length c.rows) size then ok next else rest
  ]

unfoldable pub read_all_items {ℓ} :
    {A : Type ℓ} → (ℕ → ℕ → Option (Chunk A)) → Result SweepError (Chunk A)
read_all_items read =
    sweep read_all_chunk read read_all_rounds 0 (record { rows = []; cols = []; pk = "" })

-- All rows, with the source's columns if there is a row.
abbrev pub whole {ℓ} : {A : Type ℓ} → List A → List String → String → Chunk A
whole xs cols pk = record {
  rows = xs;
  cols = if ltb 0 (length xs) then cols else [];
  pk = if ltb 0 (length xs) then pk else "";
}

-- A page of the rows `xs`; a page without rows may have other columns than the rest.
abbrev pub page_of {ℓ} :
    {A : Type ℓ}
    → (size : ℕ) → List A
    → (cols cols' : List String) → (pk pk' : String) → (off : ℕ) → Chunk A
page_of size xs cols cols' pk pk' off = record {
  rows = take size (drop off xs);
  cols = if ltb off (length xs) then cols else cols';
  pk = if ltb off (length xs) then pk else pk';
}

module _ {A : Type 0} (size : ℕ) (read : (limit off : ℕ) → Option (Chunk A)) (xs : List A)
    (cols cols' : List String) (pk pk' : String)
    (pages : (off : ℕ) → read size off ≡ some (page_of size xs cols cols' pk pk' off)) where
  length-take :
      (n : ℕ) (ys : List A) → length (take n ys) ≡ (if leb n (length ys) then n else length ys)
  length-take zero ys = ground arith
  length-take (suc n) [] = ground arith
  length-take (suc n) (y ∷ ys) = ground (arith, length-take n ys)

  length-drop : (n : ℕ) (ys : List A) → length (drop n ys) ≡ length ys - n
  length-drop zero ys = ground arith
  length-drop (suc n) [] = ground arith
  length-drop (suc n) (y ∷ ys) = ground (arith, length-drop n ys)

  take_all : (n : ℕ) (ys : List A) → length ys ≤ n → take n ys ≡ ys
  take_all zero [] h = refl
  take_all zero (y ∷ ys) h = ground arith
  take_all (suc n) [] h = refl
  take_all (suc n) (y ∷ ys) h = ap (λ l. y ∷ l) (take_all n ys (ground arith))

  take_nil : (n : ℕ) → take {A = A} n [] ≡ []
  take_nil zero = refl
  take_nil (suc n) = refl

  take-drop : (m n : ℕ) (ys : List A) → take m ys ++ take n (drop m ys) ≡ take (m + n) ys
  take-drop zero n ys = rw zero-add refl
  take-drop (suc m) n [] = rw suc-add (take_nil n)
  take-drop (suc m) n (y ∷ ys) = rw suc-add (ap (λ l. y ∷ l) (take-drop m n ys))

  -- What the loop has at an offset.
  so_far : ℕ → Chunk A
  so_far off = record {
    rows = take off xs;
    cols = if ltb 0 off then cols else [];
    pk = if ltb 0 off then pk else "";
  }

  abbrev page : ℕ → Chunk A
  page = page_of size xs cols cols' pk pk'

  length-page :
      (off : ℕ)
      → length (page off).rows ≡ (if leb size (length xs - off) then size else length xs - off)
  length-page off = ground (arith, length-take size (drop off xs), length-drop off xs)

  add_chunk-short :
      (off : ℕ)
      → off ≤ length xs
      → length xs < off + size
      → add_chunk size read (so_far off) (page off) ≡ whole xs cols pk
  unfolding add_chunk so_far
  add_chunk-short off le short =
      let rows : take off xs ++ take size (drop off xs) ≡ xs =
        take-drop off size xs ∙ take_all (off + size) xs (omega arith) in
      let few = length-page off in rw rows (ground (arith, few))

  add_chunk-full :
      (off : ℕ)
      → 0 < size
      → off + size ≤ length xs
      → add_chunk size read (so_far off) (page off) ≡ so_far (off + size)
  unfolding add_chunk so_far
  add_chunk-full off some' full =
      let many = length-page off in rw (take-drop off size xs) (ground (arith, many))

  sweep_step :
      (rounds off : ℕ) (all : Chunk A)
      → sweep size read (suc rounds) off all ≡ (
          if ltb (length (take size (drop off xs))) size
          then ok (add_chunk size read all (page off))
          else sweep size read rounds (off + size) (add_chunk size read all (page off)))
  unfolding sweep add_chunk
  sweep_step rounds off all = rw (sweep, pages off) refl

  sweep_from :
      (rounds off : ℕ)
      → 0 < size
      → off ≤ length xs
      → sweep size read rounds off (so_far off)
        ≡ (if ltb (length xs) (off + rounds * size) then ok (whole xs cols pk) else err too_large)
  sweep_from zero off some' le = unfold sweep in ground arith
  sweep_from (suc rounds) off some' le =
      sweep_step rounds off (so_far off) ∙ elim (Bool-cases (leb (off + size) (length xs))) [
        | inl full ↦
            let next = add_chunk-full off some' (ground arith) in
            let ih = sweep_from rounds (off + size) some' (ground arith) in
            rw next (ground (arith, ih, length-page off))
        | inr short ↦
            let next = add_chunk-short off le (ground arith) in
            rw next (ground (arith, length-page off))
      ]

  sweep-eq-whole :
      (rounds : ℕ)
      → 0 < size
      → sweep size read rounds 0 (record { rows = []; cols = []; pk = "" })
        ≡ (if ltb (length xs) (rounds * size) then ok (whole xs cols pk) else err too_large)
  unfolding so_far
  sweep-eq-whole rounds some' =
      subst
        (λ n.
          sweep size read rounds 0 (so_far 0)
          ≡ (if ltb (length xs) n then ok (whole xs cols pk) else err too_large))
        (zero-add (rounds * size)) (sweep_from rounds 0 some' (omega arith))

-- Over a source that gives the pages of 500 rows of a fixed table, with the table's columns and key on
-- every page that has rows, and any columns and key on a page that has none: the sweep ends with all
-- rows in order, and the table's columns and key if there is a row (none if not), where the table has
-- fewer than a million rows; a larger table is an error, never a part of its rows.
pub read_all_items-eq-whole :
    {A : Type 0} (read : (limit off : ℕ) → Option (Chunk A)) (xs : List A)
    (cols cols' : List String) (pk pk' : String)
    → ((off : ℕ) → read 500 off ≡ some (page_of 500 xs cols cols' pk pk' off))
    → read_all_items read
      ≡ (if ltb (length xs) 1000000 then ok (whole xs cols pk) else err too_large)
unfolding read_all_items
read_all_items-eq-whole read xs cols cols' pk pk' pages =
    sweep-eq-whole read_all_chunk read xs cols cols' pk pk' pages read_all_rounds (omega arith)
