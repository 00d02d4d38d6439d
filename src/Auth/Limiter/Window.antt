-- ===== src/Auth/Limiter/Window.antt =====
-- The limiter decides as if it kept the whole history of accepted requests.
use lambs_server.Base.{
  ℕ, ◌+◌, ◌-◌, ◌≤◌, ◌<◌, String, ◌≡◌, refl, sym, ◌≢◌, inl, inr, Bool, true, not, ◌&&◌, Option, none,
  some, List, [], ◌∷◌, ◌++◌, ltb, length, filter, count, All, All-append, lookup, insert, retain,
  ◌==◌, if◌then◌else◌, string_eq, arith, IsMap, retain-IsMap, lookup-insert, lookup-retain,
  Bool-cases, Option-cases, length-filter, count-append, keep_if,
}
use lambs_server.Auth.Limiter.{Hits, or_nil, times, last, is_stale, sweep, is_fresh, kept}

-- Accepted requests: who, and when.
abbrev pub History : Type 0
History = List (String × ℕ)

abbrev pub IsSorted : List ℕ → Type 0
IsSorted [] = Unit
IsSorted (t ∷ ts) = All (λ u. t ≤ u) ts × IsSorted ts

module _ (window : ℕ) where
  -- How many requests of `ip` were accepted less than a window before `now`.
  unfoldable pub recent_accepts : String → ℕ → History → ℕ
  unfolding is_fresh
  recent_accepts ip now h = count (λ e. e.0 == ip && is_fresh window now e.1) h

  -- The plain rule: accept while fewer than `max` requests were accepted within the window.
  unfoldable pub admits : (max : ℕ) → String → ℕ → History → Bool
  admits max ip now h = ltb (recent_accepts ip now h) max

  -- The map answers for the history, at `since` and later.
  pub record Tracks (since : ℕ) (h : History) (hits : Hits) : Type 0 where
    pub map : IsMap hits
    pub sorted : (ip : String) → IsSorted (times ip hits)
    pub past : (ip : String) → All (λ t. t ≤ since) (times ip hits)
    pub counts :
        (ip : String) (now : ℕ)
        → since ≤ now
        → count (is_fresh window now) (times ip hits) ≡ recent_accepts ip now h

  All-le_last : (ts : List ℕ) (t : ℕ) → IsSorted ts → last ts ≡ some t → All (λ u. u ≤ t) ts
  unfolding last
  All-le_last [] t s e = tt
  All-le_last (u ∷ []) t s e = ground arith
  All-le_last (u ∷ v ∷ ts) t s e = let rest = All-le_last (v ∷ ts) t s.1 e in (omega (arith), rest)

  count_of_stale :
      (now t : ℕ) (ts : List ℕ)
      → All (λ u. u ≤ t) ts
      → window ≤ now - t
      → count (is_fresh window now) ts ≡ 0
  unfolding count is_fresh
  count_of_stale now t [] a h = refl
  count_of_stale now t (u ∷ ts) a h = ground (arith, count_of_stale now t ts a.1 h)

  pub count-kept :
      (now later : ℕ) (ts : List ℕ)
      → now ≤ later
      → count (is_fresh window later) (kept window now ts) ≡ count (is_fresh window later) ts
  unfolding count kept filter
  count-kept now later [] h = refl
  count-kept now later (t ∷ ts) h = ground (arith, count-kept now later ts h)

  pub kept-All : (P : ℕ → Type 0) (now : ℕ) (ts : List ℕ) → All P ts → All P (kept window now ts)
  unfolding kept filter
  kept-All P now [] a = tt
  kept-All P now (t ∷ ts) a = ground (arith, kept-All P now ts a.1)

  pub kept-IsSorted : (now : ℕ) (ts : List ℕ) → IsSorted ts → IsSorted (kept window now ts)
  unfolding kept filter
  kept-IsSorted now [] s = tt
  kept-IsSorted now (t ∷ ts) s =
      ground (arith, kept-IsSorted now ts s.1, kept-All (λ u. t ≤ u) now ts s.0)

  -- What the sweep does to the times of one address: nothing that a later request can see.
  pub record SameFrom (now : ℕ) (ts us : List ℕ) : Type 0 where
    pub sorted : IsSorted us
    pub past : (n : ℕ) → All (λ t. t ≤ n) ts → All (λ t. t ≤ n) us
    pub counts :
        (later : ℕ)
        → now ≤ later
        → count (is_fresh window later) us ≡ count (is_fresh window later) ts

  last-ne-none : (t : ℕ) (ts : List ℕ) → last (t ∷ ts) ≢ none
  unfolding last
  last-ne-none t [] = cc
  last-ne-none t (u ∷ ts) = last-ne-none u ts

  SameFrom-refl : (now : ℕ) (ts : List ℕ) → IsSorted ts → SameFrom now ts ts
  SameFrom-refl now ts s = record { sorted = s; past = λ n a. a; counts = λ later h. refl }

  drop_stale-SameFrom :
      (now : ℕ) (ts : List ℕ) → IsSorted ts → is_stale window now ts ≡ true → SameFrom now ts []
  drop_stale-SameFrom now [] s e = SameFrom-refl now [] s
  drop_stale-SameFrom now (t ∷ ts) s e = elim (Option-cases (last (t ∷ ts))) [
    | inl empty ↦ absurd (last-ne-none t ts empty)
    | inr (u, found) ↦
        let old : window < now - u = unfold is_stale in ground arith in
        record {
          sorted = tt;
          past = λ n a. tt;
          counts = λ later h.
              unfold count in
              sym (count_of_stale later u (t ∷ ts) (All-le_last (t ∷ ts) u s found) (omega arith));
        }
  ]

  keep_if-SameFrom :
      (now : ℕ) (o : Option (List ℕ))
      → IsSorted (or_nil o)
      → SameFrom now (or_nil o) (or_nil (keep_if (λ ts. not (is_stale window now ts)) o))
  keep_if-SameFrom now none s = SameFrom-refl now [] s
  keep_if-SameFrom now (some ts) s = elim (Bool-cases (is_stale window now ts)) [
    | inl stale ↦ rw stale (drop_stale-SameFrom now ts s stale)
    | inr fresh ↦ rw fresh (SameFrom-refl now ts s)
  ]

  times_of_retain-SameFrom :
      (ip : String) (now : ℕ) (hits : Hits)
      → IsMap hits
      → IsSorted (times ip hits)
      → SameFrom now (times ip hits) (times ip (retain (λ ts. not (is_stale window now ts)) hits))
  unfolding times
  times_of_retain-SameFrom ip now hits m s =
      rw (lookup-retain (λ ts. not (is_stale window now ts)) ip hits m, times)
        (keep_if-SameFrom now (lookup ip hits) s)

  pub sweep-SameFrom :
      (ip : String) (now : ℕ) (hits : Hits)
      → IsMap hits
      → IsSorted (times ip hits)
      → SameFrom now (times ip hits) (times ip (sweep window now hits))
  unfolding sweep
  sweep-SameFrom ip now hits m s = elim (Bool-cases (ltb 10000 (length hits))) [
    | inl many ↦ rw many (times_of_retain-SameFrom ip now hits m s)
    | inr few ↦ rw few (SameFrom-refl now _ s)
  ]

  pub sweep-IsMap : (now : ℕ) (hits : Hits) → IsMap hits → IsMap (sweep window now hits)
  unfolding sweep
  sweep-IsMap now hits m = ground (arith, retain-IsMap (λ ts. not (is_stale window now ts)) hits m)

  pub count-snoc :
      (later now : ℕ) (ts : List ℕ)
      → count (is_fresh window later) (ts ++ now ∷ [])
        ≡ count (is_fresh window later) ts + (if is_fresh window later now then 1 else 0)
  unfolding count
  count-snoc later now ts = rw (count-append (is_fresh window later) ts (now ∷ [])) (omega arith)

  pub IsSorted-snoc :
      (ts : List ℕ) (now : ℕ) → IsSorted ts → All (λ t. t ≤ now) ts → IsSorted (ts ++ now ∷ [])
  IsSorted-snoc [] now s a = (tt, tt)
  IsSorted-snoc (t ∷ ts) now s a =
      (All-append (λ u. t ≤ u) ts (now ∷ []) s.0 (a.0, tt), IsSorted-snoc ts now s.1 a.1)

  pub le_later : (n m : ℕ) (ts : List ℕ) → n ≤ m → All (λ t. t ≤ n) ts → All (λ t. t ≤ m) ts
  le_later n m [] h a = tt
  le_later n m (t ∷ ts) h a = (omega arith, le_later n m ts h a.1)

  pub recent_accepts-snoc :
      (ip jp : String) (later now : ℕ) (h : History)
      → recent_accepts ip later (h ++ (jp, now) ∷ [])
        ≡ recent_accepts ip later h + (if jp == ip && is_fresh window later now then 1 else 0)
  unfolding recent_accepts count
  recent_accepts-snoc ip jp later now h =
      rw (count-append (λ e. e.0 == ip && is_fresh window later e.1) h ((jp, now) ∷ []))
        (omega arith)

  pub times-insert :
      (ip jp : String) (ts : List ℕ) (hits : Hits)
      → times ip (insert jp ts hits) ≡ (if jp == ip then ts else times ip hits)
  unfolding times
  times-insert ip jp ts hits = ground (arith, lookup-insert jp ip ts hits)

  pub length-kept :
      (now : ℕ) (ts : List ℕ) → length (kept window now ts) ≡ count (is_fresh window now) ts
  unfolding kept
  length-kept now ts = length-filter (is_fresh window now) ts
