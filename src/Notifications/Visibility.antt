-- ===== src/Notifications/Visibility.antt =====
-- A caller is shown no row that the caller may not see.
use lambs_server.Base.{
  ℕ, zero, suc, ◌≤◌, ◌≡◌, Bool, true, false, String, Option, none, some, List, [], ◌∷◌, length,
  filter, take, drop, All, string_eq, arith, Bool-cases, inl, inr,
}
use lambs_server.Base.Text.{ℤ}
use lambs_server.Store.{query_row}
use lambs_server.Access.{Member, Caller, Notice}
use lambs_server.Notifications.{
  sees_all, is_global, is_visible, is_listed, page_number, page_size, page_offset, ListFaults,
  listing_from, list_notifications,
}

All-filter :
    (p q : Notice → Bool) (ns : List Notice)
    → ((n : Notice) → p n ≡ true → q n ≡ true)
    → All (λ n. q n ≡ true) (filter p ns)
unfolding filter
All-filter p q [] h = tt
All-filter p q (n ∷ ns) h = elim (Bool-cases (p n)) [
  | inl kept ↦ rw kept (h n kept, All-filter p q ns h)
  | inr gone ↦ rw gone (All-filter p q ns h)
]

All-drop :
    (q : Notice → Bool) (k : ℕ) (ns : List Notice)
    → All (λ n. q n ≡ true) ns
    → All (λ n. q n ≡ true) (drop k ns)
All-drop q zero ns a = a
All-drop q (suc k) [] a = tt
All-drop q (suc k) (n ∷ ns) a = All-drop q k ns a.1

All-take :
    (q : Notice → Bool) (k : ℕ) (ns : List Notice)
    → All (λ n. q n ≡ true) ns
    → All (λ n. q n ≡ true) (take k ns)
All-take q zero ns a = tt
All-take q (suc k) [] a = tt
All-take q (suc k) (n ∷ ns) a = (a.0, All-take q k ns a.1)

pub listed_visible :
    (down : Bool) (us : List Member) (r : Caller) (kind : String) (n : Notice)
    → is_listed down us r kind n ≡ true
    → is_visible down us r n ≡ true
unfolding is_listed is_visible
listed_visible down us r kind n e = ground arith

length-take-le : (k : ℕ) (ns : List Notice) → length (take k ns) ≤ k
length-take-le zero ns = omega arith
length-take-le (suc k) [] = omega arith
length-take-le (suc k) (n ∷ ns) = omega (arith, length-take-le k ns)

page_size-le : (size : ℤ) → page_size size ≤ 50
unfolding page_size
page_size-le (ℤ.pos n) = ground arith
page_size-le (ℤ.negsuc n) = omega arith

module _ (down : ListFaults) (us : List Member) (ns : List Notice) (r : Caller)
    (kind : String) where
  listing_from-visible :
      (size : ℕ) (o : Option ℕ)
      → All (λ n. is_visible down.access us r n ≡ true) (listing_from down us ns r kind size o).rows
        × (length (listing_from down us ns r kind size o).rows ≤ size)
  unfolding listing_from
  listing_from-visible size none = (tt, omega arith)
  listing_from-visible size (some offset) =
      let listed = filter (is_listed down.access us r kind) ns in
      let sound : All (λ n. is_visible down.access us r n ≡ true) listed =
        All-filter (is_listed down.access us r kind) (is_visible down.access us r) ns
          (λ n. listed_visible down.access us r kind n) in
      (
        All-take (is_visible down.access us r) size (drop offset listed)
            (All-drop (is_visible down.access us r) offset listed sound),
        length-take-le size (drop offset listed),
      )

  -- Every row of a page is one that the caller may see: the caller sees everything, the row is of no
  -- project, or its project is in the caller's list. A page has at most fifty rows, whatever is asked
  -- for and whatever fails.
  pub list_notifications-visible :
      (page size : ℤ)
      → All
          (λ n. is_visible down.access us r n ≡ true)
          (list_notifications down us ns r kind page size).rows
        × (length (list_notifications down us ns r kind page size).rows ≤ 50)
  unfolding list_notifications
  list_notifications-visible page size =
      let (shown, short) =
        listing_from-visible (page_size size)
          (query_row down.rows (page_offset (page_number page) (page_size size))) in
      (shown, omega (arith, short, page_size-le size))

-- For a caller who does not see everything, a row of no project is listed whatever type is asked for.
pub is_listed-global :
    (down : Bool) (us : List Member) (r : Caller) (kind : String) (n : Notice)
    → sees_all down us r ≡ false
    → is_global n ≡ true
    → is_listed down us r kind n ≡ true
unfolding is_listed
is_listed-global down us r kind n restricted global = ground arith
