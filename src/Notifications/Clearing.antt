-- ===== src/Notifications/Clearing.antt =====
-- What clearing and reading everything leave.
use lambs_server.Base.{
  ℕ, zero, suc, ◌≡◌, refl, Bool, true, false, not, ◌&&◌, String, Option, none, some, List, [], ◌∷◌,
  filter, count, take, drop, update_where, string_eq, arith,
}
use lambs_server.Base.Text.{ℤ}
use lambs_server.Store.{query_row, scan_or, exec}
use lambs_server.Access.{Member, Caller, Notice}
use lambs_server.Notifications.Visibility.{listed_visible}
use lambs_server.Notifications.{
  is_visible, is_listed, is_global, is_mine, page_number, page_size, page_offset, ListFaults,
  listing_from, list_notifications, mark_read, read_all_notifications, clear_notifications,
}

-- No query of the list fails.
abbrev pub list_up : ListFaults
list_up = record {
  access = false;
  total = false;
  rows = false;
  access_again = false;
  unread = false;
}

filter-rest :
    (p q : Notice → Bool) (ns : List Notice)
    → ((n : Notice) → p n ≡ true → q n ≡ true)
    → filter p (filter (λ n. not (q n)) ns) ≡ []
unfolding filter
filter-rest p q [] h = refl
filter-rest p q (n ∷ ns) h = ground (arith, filter-rest p q ns h, h n)

count-rest :
    (p q : Notice → Bool) (ns : List Notice)
    → ((n : Notice) → p n ≡ true → q n ≡ true)
    → count p (filter (λ n. not (q n)) ns) ≡ 0
unfolding filter count
count-rest p q [] h = refl
count-rest p q (n ∷ ns) h = ground (arith, count-rest p q ns h, h n)

drop-nil : (k : ℕ) → drop {A = Notice} k [] ≡ []
drop-nil zero = refl
drop-nil (suc k) = refl

take-nil : (k : ℕ) → take {A = Notice} k [] ≡ []
take-nil zero = refl
take-nil (suc k) = refl

module _ (us : List Member) (r : Caller) (kind : String) (ns : List Notice) where
  rest_listed :
      filter (is_listed false us r kind) (filter (λ n. not (is_visible false us r n)) ns) ≡ []
  rest_listed =
      filter-rest (is_listed false us r kind) (is_visible false us r) ns
        (λ n. listed_visible false us r kind n)

  rest_unread :
      count
        (λ n. not n.is_read && is_visible false us r n)
        (filter (λ n. not (is_visible false us r n)) ns)
      ≡ 0
  rest_unread =
      count-rest (λ n. not n.is_read && is_visible false us r n) (is_visible false us r) ns
        (λ n e. ground arith)

  listing_from-cleared :
      (size : ℕ) (o : Option ℕ)
      → listing_from list_up us (filter (λ n. not (is_visible false us r n)) ns) r kind size o
        ≡ record { rows = []; unread = 0; total = 0 }
  unfolding listing_from scan_or
  listing_from-cleared size none = refl
  listing_from-cleared size (some offset) =
      rw (rest_listed, rest_unread, drop-nil offset, take-nil size) refl

  -- After the caller has cleared the notifications, and no statement failed, the caller's list is
  -- empty, whatever page and type are asked for, and counts nothing as unread.
  pub list_notifications-clear_notifications :
      (page size : ℤ)
      → list_notifications list_up us (clear_notifications false false us r ns).0 r kind page size
        ≡ record { rows = []; unread = 0; total = 0 }
  unfolding list_notifications clear_notifications exec
  list_notifications-clear_notifications page size =
      listing_from-cleared (page_size size)
        (query_row false (page_offset (page_number page) (page_size size)))

is_visible-mark_read :
    (us : List Member) (r : Caller) (n : Notice)
    → is_visible false us r (mark_read n) ≡ is_visible false us r n
unfolding is_visible mark_read is_mine is_global
is_visible-mark_read us r n = refl

others_kept :
    (p : Notice → Bool) (f : Notice → Notice) (ns : List Notice)
    → ((n : Notice) → p (f n) ≡ p n)
    → filter (λ n. not (p n)) (update_where p f ns) ≡ filter (λ n. not (p n)) ns
unfolding filter update_where
others_kept p f [] h = refl
others_kept p f (n ∷ ns) h = ground (arith, others_kept p f ns h, h n)

none_unread :
    (p : Notice → Bool) (ns : List Notice)
    → ((n : Notice) → p (mark_read n) ≡ p n)
    → count (λ n. not n.is_read && p n) (update_where p mark_read ns) ≡ 0
unfolding count update_where mark_read
none_unread p [] h = refl
none_unread p (n ∷ ns) h = ground (arith, none_unread p ns h, h n)

-- After the caller has marked everything as read, and no statement failed, nothing that the caller
-- sees is unread, and the rows that the caller does not see are as they were.
pub read_all_notifications-unread :
    (us : List Member) (r : Caller) (ns : List Notice)
    → (count
          (λ n. not n.is_read && is_visible false us r n)
          (read_all_notifications false false us r ns)
        ≡ 0)
      × (filter (λ n. not (is_visible false us r n)) (read_all_notifications false false us r ns)
          ≡ filter (λ n. not (is_visible false us r n)) ns)
unfolding read_all_notifications exec
read_all_notifications-unread us r ns = (
  none_unread (is_visible false us r) ns (is_visible-mark_read us r),
  others_kept (is_visible false us r) mark_read ns (is_visible-mark_read us r),
)
