-- ===== src/Notifications.antt =====
-- internal/handlers/notifications.go: what a caller sees, reads and deletes. A row of the table
-- stands before the rows that are older.
pub mod Visibility
pub mod Clearing
use mathlib.Core.Option
use lambs_server.Base.{
  ℕ, ◌+◌, ◌-◌, ◌*◌, ◌%◌, ◌^◌, Bool, true, false, not, ◌&&◌, ◌||◌, String, Option, none, some, List,
  [], ◌∷◌, ltb, leb, length, filter, count, contains, take, drop, update_where, if◌then◌else◌, ◌==◌,
  string_eq, nat_eq,
}
use lambs_server.Base.Text.{ℤ, pos, negsuc}
use lambs_server.Store.{exec, query_row, scan_or}
use lambs_server.Access.{Member, Caller, super_admin, access_of, Notice, can_touch_notification}

-- `EXISTS (… WHERE value = 'all')` on the caller's column.
unfoldable pub has_all : Option (List String) → Bool
has_all none = false
has_all (some ids) = contains ids "all"

-- `project_id = ANY (SELECT … FROM users WHERE id=$1)`
unfoldable pub is_mine : List Member → Caller → Notice → Bool
is_mine us r n = contains (scan_or false [] (access_of r.user_id us)) n.project_id

unfoldable pub is_global : Notice → Bool
is_global n = n.project_id == ""

-- The clause of visibleClause, where `down` says that its query fails: none is no clause. Both cases
-- of visibleClauseCount come to the same.
unfoldable pub sees_all : (down : Bool) → List Member → Caller → Bool
unfolding scan_or has_all
sees_all down us r =
    r.role == super_admin || scan_or down false (some (has_all (access_of r.user_id us)))

unfoldable pub is_visible : (down : Bool) → List Member → Caller → Notice → Bool
unfolding sees_all is_mine is_global
is_visible down us r n = sees_all down us r || (is_global n || is_mine us r n)

-- The WHERE of the list, `a OR b AND type=$2` without parentheses; `kind` is "" or "all" for every
-- type.
unfoldable pub is_listed : (down : Bool) → List Member → Caller → String → Notice → Bool
unfolding sees_all is_mine is_global
is_listed down us r kind n =
    let of_kind = kind == "" || (kind == "all" || n.kind == kind) in
    if sees_all down us r then of_kind else is_global n || (is_mine us r n && of_kind)

-- The value that `strconv.Atoi` leaves, where it is below 1 or, for the size, above 50.
unfoldable pub page_number : ℤ → ℕ
page_number (pos n) = if ltb n 1 then 1 else n
page_number (negsuc n) = 1

unfoldable pub page_size : ℤ → ℕ
page_size (pos n) = if ltb n 1 || ltb 50 n then 20 else n
page_size (negsuc n) = 20

-- `(page - 1) * pageSize` in 64 bits: none is negative, which the database refuses.
unfoldable pub page_offset : (page size : ℕ) → Option ℕ
page_offset page size =
    let product = ((page - 1) * size) % 2 ^ 64 in
    if ltb product (2 ^ 63) then some product else none

pub record Listing : Type 0 where
  pub rows : List Notice
  pub unread : ℕ
  pub total : ℕ

-- The queries of ListNotifications, each of which may fail.
pub record ListFaults : Type 0 where
  pub access : Bool
  pub total : Bool
  pub rows : Bool
  pub access_again : Bool
  pub unread : Bool

no_listing : Listing
no_listing = record { rows = []; unread = 0; total = 0 }

-- The reply where the rows could be read from an offset.
unfoldable pub listing_from :
    ListFaults
    → List Member
    → List Notice
    → Caller
    → (kind : String) → (size : ℕ) → Option ℕ
    → Listing
unfolding is_listed is_visible no_listing scan_or
listing_from down us ns r kind size none = no_listing
listing_from down us ns r kind size (some offset) = record {
  rows = take size (drop offset (filter (is_listed down.access us r kind) ns));
  unread =
      scan_or down.unread 0
        (some (count (λ n. not n.is_read && is_visible down.access_again us r n) ns));
  total = scan_or down.total 0 (some (length (filter (is_listed down.access us r kind) ns)));
}

unfoldable pub list_notifications :
    ListFaults → List Member → List Notice → Caller → (kind : String) → (page size : ℤ) → Listing
unfolding listing_from query_row page_number page_size page_offset
list_notifications down us ns r kind page size =
    listing_from down us ns r kind (page_size size)
      (query_row down.rows (page_offset (page_number page) (page_size size)))

mark_read : Notice → Notice
mark_read n = record n { is_read = true }

-- `down_access` and `down_write` say which of the two statements fail.
unfoldable pub read_all_notifications :
    (down_access down_write : Bool) → List Member → Caller → List Notice → List Notice
unfolding is_visible exec mark_read
read_all_notifications down_access down_write us r ns =
    exec down_write (update_where (is_visible down_access us r) mark_read) ns

unfoldable pub clear_notifications :
    (down_access down_write : Bool) → List Member → Caller → List Notice → List Notice × Bool
unfolding is_visible exec
clear_notifications down_access down_write us r ns =
    (exec down_write (filter (λ n. not (is_visible down_access us r n))) ns, not down_write)

-- ReadNotification and DeleteNotification: the new rows, and whether the reply is 403.
unfoldable pub read_notification :
    (d e down : Bool) → List Member → Caller → String → List Notice → List Notice × Bool
unfolding exec mark_read
read_notification d e down us r nid ns =
    if not (can_touch_notification d e us ns r nid)
    then (ns, true)
    else (exec down (update_where (λ n. n.id == nid) mark_read) ns, false)

unfoldable pub delete_notification :
    (d e down : Bool) → List Member → Caller → String → List Notice → List Notice × Bool
unfolding exec
delete_notification d e down us r nid ns =
    if not (can_touch_notification d e us ns r nid)
    then (ns, true)
    else (exec down (filter (λ n. not (n.id == nid))) ns, false)
