-- ===== src/Gate.antt =====
-- internal/gate/gate.go: whether a path belongs to a project that is offline or in maintenance.
pub mod Paths
pub mod Like
use mathlib.Core.Option
use lambs_server.Base.{
  ℕ, Bool, true, false, not, ◌&&◌, ◌||◌, String, Option, none, some, List, [], ◌∷◌, ◌++◌, find,
  if◌then◌else◌, ◌==◌, string_eq, text_eq, nat_eq,
}
use lambs_server.Base.Text.{Text, codes, has_prefix, trim_prefix, split}
use lambs_server.Store.{Project, scan_or}

unfoldable pub gate_path_matches : Text → Text → Bool
gate_path_matches path bp =
    path == bp || (has_prefix path (bp ++ codes "/") || has_prefix path (bp ++ codes "?"))

-- A character that `LIKE` reads as more than itself.
unfoldable pub is_wildcard : ℕ → Bool
is_wildcard c = c == b'\\' || (c == b'%' || c == b'_')

unfoldable pub escape_like : Text → Text
unfolding is_wildcard
escape_like [] = []
escape_like (c ∷ s) =
    let rest = escape_like s in if is_wildcard c then b'\\' ∷ c ∷ rest else c ∷ rest

pub data GateReply : Type 0 where
  allowed unavailable blocked_offline blocked_maintenance : GateReply

-- The loop over the rows.
unfoldable pub check_rows : Text → List Project → GateReply
check_rows path [] = allowed
check_rows path (p ∷ ps) =
    let rest = check_rows path ps in
    if gate_path_matches path p.base_path
    then (if p.status == "offline"
        then blocked_offline
        else if p.status == "maintenance"
        then blocked_maintenance
        else rest)
    else rest

-- The rows with a base path.
unfoldable pub with_path : List Project → List Project
with_path [] = []
with_path (p ∷ ps) = let rest = with_path ps in if p.base_path == [] then rest else p ∷ rest

unfoldable pub handle_check : (down : Bool) → Text → List Project → GateReply
handle_check down path ps =
    if path == [] || path == codes "/"
    then allowed
    else if down
    then unavailable
    else check_rows path (with_path ps)

-- The first segment of the original URI.
first_of : List Text → Text
first_of [] = []
first_of (x ∷ xs) = x

unfoldable pub page_path : Text → Text
unfolding first_of
page_path uri = first_of (split b'/' (trim_prefix uri (codes "/")))

-- The pattern of the query of HandleOfflinePage.
unfoldable pub page_pattern : Text → Text
page_pattern path = codes "/" ++ (escape_like path ++ codes "%")

-- The row that HandleOfflinePage shows, where `like` is the database's LIKE with the escape `\`.
unfoldable pub page_row :
    (Text → Text → Bool) → (down : Bool) → Text → List Project → Option Project
page_row like down uri ps =
    if down then none else find (λ p. like (page_pattern (page_path uri)) p.base_path) ps
