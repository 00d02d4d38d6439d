-- ===== src/Tests/Access.antt =====
-- Grants of projects and notifications of a small installation.
use lambs_server.Base.{false, List, [], ◌∷◌, string_eq}
use lambs_server.Access.{Member, Caller, Notice}

abbrev members : List Member
members =
    record { id = "u1"; role = "super_admin"; project_access = [] }
    ∷ record { id = "u2"; role = "project_admin"; project_access = "p1" ∷ [] }
    ∷ record { id = "u3"; role = "viewer"; project_access = "p1" ∷ "p2" ∷ [] }
    ∷ []

abbrev admin : Caller
admin = record { user_id = "u2"; role = "project_admin" }

abbrev viewer : Caller
viewer = record { user_id = "u3"; role = "viewer" }

abbrev notices : List Notice
notices = record { id = "n1"; project_id = "p2"; kind = "alert"; is_read = false } ∷ []
