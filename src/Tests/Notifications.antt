-- ===== src/Tests/Notifications.antt =====
-- The notifications of a small installation.
use lambs_server.Base.{◌≤◌, ◌≡◌, true, false, List, [], ◌∷◌, All, length}
use lambs_server.Base.Text.{pos}
use lambs_server.Access.{Member, Caller, Notice}
use lambs_server.Notifications.{is_visible, list_notifications}
use lambs_server.Notifications.Visibility.{list_notifications-visible}
use lambs_server.Notifications.Clearing.{list_up}

abbrev users : List Member
users = record { id = "u3"; role = "viewer"; project_access = "p1" ∷ [] } ∷ []

abbrev viewer : Caller
viewer = record { user_id = "u3"; role = "viewer" }

abbrev notices : List Notice
notices =
    record { id = "n3"; project_id = "p2"; kind = "alert"; is_read = false }
    ∷ record { id = "n2"; project_id = "p1"; kind = "status"; is_read = false }
    ∷ record { id = "n1"; project_id = ""; kind = "system"; is_read = true }
    ∷ []

list_notifications-visible_example :
    All
      (λ n. is_visible false users viewer n ≡ true)
      (list_notifications list_up users notices viewer "alert" (pos 1) (pos 900)).rows
    × (length (list_notifications list_up users notices viewer "alert" (pos 1) (pos 900)).rows ≤ 50)
list_notifications-visible_example =
    list_notifications-visible list_up users notices viewer "alert" (pos 1) (pos 900)
