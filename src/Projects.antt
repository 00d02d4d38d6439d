-- ===== src/Projects.antt =====
-- internal/handlers/projects.go: the datasources of a project, its status, its deletion, its order
-- in the list, the update of its row, its machine and its creation.
pub mod Sources
pub mod Lifecycle
pub mod Update
pub mod Hosts
pub mod Creation
