-- ===== src/Policy.antt =====
-- internal/policy/document.go: the policy document and its edits.
pub mod Tree
pub mod Document
pub mod Sections
pub mod Approvers
pub mod Reading
pub mod Change
pub mod Examples
