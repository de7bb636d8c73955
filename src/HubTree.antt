-- ===== src/HubTree.antt =====
-- internal/hubtree/hubtree.go: the complete walk of a repository tree.
pub mod Links
pub mod Covered
pub mod Wait
pub mod Paths
pub mod Walk
mod Examples
