-- ===== src/Folders.antt =====
-- The folder tree: `Descendants` is collectFolderAndDescendantIds of
-- frontend/src/components/documents/MoveToFolderDialog.tsx with the destinations that the dialog
-- offers, `Breadcrumbs` the path to a folder of Breadcrumbs.tsx, `Tree` the tree of the sidebar of
-- frontend/src/components/folders/FolderTree.tsx.
pub mod Descendants
pub mod Breadcrumbs
pub mod Tree
mod Examples
