-- ===== src/Types/Folder.antt =====
-- A folder as the server sends it.
use lesspaper_ngl.Prelude.{Bool, Eq, Option, String, false, nat_eq, option_eq, text_eq, true, ℕ}

pub data FolderKind : Type 0 where
  root inbox trash normal : FolderKind

abbrev folder_kind_beq : FolderKind → FolderKind → Bool
folder_kind_beq FolderKind.root FolderKind.root = true
folder_kind_beq FolderKind.inbox FolderKind.inbox = true
folder_kind_beq FolderKind.trash FolderKind.trash = true
folder_kind_beq FolderKind.normal FolderKind.normal = true
folder_kind_beq _ _ = false

instance abbrev pub folder_kind_eq : Eq FolderKind
folder_kind_eq = record { beq = folder_kind_beq }

pub record Folder : Type 0 where
  pub id : String
  pub name : String
  pub parent_id : Option String
  pub kind : FolderKind
  pub sort_order : ℕ
  pub path_cache : String
  pub is_trashed : Option Bool
  pub trashed_at : Option String
  pub purge_after : Option String
  pub created_at : String
  pub updated_at : String
  pub children_count : ℕ
  pub document_count : ℕ
