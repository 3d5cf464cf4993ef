-- ===== src/Client/Upload.antt =====
-- Uploads: the entries of a selection or a drop (uploadTree.ts), and the loop of `useDocumentUploader`
-- (upload.ts) that sends them and counts what becomes of them.
pub mod Laws
pub mod Tree
use mathlib.Core.Option
use lesspaper_ngl.Client.Http.{Result, duplicate}
use lesspaper_ngl.Prelude.{
  Bool, List, Option, String, [], any, if◌then◌else◌, is_some, length, ltb, map, nat_eq, none,
  nonempty, not, option_eq, or_default, or_text, some, text_eq, truthy, ℕ, ◌++◌, ◌+◌, ◌==◌, ◌||◌,
  ◌∷◌,
}
use lesspaper_ngl.Prelude.Texts.{includes_char, replace_char, template, trim}
use lesspaper_ngl.Types.Json.{Json, as_text, get_field}

-- A `File`: its name, and `webkitRelativePath`, which may be missing.
pub record File : Type 0 where
  pub name : String
  pub webkit_relative_path : Option String

pub record UploadEntry : Type 0 where
  pub file : File
  pub relative_path : String

unfoldable pub join_path : String → String → String
join_path prefix name = if nonempty prefix then template (prefix ∷ "/" ∷ name ∷ []) else name

-- `webkitRelativePath?.trim() || file.name`
unfoldable pub path_of_file : File → String
path_of_file file = or_text (or_default (Option.map trim file.webkit_relative_path) "") file.name

-- `replace(/\\/g, "/")`
unfoldable pub forward_slashes : String → String
forward_slashes s = replace_char 92 "/" s

unfoldable pub entries_from_file_list : List File → List UploadEntry
entries_from_file_list files =
    map (λ f. record { file = f; relative_path = forward_slashes (path_of_file f) }) files

unfoldable pub is_tree_upload : List UploadEntry → Bool
is_tree_upload entries = any (λ e. includes_char 47 e.relative_path) entries

-- An entry of a file system. `file` may reject. A directory gives its children by batches, until an
-- empty one, or until reading rejects.
mutual
  pub data Entry : Type 0 where
    file_entry : String → Option File → Entry
    directory : String → Batches → Entry
    other : String → Entry

  pub data Batches : Type 0 where
    empty rejected : Batches
    batch : Entry → Entries → Batches → Batches

  pub data Entries : Type 0 where
    nil : Entries
    cons : Entry → Entries → Entries

-- `readDirectoryEntry` and its two loops: `none` where it throws. `out` is the array that it extends.
unfoldable mutual
  pub read_directory_entry : Batches → String → List UploadEntry → Option (List UploadEntry)
  read_directory_entry Batches.empty prefix out = some out
  read_directory_entry Batches.rejected prefix out = none
  read_directory_entry (Batches.batch e es rest) prefix out =
      Option.bind (read_child e prefix out) λ out2.
        Option.bind (read_children es prefix out2) λ out3. read_directory_entry rest prefix out3

  pub read_child : Entry → String → List UploadEntry → Option (List UploadEntry)
  read_child (Entry.file_entry name none) prefix out = none
  read_child (Entry.file_entry name (some f)) prefix out =
      some (out ++ record { file = f; relative_path = join_path prefix name } ∷ [])
  read_child (Entry.directory name batches) prefix out =
      read_directory_entry batches (join_path prefix name) out
  read_child (Entry.other name) prefix out = some out

  pub read_children : Entries → String → List UploadEntry → Option (List UploadEntry)
  read_children Entries.nil prefix out = some out
  read_children (Entries.cons e es) prefix out =
      Option.bind (read_child e prefix out) λ out2. read_children es prefix out2

pub data PendingItem : Type 0 where
  file_item : File → String → PendingItem
  directory_item : Batches → String → PendingItem

-- An item of a drop: `kind`, what `webkitGetAsEntry` and `getAsFile` give.
pub record DropItem : Type 0 where
  pub is_file_kind : Bool
  pub entry : Option Entry
  pub file : Option File

unfoldable pub capture_item : DropItem → List PendingItem
capture_item item = if not item.is_file_kind then [] else elim item.entry [
  | none ↦ []
  | some (Entry.file_entry name _) ↦ elim item.file [
    | none ↦ []
    | some f ↦ PendingItem.file_item f (path_of_file f) ∷ []
  ]
  | some (Entry.directory name batches) ↦ PendingItem.directory_item batches name ∷ []
  | some (Entry.other name) ↦ []
]

unfoldable pub capture_items : List DropItem → List PendingItem
capture_items [] = []
capture_items (item ∷ items) = capture_item item ++ capture_items items

-- The items are read only where the browser has `webkitGetAsEntry`.
unfoldable pub capture_data_transfer_items : Bool → List DropItem → List File → List PendingItem
capture_data_transfer_items has_entries items files =
    let pending = if has_entries then capture_items items else [] in
    if length pending == 0
    then map (λ f. PendingItem.file_item f (path_of_file f)) files
    else pending

unfoldable pub resolve_pending_items :
    List PendingItem → List UploadEntry → Option (List UploadEntry)
resolve_pending_items [] out = some out
resolve_pending_items (PendingItem.file_item f path ∷ pending) out =
    resolve_pending_items pending
      (out ++ record { file = f; relative_path = forward_slashes path } ∷ [])
resolve_pending_items (PendingItem.directory_item batches prefix ∷ pending) out =
    Option.bind (read_directory_entry batches prefix out) λ out2. resolve_pending_items pending out2

pub record UploadBatchSummary : Type 0 where
  pub created : ℕ
  pub duplicates : ℕ
  pub failed : ℕ
  pub total : ℕ
  pub errors : List String

unfoldable pub empty_summary : ℕ → UploadBatchSummary
empty_summary total = record { created = 0; duplicates = 0; failed = 0; total = total; errors = [] }

-- What `uploadOne` comes to: it returns, or throws an error with a message.
pub data UploadOutcome : Type 0 where
  created duplicate_found : UploadOutcome
  failed : String → UploadOutcome

abbrev is_duplicate_status : Option Json → Bool
is_duplicate_status status = as_text status == some "duplicate"

-- the engine's messages of a `TypeError`: of `in`, where its operand is no object, and of `String`, where
-- an object cannot be written as a text
pub record TypeErrors : Type 0 where
  pub no_object : String
  pub no_text : String

-- `isDuplicateResult`, and the `catch` of `uploadOne`
unfoldable pub outcome_of_result : TypeErrors → Result → UploadOutcome
outcome_of_result engine (Result.returned (some (Json.object fields))) =
    if is_duplicate_status (get_field fields "status")
    then UploadOutcome.duplicate_found
    else UploadOutcome.created
outcome_of_result engine (Result.returned (some (Json.array vs))) = UploadOutcome.created
outcome_of_result engine (Result.returned _) = UploadOutcome.failed engine.no_object
outcome_of_result engine (Result.failed e) =
    if is_some (duplicate e) then UploadOutcome.duplicate_found else UploadOutcome.failed e.message
outcome_of_result engine (Result.thrown message) = UploadOutcome.failed message
outcome_of_result engine Result.type_error = UploadOutcome.failed engine.no_text

-- The fields of the form, a file by its name.
unfoldable pub upload_form : UploadEntry → Option String → Bool → List (String × String)
upload_form entry folder_id skip_duplicates =
    ("file", entry.file.name)
      ∷ (if truthy folder_id then ("folder_id", or_default folder_id "") ∷ [] else [])
    ++ (if includes_char 47 entry.relative_path
        then ("relative_path", entry.relative_path) ∷ []
        else [])
    ++ (if skip_duplicates then ("on_duplicate", "skip") ∷ [] else [])

unfoldable pub error_line : String → String → String
error_line path message = template (path ∷ ": " ∷ message ∷ [])

unfoldable pub count_outcome : UploadEntry → UploadOutcome → UploadBatchSummary → UploadBatchSummary
count_outcome entry UploadOutcome.created s = record s { created = s.created + 1 }
count_outcome entry UploadOutcome.duplicate_found s = record s { duplicates = s.duplicates + 1 }
count_outcome entry (UploadOutcome.failed message) s = record s {
  failed = s.failed + 1;
  errors = s.errors ++ error_line entry.relative_path message ∷ [];
}

-- `api.upload("/api/documents/upload", form)` is a parameter: a client that keeps a state.
module _ {S : Type 0} (engine : TypeErrors) (send : S → List (String × String) → Result × S) where
  unfoldable pub upload_one : UploadEntry → Option String → Bool → S → UploadOutcome × S
  upload_one entry folder_id skip_duplicates s =
      let (result, s2) = send s (upload_form entry folder_id skip_duplicates) in
      (outcome_of_result engine result, s2)

  unfoldable pub upload_loop :
      List UploadEntry → Option String → Bool → S × UploadBatchSummary → S × UploadBatchSummary
  upload_loop [] folder_id skip_duplicates st = st
  upload_loop (entry ∷ entries) folder_id skip_duplicates st =
      let (outcome, s) = upload_one entry folder_id skip_duplicates st.0 in
      upload_loop entries folder_id skip_duplicates (s, count_outcome entry outcome st.1)

  unfoldable pub upload_entries : List UploadEntry → Option String → S → S × UploadBatchSummary
  upload_entries entries folder_id s =
      upload_loop entries folder_id (is_tree_upload entries || ltb 1 (length entries))
        (s, empty_summary (length entries))
