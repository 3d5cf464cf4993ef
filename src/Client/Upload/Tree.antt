-- ===== src/Client/Upload/Tree.antt =====
-- Reading a dropped directory keeps its tree in the paths of the files.
use Prim.Native.String
use Prim.Native.String.{String, [], ◌∷◌}
use mathlib.Core.List.{List, [], ◌∷◌}
use text.Mathlib.TextLemmas.{cons-append}
use mathlib.Core.Option
use lesspaper_ngl.Client.Upload.{
  Batches, Entries, Entry, UploadEntry, is_tree_upload, join_path, read_child, read_children,
  read_directory_entry,
}
use lesspaper_ngl.Prelude.{
  Bool, Option, all, ap, arith, none, nonempty, refl, some, true, ◌++◌, ◌∙◌, ◌≡◌, ◌≢◌,
}
use lesspaper_ngl.Prelude.Texts.{cons-nonempty, includes_char, includes_char-append, template}
use mathlib.Core.Path.{subst}

slash_found : includes_char 47 "/" ≡ true
unfolding includes_char
slash_found = refl

slash-join_path :
    (prefix name : String)
    → nonempty prefix ≡ true
    → includes_char 47 (join_path prefix name) ≡ true
unfolding join_path template
slash-join_path prefix name h = rw h (
    includes_char-append 47 prefix _
    ∙ ground (arith, includes_char-append 47 "/" (String.◌++◌ name []), slash_found))

nonempty-join_path :
    (prefix name : String) → nonempty prefix ≡ true → nonempty (join_path prefix name) ≡ true
unfolding join_path template
nonempty-join_path [] name h = cc
nonempty-join_path (c ∷ s) name h = rw h (ap nonempty (cons-append c s _) ∙ cons-nonempty c _)

abbrev pub has_slash : UploadEntry → Bool
has_slash e = includes_char 47 e.relative_path

all-append_one :
    (out : List UploadEntry) (e : UploadEntry)
    → all has_slash out ≡ true
    → has_slash e ≡ true
    → all has_slash (out ++ e ∷ []) ≡ true
all-append_one [] e h k = ground arith
all-append_one (o ∷ out) e h k = ground (arith, all-append_one out e)

-- where reading does not throw, every path has a slash
abbrev Kept : Option (List UploadEntry) → Type 0
Kept none = Unit
Kept (some entries) = all has_slash entries ≡ true

Kept-bind :
    (o : Option (List UploadEntry)) (f : List UploadEntry → Option (List UploadEntry))
    → Kept o
    → ((out : List UploadEntry) → all has_slash out ≡ true → Kept (f out))
    → Kept (Option.bind o f)
unfolding Option.bind
Kept-bind none f h k = tt
Kept-bind (some out) f h k = k out h

mutual
  unfolding read_directory_entry

  Kept-read_directory_entry :
      (b : Batches) (prefix : String) (out : List UploadEntry)
      → nonempty prefix ≡ true
      → all has_slash out ≡ true
      → Kept (read_directory_entry b prefix out)
  Kept-read_directory_entry Batches.empty prefix out named h = h
  Kept-read_directory_entry Batches.rejected prefix out named h = tt
  Kept-read_directory_entry (Batches.batch e es rest) prefix out named h =
      Kept-bind (read_child e prefix out) _ (Kept-read_child e prefix out named h) λ out2 h2.
        Kept-bind (read_children es prefix out2) _ (Kept-read_children es prefix out2 named h2)
          λ out3. Kept-read_directory_entry rest prefix out3 named

  Kept-read_child :
      (e : Entry) (prefix : String) (out : List UploadEntry)
      → nonempty prefix ≡ true
      → all has_slash out ≡ true
      → Kept (read_child e prefix out)
  Kept-read_child (Entry.file_entry name none) prefix out named h = tt
  Kept-read_child (Entry.file_entry name (some f)) prefix out named h =
      all-append_one out _ h (slash-join_path prefix name named)
  Kept-read_child (Entry.directory name batches) prefix out named h =
      Kept-read_directory_entry batches (join_path prefix name) out
        (nonempty-join_path prefix name named) h
  Kept-read_child (Entry.other name) prefix out named h = h

  Kept-read_children :
      (es : Entries) (prefix : String) (out : List UploadEntry)
      → nonempty prefix ≡ true
      → all has_slash out ≡ true
      → Kept (read_children es prefix out)
  Kept-read_children Entries.nil prefix out named h = h
  Kept-read_children (Entries.cons e es) prefix out named h =
      Kept-bind (read_child e prefix out) _ (Kept-read_child e prefix out named h)
        λ out2. Kept-read_children es prefix out2 named

any_of_all :
    (entries : List UploadEntry)
    → all has_slash entries ≡ true
    → entries ≢ []
    → is_tree_upload entries ≡ true
unfolding is_tree_upload
any_of_all [] h ne = absurd (ne refl)
any_of_all (e ∷ entries) h ne = ground arith

-- Where a dropped directory with a name is read without an error and holds a file, the upload is one of
-- a tree, and the path of every file of it has a slash.
pub read_directory_entry-tree :
    (b : Batches) (prefix : String) (entries : List UploadEntry)
    → nonempty prefix ≡ true
    → read_directory_entry b prefix [] ≡ some entries
    → entries ≢ []
    → (all has_slash entries ≡ true) × (is_tree_upload entries ≡ true)
read_directory_entry-tree b prefix entries named e ne =
    let kept : all has_slash entries ≡ true =
      subst Kept e (Kept-read_directory_entry b prefix [] named refl) in
    (kept, any_of_all entries kept ne)
