-- ===== src/Inbox/Paths.antt =====
-- `isSystemInboxPath` of formatMeta.ts. The path is read as its code points.
--
-- Of the characters outside ASCII only U+0130 and U+212A have ASCII letters in their lower case: the
-- first brings a combining dot along and the second is a `k`, so that neither makes or spoils a match
-- with "inbox" and "documents", and lowering the ASCII letters is enough.
use Prim.Native.Char.{code}
use lesspaper_ngl.Prelude.{
  Bool, List, Option, String, [], false, if◌then◌else◌, map, nat_eq, none, nonempty, option_eq,
  some, text_eq, true, ℕ, ◌&&◌, ◌++◌, ◌==◌, ◌||◌, ◌∷◌,
}
use lesspaper_ngl.Prelude.Texts.{is_space, lower_code}

-- a text as its code points
abbrev pub codes : String → List ℕ
codes String.[] = []
codes (String.◌∷◌ c s) = code c ∷ codes s

-- `path.replace(/\s*\/\s*/g, "/")`: `held` are the spaces read since the last other character, and
-- `after` says that the last other character was a slash.
unfoldable pub tighten : List ℕ → Bool → List ℕ → List ℕ
tighten held after [] = held
tighten held after (c ∷ cs) =
    let slash = b'/' ∷ tighten [] true cs in
    let skipped = tighten held true cs in
    let kept = tighten (held ++ c ∷ []) false cs in
    let other = held ++ (c ∷ tighten [] false cs) in
    if c == b'/' then slash else if is_space c then (if after then skipped else kept) else other

-- `replace(/^\/+/, "")`
unfoldable pub drop_slashes : List ℕ → List ℕ
drop_slashes [] = []
drop_slashes (c ∷ cs) = let rest = drop_slashes cs in if c == b'/' then rest else c ∷ cs

abbrev close : ℕ → List ℕ → List ℕ
close c [] = if c == b'/' then [] else c ∷ []
close c (d ∷ ds) = c ∷ d ∷ ds

-- `replace(/\/+$/, "")`
unfoldable pub drop_end_slashes : List ℕ → List ℕ
drop_end_slashes [] = []
drop_end_slashes (c ∷ cs) = close c (drop_end_slashes cs)

abbrev pub codes_beq : List ℕ → List ℕ → Bool
codes_beq [] [] = true
codes_beq (c ∷ cs) (d ∷ ds) = c == d && codes_beq cs ds
codes_beq _ _ = false

-- `s.endsWith(t)`
unfoldable pub ends_with : List ℕ → List ℕ → Bool
ends_with [] t = codes_beq [] t
ends_with (c ∷ cs) t = codes_beq (c ∷ cs) t || ends_with cs t

unfoldable pub normalized : String → List ℕ
unfolding tighten drop_slashes drop_end_slashes is_space
normalized path = map lower_code (drop_end_slashes (drop_slashes (tighten [] false (codes path))))

-- `isSystemInboxPath(path)` on a path that is not null or empty
unfoldable pub names_inbox : List ℕ → Bool
unfolding ends_with
names_inbox p =
    codes_beq p (codes "inbox")
    || codes_beq p (codes "documents/inbox")
    || ends_with p (codes "/inbox")

unfoldable pub is_system_inbox_path : Option String → Bool
unfolding normalized names_inbox
is_system_inbox_path none = false
is_system_inbox_path (some path) = if nonempty path then names_inbox (normalized path) else false
