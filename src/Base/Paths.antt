-- ===== src/Base/Paths.antt =====
-- `path.Clean` and `path.Join` on slash-separated paths.
use mathlib.Core.Bool.{Bool, true, false, not, ◌||◌}
use mathlib.Core.List.{List, [], ◌∷◌, ◌++◌, reverse}
use clickhouse_backup.Base.Tests.{if◌then◌else◌}
use clickhouse_backup.Base.Lists.{keep_if}
use clickhouse_backup.Base.Texts.{Text, codes, ◌==◌, has_prefix, split, join}

abbrev pub slash : Text
slash = codes "/"

abbrev pub is_empty : Text → Bool
is_empty [] = true
is_empty _ = false

-- `..` takes the last element away, and stays where there is none to take.
abbrev go_up : Bool → List Text → List Text
go_up rooted [] = if rooted then [] else codes ".." ∷ []
go_up rooted (last ∷ before) = if last == codes ".." then codes ".." ∷ last ∷ before else before

-- The elements of a clean path, from those read so far (the last one first).
clean_parts : Bool → List Text → List Text → List Text
clean_parts rooted [] done = reverse done
clean_parts rooted (part ∷ parts) done = clean_parts rooted parts (
    if is_empty part || part == codes "."
    then done
    else if part == codes ".."
    then go_up rooted done
    else part ∷ done)

abbrev of_parts : Bool → List Text → Text
of_parts true parts = slash ++ join slash parts
of_parts false [] = codes "."
of_parts false (part ∷ parts) = join slash (part ∷ parts)

-- `path.Clean(p)`
unfoldable pub clean : Text → Text
unfolding clean_parts ◌==◌ split join has_prefix
clean p = let rooted = has_prefix p slash in of_parts rooted (clean_parts rooted (split b'/' p) [])

-- `path.Join(elem...)`: empty elements are ignored.
unfoldable pub path_join : List Text → Text
unfolding clean join
path_join elems = elim (keep_if (λ e. not (is_empty e)) elems) [
  | [] ↦ []
  | e ∷ es ↦ clean (join slash (e ∷ es))
]

-- `path.Dir(p)`: what stands before the last slash, made clean.
abbrev without_last : List Text → List Text
without_last [] = []
without_last (part ∷ []) = []
without_last (part ∷ next ∷ parts) = part ∷ without_last (next ∷ parts)

abbrev dir_of_parts : List Text → Text
dir_of_parts [] = codes "."
dir_of_parts (part ∷ parts) = clean (join slash (part ∷ parts) ++ slash)

unfoldable pub path_dir : Text → Text
unfolding clean join split
path_dir p = dir_of_parts (without_last (split b'/' p))

-- `path.Base(p)`: the last element, without the slashes behind it.
abbrev last_full : List Text → Text → Text
last_full [] found = found
last_full (part ∷ parts) found = last_full parts (if is_empty part then found else part)

unfoldable pub path_base : Text → Text
unfolding split
path_base p = last_full (split b'/' p) (if is_empty p then codes "." else slash)
