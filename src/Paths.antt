-- ===== src/Paths.antt =====
-- lib/comm_utils.h and the path helpers of the two handles. A path is the list of its bytes.
pub mod Laws
use blockfs.Prelude.{
  ℕ, ◌+◌, ◌-◌, ◌*◌, ◌/◌, List, [], ◌∷◌, ◌++◌, Bool, true, false, ◌==◌, if◌then◌else◌, bytes_eq,
}

-- The macros ALIGN_UP (which counts units) and ROUND_UP (which gives bytes).
abbrev pub align_up : ℕ → ℕ → ℕ
align_up size align = (size + (align - 1)) / align

abbrev pub round_up : ℕ → ℕ → ℕ
round_up size align = (size + (align - 1)) / align * align

abbrev pub slash : ℕ
slash = b'/'

abbrev pub root_path : List ℕ
root_path = slash ∷ []

-- Whether a byte string holds a separator.
abbrev pub has_slash : List ℕ → Bool
has_slash [] = false
has_slash (c ∷ cs) = if c == slash then true else has_slash cs

-- What follows the last separator; the whole string where there is none (`rfind`, `substr`).
unfoldable pub get_file_name : List ℕ → List ℕ
get_file_name [] = []
get_file_name (c ∷ cs) =
    let rest = get_file_name cs in if has_slash cs then rest else if c == slash then cs else c ∷ cs

-- `path.back() == '/'`; an empty path has no separator at its end.
unfoldable pub ends_with_slash : List ℕ → Bool
ends_with_slash [] = false
ends_with_slash (c ∷ []) = c == slash
ends_with_slash (c ∷ d ∷ cs) = ends_with_slash (d ∷ cs)

-- `path.pop_back()`.
unfoldable pub pop_back : List ℕ → List ℕ
pop_back [] = []
pop_back (c ∷ []) = []
pop_back (c ∷ d ∷ cs) = c ∷ pop_back (d ∷ cs)

-- The bytes before the last separator, and none where there is no separator.
unfoldable pub before_last_slash : List ℕ → List ℕ
before_last_slash [] = []
before_last_slash (c ∷ cs) =
    let rest = c ∷ before_last_slash cs in if has_slash cs then rest else []

-- Drops the separators at the end of a string, but for a string of separators alone.
unfoldable pub strip_slashes : List ℕ → List ℕ
strip_slashes [] = []
strip_slashes (c ∷ cs) = elim (strip_slashes cs) [
  | [] ↦ if c == slash then [] else c ∷ []
  | d ∷ ds ↦ c ∷ d ∷ ds
]

-- `fs::path(p).parent_path().string()`: the path up to the last component, without the separators
-- between them; the root where only separators stand before the component.
unfoldable pub parent_path : List ℕ → List ℕ
parent_path p =
    if has_slash p
    then (elim (strip_slashes (before_last_slash p)) [ [] ↦ root_path | d ∷ ds ↦ d ∷ ds ])
    else []

-- The directory part, with a separator at its end; the root is its own.
unfoldable pub get_dir_name : List ℕ → List ℕ
get_dir_name path =
    if bytes_eq path root_path
    then path
    else let tmp = if ends_with_slash path then pop_back path else path in
      let parent = parent_path tmp in
      if bytes_eq parent root_path then parent else parent ++ root_path
