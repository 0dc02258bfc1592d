-- ===== src/Paths/Laws.antt =====
-- The two halves of a path (lib/file_handle.cc and lib/dir_handle.cc).
use blockfs.Prelude.{
  ℕ, ◌≡◌, ◌≢◌, refl, ◌∙◌, List, [], ◌∷◌, ◌++◌, true, false, bytes_eq, arith, append_assoc,
}
use mathlib.Core.Path.{ap₂}
use blockfs.Paths.{
  slash, root_path, has_slash, get_file_name, ends_with_slash, before_last_slash, strip_slashes,
  parent_path, get_dir_name,
}

-- The name of a file never holds a separator.
get_file_name-has_slash : (path : List ℕ) → has_slash (get_file_name path) ≡ false
unfolding get_file_name
get_file_name-has_slash [] = refl
get_file_name-has_slash (c ∷ cs) = ground (arith, get_file_name-has_slash cs)

has_slash-append : (dir name : List ℕ) → has_slash (dir ++ slash ∷ name) ≡ true
has_slash-append [] name = refl
has_slash-append (c ∷ cs) name = ground (arith, has_slash-append cs name)

get_file_name-append :
    (dir name : List ℕ) → has_slash name ≡ false → get_file_name (dir ++ slash ∷ name) ≡ name
unfolding get_file_name
get_file_name-append [] name h = rw h
get_file_name-append (c ∷ cs) name h = rw (has_slash-append cs name, get_file_name-append cs name h)

before_last_slash-append :
    (dir name : List ℕ) → has_slash name ≡ false → before_last_slash (dir ++ slash ∷ name) ≡ dir
unfolding before_last_slash
before_last_slash-append [] name h = rw h
before_last_slash-append (c ∷ cs) name h =
    rw (has_slash-append cs name, before_last_slash-append cs name h)

ends_with_slash-has_slash : (name : List ℕ) → has_slash name ≡ false → ends_with_slash name ≡ false
unfolding ends_with_slash
ends_with_slash-has_slash [] h = refl
ends_with_slash-has_slash (c ∷ []) h = ground arith
ends_with_slash-has_slash (c ∷ d ∷ cs) h = ends_with_slash-has_slash (d ∷ cs) (ground arith)

ends_with_slash-append :
    (dir : List ℕ) (c : ℕ) (cs : List ℕ)
    → ends_with_slash (dir ++ c ∷ cs) ≡ ends_with_slash (c ∷ cs)
unfolding ends_with_slash
ends_with_slash-append [] c cs = refl
ends_with_slash-append (x ∷ []) c cs = refl
ends_with_slash-append (x ∷ y ∷ xs) c cs = ends_with_slash-append (y ∷ xs) c cs

strip_slashes-ends_with_slash :
    (dir : List ℕ) → ends_with_slash dir ≡ false → strip_slashes dir ≡ dir
unfolding strip_slashes ends_with_slash
strip_slashes-ends_with_slash [] h = refl
strip_slashes-ends_with_slash (c ∷ []) h = rw h
strip_slashes-ends_with_slash (c ∷ d ∷ cs) h = rw (strip_slashes-ends_with_slash (d ∷ cs) h)

not_root :
    (c : ℕ) (cs : List ℕ) (d : ℕ) (ds : List ℕ) → bytes_eq (c ∷ cs ++ d ∷ ds) root_path ≡ false
not_root c [] d ds = ground arith
not_root c (x ∷ cs) d ds = ground arith

not_root_dir :
    (c : ℕ) (cs : List ℕ) → ends_with_slash (c ∷ cs) ≡ false → bytes_eq (c ∷ cs) root_path ≡ false
unfolding ends_with_slash
not_root_dir c [] h = ground arith
not_root_dir c (d ∷ cs) h = ground arith

-- A path `dir/name`, where the directory is not the root and ends in no separator and the name is
-- not empty and holds none, is taken apart into `dir/` and `name`; the two together are the path.
get_dir_name-get_file_name :
    (dir name : List ℕ)
    → dir ≢ []
    → ends_with_slash dir ≡ false
    → name ≢ []
    → has_slash name ≡ false
    → let path = dir ++ slash ∷ name in
      (get_dir_name path ≡ dir ++ slash ∷ [])
      × (get_file_name path ≡ name)
      × (get_dir_name path ++ get_file_name path ≡ path)
unfolding get_dir_name parent_path
get_dir_name-get_file_name [] name some_dir tail some_name plain = absurd (some_dir refl)
get_dir_name-get_file_name dir [] some_dir tail some_name plain = absurd (some_name refl)
get_dir_name-get_file_name (c ∷ cs) (n ∷ ns) some_dir tail some_name plain =
    (front, back, ap₂ ◌++◌ front back ∙ append_assoc (c ∷ cs) (slash ∷ []) (n ∷ ns))
  where
    path : List ℕ
    path = c ∷ cs ++ slash ∷ n ∷ ns

    keeps : ends_with_slash path ≡ false
    keeps =
        ends_with_slash-append (c ∷ cs) slash (n ∷ ns)
        ∙ ends_with_slash-append (slash ∷ []) n ns
        ∙ ends_with_slash-has_slash (n ∷ ns) plain

    front : get_dir_name path ≡ c ∷ cs ++ slash ∷ []
    front = rw (
      not_root c cs slash (n ∷ ns),
      keeps,
      has_slash-append (c ∷ cs) (n ∷ ns),
      before_last_slash-append (c ∷ cs) (n ∷ ns) plain,
      strip_slashes-ends_with_slash (c ∷ cs) tail,
      not_root_dir c cs tail,
    )

    back : get_file_name path ≡ n ∷ ns
    back = get_file_name-append (c ∷ cs) (n ∷ ns) plain
