-- ===== src/DirHandle.antt =====
-- lib/dir_handle.h and lib/dir_handle.cc: paths of directories, and the maps and the free list of
-- the handle. The children hold the operations of its users.
pub mod Create
pub mod Stream
pub mod Rename
pub mod Index
pub mod Mount
pub mod Formatted
use blockfs.Prelude.{
  ℕ, ◌+◌, ◌++◌, Option, List, [], ◌∷◌, none, some, Bool, true, leb, ◌||◌, ◌==◌, if◌then◌else◌,
  length, not, bytes_eq, nat_eq, bytes_eq_inst,
}
use blockfs.Prelude.Map.{find, contains, insert, erase, update}
use blockfs.Meta.{k_block_fs_max_dir_name_len}
use blockfs.Paths.{root_path, ends_with_slash, get_dir_name}
use blockfs.Directory.{set_dir_name, add_child_directory, remove_child_directory}
use blockfs.State.{
  Directory, Action, ok, ◌>>=◌, ◌>>◌, pure, fail_with, gets, modify, or_fail, or_fail_with, check,
  fail_if, dir_meta, on_dir_handle, on_dir_slot, enametoolong, enfile, einval, eexist, enoent,
}

abbrev pub is_mount_point : List ℕ → Bool
is_mount_point dirname = bytes_eq dirname root_path

-- The stored form of a directory's path ends with a separator.
abbrev pub with_slash : List ℕ → List ℕ
with_slash path = if ends_with_slash path then path else path ++ root_path

-- `TransformPath`.
unfoldable pub transform_path : List ℕ → Action (List ℕ)
transform_path path =
    let dir_name = with_slash path in
    if leb k_block_fs_max_dir_name_len (length dir_name)
    then fail_with enametoolong
    else pure dir_name

-- `GetCreatedDirectory(dh)`.
unfoldable pub get_created_directory_by_dh : ℕ → Action ℕ
get_created_directory_by_dh dh = do m ← gets (λ s. s.dir_handle.created_dhs); or_fail (find dh m)

-- `GetCreatedDirectory(dirname)`.
unfoldable pub get_created_directory : List ℕ → Action ℕ
get_created_directory dirname = do
  dir_name ← transform_path dirname
  m ← gets (λ s. s.dir_handle.created_dirs)
  or_fail (find dir_name m)

unfoldable pub get_open_directory : ℕ → Action ℕ
get_open_directory fd = do m ← gets (λ s. s.dir_handle.open_dirs); or_fail (find fd m)

-- A new object for a slot that is free and holds its own number.
unfoldable pub new_directory_object : ℕ → List ℕ → Action ℕ
new_directory_object dh dirname s =
    let d = s.next_directory in
    let object : Directory = record { meta = dh; nlink = 0; item_maps = []; child_dir_maps = [] } in
    ok d
      (record (on_dir_slot dh
        (λ m.
          set_dir_name dirname
            (record m { used = true; dh = dh; atime = s.now; mtime = s.now; ctime = s.now }))
        s) { directories = update s.directories d object; next_directory = d + 1 })

-- `NewFreeDirectoryNolock`: the slot leaves the free list last.
unfoldable pub new_free_directory : List ℕ → Action ℕ
new_free_directory dirname s = elim s.dir_handle.free_dhs [
  | [] ↦ fail_with enfile s
  | dh ∷ rest ↦
      let m = s.dir_handle.metas dh in
      if m.used || not (m.dh == dh)
      then fail_with einval s
      else (do
        d ← new_directory_object dh dirname
        modify (on_dir_handle λ h. record h { free_dhs = rest })
        pure d)
          s
]

-- The parent of a new directory; the mount point has none.
abbrev parent_of_new : List ℕ → Action (Option ℕ)
parent_of_new dirname = if is_mount_point dirname then pure none else (do
  m ← gets (λ s. s.dir_handle.created_dirs)
  parent ← or_fail_with (find (get_dir_name dirname) m) enoent
  pure (some parent))

-- `NewDirectory`: the parent, where there is one, and the new object.
unfoldable pub new_directory : List ℕ → Action (Option ℕ × ℕ)
new_directory dirname = do
  m ← gets (λ s. s.dir_handle.created_dirs)
  fail_if (contains dirname m) eexist
  parent ← parent_of_new dirname
  d ← new_free_directory dirname
  pure (parent, d)

-- `AddDirectory2CreateNolock`: both maps, or neither.
unfoldable pub add_directory_to_created : ℕ → Action (Unit {0})
add_directory_to_created child = do
  m ← gets (dir_meta child)
  h ← gets (λ s. s.dir_handle)
  check (not (contains m.dir_name h.created_dirs))
  check (not (contains m.dh h.created_dhs))
  modify (
      on_dir_handle λ h. record h {
        created_dirs = insert m.dir_name child h.created_dirs;
        created_dhs = insert m.dh child h.created_dhs;
      })

-- `RemoveDirectoryFromCreateNolock`: by name, then by handle.
unfoldable pub remove_directory_from_created : ℕ → Action (Unit {0})
remove_directory_from_created child = do
  m ← gets (dir_meta child)
  h ← gets (λ s. s.dir_handle)
  check (contains m.dir_name h.created_dirs)
  modify (on_dir_handle λ h. record h { created_dirs = erase m.dir_name h.created_dirs })
  check (contains m.dh h.created_dhs)
  modify (on_dir_handle λ h. record h { created_dhs = erase m.dh h.created_dhs })

-- `AddDirectory`: a directory that is no mount point also joins its parent.
unfoldable pub add_directory : Option ℕ → ℕ → Action (Unit {0})
add_directory none child = add_directory_to_created child
add_directory (some parent) child = do
  name ← gets (λ s. (dir_meta child s).dir_name)
  if is_mount_point name then pure tt else add_child_directory parent child
  add_directory_to_created child

-- `FindDirectory`: the parent and the directory itself.
unfoldable pub find_directory : List ℕ → Action (ℕ × ℕ)
find_directory dirname = do
  m ← gets (λ s. s.dir_handle.created_dirs)
  parent ← or_fail_with (find (get_dir_name dirname) m) enoent
  d ← or_fail_with (find dirname m) enoent
  pure (parent, d)

-- `RemoveDirectory`.
unfoldable pub remove_directory : ℕ → ℕ → Action (Unit {0})
remove_directory parent child = do
  remove_child_directory parent child
  remove_directory_from_created child
