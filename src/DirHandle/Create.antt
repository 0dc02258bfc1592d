-- ===== src/DirHandle/Create.antt =====
-- lib/dir_handle.cc: making, removing and renaming directories.
pub mod Root
use blockfs.Prelude.{
  ℕ, List, none, some, Bool, true, false, ◌||◌, ◌&&◌, ltb, if◌then◌else◌, not, nat_eq,
  bytes_eq_inst,
}
use blockfs.Prelude.Map.{find}
use blockfs.Paths.{get_dir_name, ends_with_slash, pop_back}
use blockfs.Directory.{
  set_dir_name, write_dir_meta, suicide, child_count, add_child_directory, remove_child_directory,
}
use blockfs.DirHandle.{
  is_mount_point, transform_path, get_created_directory, get_created_directory_by_dh, new_directory,
  add_directory, find_directory, remove_directory, add_directory_to_created,
  remove_directory_from_created,
}
use blockfs.FileHandle.{get_created_file}
use blockfs.State.{
  Action, ◌>>=◌, ◌>>◌, pure, fail, fail_with, gets, modify, attempt, fail_if, or_fail_with,
  set_errno, dir_meta, on_dir_meta, eexist, enotdir, enoent, ebusy, eperm_or_ebusy,
  enotempty_or_eexist,
}

-- A path without the separator at its end.
abbrev without_slash : List ℕ → List ℕ
without_slash path = if ends_with_slash path then pop_back path else path

-- Fails with an error number if a file has this path.
unfoldable pub refuse_file : List ℕ → ℕ → Action (Unit {0})
refuse_file path e = do
  found ← attempt (get_created_file path)
  elim found [ none ↦ pure tt | some _ ↦ fail_with e ]

-- `CheckFileExist`: a failure says that the path, or its parent, is a file.
unfoldable pub check_file_exist : List ℕ → Bool → Action (Unit {0})
check_file_exist dirname check_parent =
    if is_mount_point dirname
    then pure tt
    else (refuse_file (without_slash dirname) (if check_parent then eexist else enotdir)
        >> (if not (is_mount_point (get_dir_name dirname)) && check_parent
            then refuse_file (without_slash (get_dir_name dirname)) enotdir
            else pure tt))

-- Three attempts at the record.
unfoldable pub write_dir_meta_retry : ℕ → Action (Unit {0})
write_dir_meta_retry d = do
  first ← attempt (write_dir_meta d)
  elim first [
    | some _ ↦ pure tt
    | none ↦ (do
      second ← attempt (write_dir_meta d)
      elim second [ some _ ↦ pure tt | none ↦ write_dir_meta d ])
  ]

-- `CreateDirectory`.
unfoldable pub create_directory : List ℕ → Action (Unit {0})
create_directory path = do
  check_file_exist path true
  dir_name ← transform_path path
  (parent, d) ← new_directory dir_name
  write_dir_meta_retry d
  add_directory parent d
  set_errno 0

-- The two tests of a directory that is to go.
abbrev check_removable : ℕ → Action (Unit {0})
check_removable d = do
  o ← gets (λ s. s.directories d)
  fail_if (ltb 0 (child_count o)) enotempty_or_eexist
  fail_if (ltb 0 o.nlink) ebusy

-- `DeleteDirectory(path, recursive)`; `recursive` is not used.
unfoldable pub delete_directory : List ℕ → Action (Unit {0})
delete_directory path = do
  check_file_exist path false
  dir_name ← transform_path path
  fail_if (is_mount_point path) eperm_or_ebusy
  (parent, d) ← find_directory dir_name
  check_removable d
  suicide d
  remove_directory parent d
  set_errno 0

-- `DeleteDirectoryNolock(dh)`: the times change before the tests.
unfoldable delete_directory_by_dh : ℕ → Action (Unit {0})
delete_directory_by_dh dh = do
  found ← attempt (get_created_directory_by_dh dh)
  d ← or_fail_with found enoent
  modify λ s. on_dir_meta d (λ m. record m { mtime = s.now; ctime = s.now }) s
  check_removable d
  suicide d
  name ← gets (λ s. (dir_meta d s).dir_name)
  m ← gets (λ s. s.dir_handle.created_dirs)
  parent ← or_fail_with (find (get_dir_name name) m) enoent
  remove_child_directory parent d
  remove_directory_from_created d
  set_errno 0

-- `Directory::rename`: this directory's own entries and record move; those below it do not.
unfoldable pub rename_dir_object : ℕ → List ℕ → Action (Unit {0})
rename_dir_object d to = do
  new_parent ← get_created_directory (get_dir_name to)
  name ← gets (λ s. (dir_meta d s).dir_name)
  old_parent ← get_created_directory (get_dir_name name)
  attempt (remove_child_directory old_parent d)
  remove_directory_from_created d
  modify (on_dir_meta d (set_dir_name to))
  attempt (add_directory_to_created d)
  attempt (add_child_directory new_parent d)
  write_dir_meta d

-- `RenameDirectory`. The number that `rename` returns is 0 on success, and is tested as if it were
-- a truth value.
unfoldable pub rename_directory : List ℕ → List ℕ → Action (Unit {0})
rename_directory from to = do
  check_file_exist to true
  fail_if (is_mount_point from || is_mount_point to) eperm_or_ebusy
  from_dir_name ← transform_path from
  to_dir_name ← transform_path to
  (_, d) ← find_directory from_dir_name
  renamed ← attempt (rename_dir_object d to_dir_name)
  elim renamed [ some _ ↦ fail | none ↦ set_errno 0 ]
