-- ===== src/FileHandle/Create.antt =====
-- lib/file_handle.cc: creating and unlinking files.
use blockfs.Prelude.{ℕ, List, [], none, some, Bool, true, not, if◌then◌else◌}
use blockfs.File.{write_file_meta, remove_all_file_block, release_file}
use blockfs.DirHandle.{get_created_directory, get_created_directory_by_dh}
use blockfs.FileHandle.{
  transform_path, new_file, add_file_to_directory, remove_file_from_directory, find_file,
  get_created_file_by_fh,
}
use blockfs.State.{
  Action, ◌>>=◌, ◌>>◌, pure, fail_with, gets, modify, attempt, check, or_fail_with, set_errno,
  is_positive, on_file, on_file_meta, file_meta, enoent, eisdir,
}

-- `CreateFile`: for a temporary file the path is that of the directory.
unfoldable pub create_file : List ℕ → Bool → Action ℕ
create_file filename tmpfile = do
  (dirname, name) ← (if tmpfile then pure (filename, []) else transform_path filename)
  (dir, file) ← new_file dirname name tmpfile
  write_file_meta file
  add_file_to_directory dir file
  set_errno 0
  pure file

-- What `unlink` and `UnlinkFileNolock` do to a file that nobody has open.
abbrev pub remove_file_for_good : ℕ → ℕ → Action (Unit {0})
remove_file_for_good dir file = do
  remove_all_file_block file
  release_file file
  remove_file_from_directory dir file
  set_errno 0

-- `UnlinkFileNolock(fh)`.
unfoldable pub unlink_by_fh : ℕ → Action (Unit {0})
unlink_by_fh fh = do
  found ← attempt (get_created_file_by_fh fh)
  file ← or_fail_with found enoent
  dh ← gets (λ s. (file_meta file s).dh)
  parent ← attempt (get_created_directory_by_dh dh)
  dir ← or_fail_with parent eisdir
  modify λ s. on_file_meta file (λ m. record m { mtime = s.now; ctime = s.now }) s
  nlink ← gets (λ s. (s.files file).nlink)
  check (not (is_positive nlink))
  remove_file_for_good dir file

-- `unlink(filename)`: a file that is open is only marked.
unfoldable pub unlink : List ℕ → Action (Unit {0})
unlink filename = do
  directory ← attempt (get_created_directory filename)
  elim directory [ some _ ↦ fail_with eisdir | none ↦ pure tt ]
  (dirname, name) ← transform_path filename
  (dir, file) ← find_file dirname name
  nlink ← gets (λ s. (s.files file).nlink)
  if is_positive nlink
      then modify (on_file file λ o. record o { deleted = true })
      else remove_file_for_good dir file
