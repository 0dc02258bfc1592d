-- ===== src/File/Rename.antt =====
-- `File::rename` of lib/file.cc.
use blockfs.Prelude.{ℕ, List}
use blockfs.Paths.{get_dir_name, get_file_name}
use blockfs.Directory.{add_child_file, remove_child_file}
use blockfs.File.{set_file_name, update_time_stamp, write_file_meta}
use blockfs.DirHandle.{get_created_directory, get_created_directory_by_dh}
use blockfs.FileHandle.{add_file, remove_file}
use blockfs.State.{Action, ◌>>=◌, ◌>>◌, gets, modify, file_meta, dir_meta, on_file_meta}

-- The entries of the old path go before those of the new path come; the record is written last.
unfoldable pub rename_file : ℕ → List ℕ → Action (Unit {0})
rename_file file to = do
  dh ← gets (λ s. (file_meta file s).dh)
  old_dir ← get_created_directory_by_dh dh
  new_dir ← get_created_directory (get_dir_name to)
  remove_child_file old_dir file
  remove_file file
  modify (on_file_meta file (set_file_name (get_file_name to)))
  modify λ s. on_file_meta file (λ m. record m { dh = (dir_meta new_dir s).dh }) s
  update_time_stamp file
  add_file file
  add_child_file new_dir file
  write_file_meta file
