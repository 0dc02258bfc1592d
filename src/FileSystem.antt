-- ===== src/FileSystem.antt =====
-- lib/file_system.cc: the facade that the FUSE callbacks and the tools call.
pub mod Locks
pub mod Data
pub mod Append
pub mod Zeroes
pub mod Mount
pub mod ByteFile
pub mod Format
pub mod Start
use blockfs.Prelude.{is_empty, ℕ, List, none, some, Bool, true, false, ◌||◌, length, if◌then◌else◌}
use blockfs.Prelude.Int.{ℤ}
use blockfs.Meta.{k_block_size}
use blockfs.Paths.{ends_with_slash}
use blockfs.BlockHandle.{get_free_block_num}
use blockfs.File.{Stat, stat_file}
use blockfs.File.Shrink.{ftruncate}
use blockfs.File.Rename.{rename_file}
use blockfs.DirHandle.{get_created_directory, get_open_directory}
use blockfs.DirHandle.Create.{create_directory, rename_directory}
use blockfs.FileHandle.{get_created_file, get_open_file}
use blockfs.OpenFile.{lseek, pread, pwrite}
use blockfs.State.{
  Fs, Action, ◌>>=◌, ◌>>◌, pure, fail, fail_with, gets, modify, attempt, or_fail_with, fail_if,
  set_errno, dir_meta, on_file, einval, enoent, enolck, eacces,
}

-- `Directory::stat`.
unfoldable pub stat_directory : ℕ → Fs → Stat
stat_directory d s =
    let m = dir_meta d s in
    record {
      st_ino = m.dh;
      st_nlink = 0;
      st_is_dir = true;
      st_blksize = k_block_size;
      st_blocks = 0;
      st_atime = m.atime;
      st_mtime = m.mtime;
      st_ctime = m.ctime;
      st_size = m.size;
    }

unfoldable pub stat_as_directory : List ℕ → Action Stat
stat_as_directory path = do
  found ← attempt (get_created_directory path)
  d ← or_fail_with found enoent
  gets (stat_directory d)

-- `StatPath(path)`: a path with a separator at its end is a directory; else a file comes first.
unfoldable pub stat_path : List ℕ → Action Stat
stat_path path = do
  fail_if (is_empty path) einval
  st ←
      (if ends_with_slash path then stat_as_directory path else (do
        found ← attempt (get_created_file path)
        elim found [ none ↦ stat_as_directory path | some file ↦ gets (stat_file file) ]))
  set_errno 0
  pure st

-- `StatPath(fd)`: an open file, or else an open directory.
unfoldable pub stat_fd : ℕ → Action Stat
stat_fd fd = do
  found ← attempt (get_open_file fd)
  elim found [
    | some f ↦ gets (stat_file f.file)
    | none ↦ (do
      directory ← attempt (get_open_directory fd)
      d ← or_fail_with directory enoent
      gets (stat_directory d))
  ]

pub record StatVfs : Type 0 where
  pub f_bsize : ℕ
  pub f_blocks : ℕ
  pub f_bfree : ℕ
  pub f_files : ℕ
  pub f_ffree : ℕ
  pub f_namemax : ℕ

-- `StatVFS`.
unfoldable pub stat_vfs : Fs → StatVfs
stat_vfs s = record {
  f_bsize = s.super_meta.block_size;
  f_blocks = s.super_meta.curr_block_num;
  f_bfree = get_free_block_num s.block_handle;
  f_files = s.super_meta.max_file_num;
  f_ffree = length s.file_handle.free_fhs;
  f_namemax = s.super_meta.max_file_name_len;
}

-- `RenamePath`.
unfoldable pub rename_path : List ℕ → List ℕ → Action (Unit {0})
rename_path oldpath newpath = do
  fail_if (is_empty oldpath || is_empty newpath) einval
  dest ← attempt (get_created_file newpath)
  elim dest [ some _ ↦ fail | none ↦ pure tt ]
  found ← attempt (get_created_file oldpath)
  elim found [
    | some file ↦ rename_file file newpath
    | none ↦ (do
      directory ← attempt (get_created_directory oldpath)
      d ← or_fail_with directory enoent
      rename_directory oldpath newpath)
  ]

-- `TruncateFile(filename, size)` and `TruncateFile(fd, size)`.
unfoldable pub truncate_path : List ℕ → ℕ → Action (Unit {0})
truncate_path filename size = do
  found ← attempt (get_created_file filename)
  file ← or_fail_with found enoent
  ftruncate file size

unfoldable pub truncate_fd : ℕ → ℕ → Action (Unit {0})
truncate_fd fd size = do
  found ← attempt (get_open_file fd)
  f ← or_fail_with found enoent
  ftruncate f.file size

-- `ReadFile`: from the position.
unfoldable pub read_file : ℕ → ℕ → Action (List ℕ)
read_file fd len = do f ← get_open_file fd; pread fd f len f.append_pos

-- `PreadFile` and `PwriteFile`.
unfoldable pub pread_file : ℕ → ℕ → ℕ → Action (List ℕ)
pread_file fd len offset = do
  found ← attempt (get_open_file fd)
  f ← or_fail_with found enoent
  pread fd f len offset

unfoldable pub pwrite_file : ℕ → (ℕ → ℕ) → ℕ → ℕ → Action ℕ
pwrite_file fd buffer len offset = do
  found ← attempt (get_open_file fd)
  f ← or_fail_with found enoent
  pwrite fd f buffer len offset

-- `SeekFile`.
unfoldable pub seek_file : ℕ → ℤ → ℕ → Action ℤ
seek_file fd offset whence = do f ← get_open_file fd; lseek fd f offset whence

pub data LockType : Type 0 where
  f_unlck f_rdlck f_wrlck f_other : LockType

abbrev set_locked : ℕ → Bool → Action (Unit {0})
set_locked file locked = modify (on_file file λ o. record o { locked = locked })

-- The `switch` of `FcntlFile`.
unfoldable pub change_lock : ℕ → Bool → LockType → Action (Unit {0})
change_lock file locked f_unlck = if locked then set_locked file false else fail_with enolck
change_lock file locked f_rdlck = if locked then fail_with eacces else set_locked file true
change_lock file locked f_wrlck = if locked then fail_with eacces else set_locked file true
change_lock file locked f_other = fail

-- `FcntlFile`: one lock for each file, whatever its kind.
unfoldable pub fcntl_file : ℕ → LockType → Action (Unit {0})
fcntl_file fd lock_type = do
  f ← get_open_file fd
  locked ← gets (λ s. (s.files f.file).locked)
  change_lock f.file locked lock_type

-- `MakeMountPoint`.
unfoldable pub make_mount_point : List ℕ → Action (Unit {0})
make_mount_point mount_point = do
  found ← attempt (get_created_directory mount_point)
  elim found [ none ↦ create_directory mount_point | some _ ↦ pure tt ]
