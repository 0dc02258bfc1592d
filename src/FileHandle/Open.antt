-- ===== src/FileHandle/Open.antt =====
-- lib/file_handle.cc: opening, duplicating, syncing and closing files.
use blockfs.Prelude.{
  ℕ, ◌%◌, List, none, some, Bool, true, false, ◌&&◌, ◌||◌, not, ltb, ◌==◌, if◌then◌else◌, bit, u32,
  nat_eq,
}
use blockfs.Prelude.Map.{insert, erase}
use blockfs.FdHandle.{get_fd, put_unsigned}
use blockfs.File.{minus_one_64}
use blockfs.File.Shrink.{ftruncate}
use blockfs.DirHandle.{get_created_directory}
use blockfs.FileHandle.{get_created_file, get_open_file}
use blockfs.FileHandle.Create.{create_file, unlink_by_fh}
use blockfs.File.{inc_link_count, dec_link_count}
use blockfs.State.{
  OpenFile, Action, ◌>>=◌, ◌>>◌, pure, fail, fail_with, gets, modify, attempt, fail_if, set_errno,
  fsync_device, on_fd_handle, on_file_handle, on_file, file_meta, emfile, eexist, enotdir, eisdir,
  einval, enoent,
}

-- The flags of open(2) on Linux. O_TMPFILE is bit 22 together with the bit of O_DIRECTORY.
abbrev o_wronly : ℕ → Bool
o_wronly = bit 0

abbrev o_rdwr : ℕ → Bool
o_rdwr = bit 1

abbrev o_creat : ℕ → Bool
o_creat = bit 6

abbrev o_excl : ℕ → Bool
o_excl = bit 7

abbrev o_trunc : ℕ → Bool
o_trunc = bit 9

abbrev o_append : ℕ → Bool
o_append = bit 10

abbrev o_directory : ℕ → Bool
o_directory = bit 16

-- `flags & O_TMPFILE` is not zero.
abbrev meets_o_tmpfile : ℕ → Bool
meets_o_tmpfile flags = bit 22 flags || o_directory flags

-- `VerifyOpenExistFileFlag`.
unfoldable pub verify_open_exist_file_flag : ℕ → Action (Unit {0})
verify_open_exist_file_flag flags = do
  fail_if (o_creat flags && o_excl flags) eexist
  fail_if (o_directory flags) enotdir

-- `IsNeedCreateTempFile`.
unfoldable pub is_need_create_temp_file : ℕ → Action Bool
is_need_create_temp_file flags =
    if not (meets_o_tmpfile flags)
    then pure false
    else (if not (o_rdwr flags) && not (o_wronly flags)
        then set_errno einval >> pure false
        else pure true)

-- The file that `open` is for, where no temporary one is wanted.
unfoldable pub open_named : List ℕ → ℕ → Action ℕ
open_named filename flags = do
  directory ← attempt (get_created_directory filename)
  elim directory [ some _ ↦ fail_with eisdir | none ↦ pure tt ]
  found ← attempt (get_created_file filename)
  elim found [
    | none ↦ if o_creat flags then create_file filename false else fail_with enoent
    | some file ↦ (do
      verify_open_exist_file_flag flags
      if o_trunc flags && (o_rdwr flags || o_wronly flags) then ftruncate file 0 else pure tt
      pure file)
  ]

-- `get_fd` into an unsigned 64-bit variable: the -1 of an empty pool becomes its largest value, so
-- the test `fd < 0` behind it never holds.
unfoldable pub get_fd_unsigned : Action ℕ
get_fd_unsigned = do
  (fd, rest) ← gets (λ s. get_fd s.fd_handle)
  modify (on_fd_handle λ _. rest)
  elim fd [ none ↦ set_errno emfile >> pure minus_one_64 | some n ↦ pure n ]

-- The descriptor as the `int` that is returned; a negative one is an error to the caller.
abbrev pub return_int : ℕ → Action ℕ
return_int fd = if ltb (fd % u32) 2147483648 then pure (fd % u32) else fail

abbrev add_open_file : ℕ → OpenFile → Action (Unit {0})
add_open_file fd f = modify (on_file_handle λ h. record h { open_files = insert fd f h.open_files })

-- The end of `open`: a descriptor, an OpenFile object at the position, and one more link.
unfoldable pub attach : ℕ → ℕ → Action ℕ
attach file append_pos = do
  fd ← get_fd_unsigned
  add_open_file fd (record { file = file; append_pos = append_pos })
  inc_link_count file
  set_errno 0
  return_int fd

-- `open`.
unfoldable pub open_file : List ℕ → ℕ → Action ℕ
open_file filename flags = do
  temp ← is_need_create_temp_file flags
  file ← (if temp then create_file filename true else open_named filename flags)
  size ← gets (λ s. (file_meta file s).size)
  attach file (if o_append flags then size else 0)

-- Removes a file that was temporary or marked, once its last descriptor is gone.
unfoldable pub collect : ℕ → Action (Unit {0})
collect file = do
  o ← gets (λ s. s.files file)
  m ← gets (file_meta file)
  if (o.nlink == 0) && (m.is_temp || o.deleted)
      then (attempt (unlink_by_fh m.fh) >> pure tt)
      else pure tt

-- `close`.
unfoldable pub close_file : ℕ → Action (Unit {0})
close_file fd = do
  f ← get_open_file fd
  attempt fsync_device
  modify (on_file f.file λ o. record o { locked = false })
  dec_link_count f.file
  collect f.file
  modify (on_file_handle λ h. record h { open_files = erase fd h.open_files })
  modify (on_fd_handle λ h. put_unsigned h fd)
  set_errno 0

-- `dup`: a second OpenFile object of the same file, at position 0.
unfoldable pub dup : ℕ → Action ℕ
dup oldfd = do f ← get_open_file oldfd; attach f.file 0

-- `fsync`.
unfoldable pub fsync : ℕ → Action (Unit {0})
fsync fd = do
  found ← attempt (get_open_file fd)
  elim found [ none ↦ fail_with enoent | some _ ↦ fsync_device ]
