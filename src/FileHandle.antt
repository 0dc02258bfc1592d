-- ===== src/FileHandle.antt =====
-- lib/file_handle.h and lib/file_handle.cc: paths of files, the maps and the free list of the
-- handle, and the allocation of file records. The children hold the operations of its users.
pub mod Create
pub mod Open
pub mod Descriptors
pub mod Index
pub mod Mount
pub mod Formatted
pub mod Unlink
pub mod Named
pub mod Entries
pub mod Leak
pub mod Exhaust
use blockfs.Prelude.{
  ℕ, zero, suc, ◌+◌, ◌/◌, ◌%◌, ◌++◌, List, [], ◌∷◌, Bool, true, false, leb, ltb, ◌||◌, ◌==◌,
  if◌then◌else◌, length, not, nat_eq, key_eq_inst,
}
use blockfs.Prelude.Map.{Map, find, contains, insert, erase, update}
use blockfs.Meta.{FileMeta, k_block_fs_max_file_name_len}
use blockfs.Paths.{ends_with_slash, get_dir_name, get_file_name}
use blockfs.Directory.{add_child_file, remove_child_file}
use blockfs.DirHandle.{get_created_directory}
use blockfs.File.{set_file_name, write_file_meta}
use blockfs.State.{
  File, OpenFile, ParentFile, Action, ok, ◌>>=◌, ◌>>◌, pure, fail_with, gets, modify, or_fail,
  or_fail_with, attempt, check, fail_if, file_meta, dir_meta, on_file_handle, on_file_slot,
  on_file_meta, enametoolong, enfile, einval, eexist, enoent, enotdir, ebadf,
}

-- `TransformPath`: the directory part and the name.
unfoldable pub transform_path : List ℕ → Action (List ℕ × List ℕ)
transform_path filename = do
  fail_if (ends_with_slash filename) enotdir
  fail_if (leb k_block_fs_max_file_name_len (length (get_file_name filename))) enametoolong
  pure (get_dir_name filename, get_file_name filename)

-- Whether a slot from the free list may be used.
abbrev pub is_free_slot : ℕ → FileMeta → Bool
is_free_slot fh m = not (m.used || not (m.fh == fh) || not (m.size == 0))

abbrev pop_free_fh : Action (Unit {0})
pop_free_fh =
    modify
      (on_file_handle λ h. record h { free_fhs = elim h.free_fhs [ [] ↦ [] | fh ∷ rest ↦ rest ] })

-- The first free slot, checked but still in the list.
unfoldable pub front_free_fh : Action ℕ
front_free_fh s = elim s.file_handle.free_fhs [
  | [] ↦ fail_with enfile s
  | fh ∷ rest ↦ if is_free_slot fh (s.file_handle.metas fh) then pure fh s else fail_with einval s
]

-- `NewFreeFileMeta`: a slot for the shrunk version of a file.
unfoldable pub new_free_file_meta : ℕ → List ℕ → Action ℕ
new_free_file_meta dh filename = do
  fh ← front_free_fh
  modify (on_file_slot fh λ m. set_file_name filename (record m { used = true; fh = fh; dh = dh }))
  pop_free_fh
  pure fh

-- A File object over a slot; the object is new, so nothing is open, locked or mapped.
abbrev pub new_file_object : ℕ → Action ℕ
new_file_object slot s =
    let object : File = record {
      meta = slot;
      nlink = 0;
      locked = false;
      deleted = false;
      item_maps = [];
    } in
    ok s.next_file
      (record s { files = update s.files s.next_file object; next_file = s.next_file + 1 })

abbrev claim_slot : ℕ → List ℕ → Bool → Action ℕ
claim_slot dh filename is_temp = do
  fh ← front_free_fh
  file ← new_file_object fh
  modify (
      on_file_meta file
        λ m. set_file_name filename (record m { used = true; fh = fh; dh = dh; is_temp = is_temp }))
  pop_free_fh
  pure file

-- `NewFreeFileNolock`.
unfoldable pub new_free_file : ℕ → List ℕ → Action ℕ
new_free_file dh filename = claim_slot dh filename false

-- `std::to_string`, on fuel that exceeds the number.
unfoldable pub decimal_fuel : ℕ → ℕ → List ℕ
decimal_fuel zero n = []
decimal_fuel (suc f) n =
    let front = decimal_fuel f (n / 10) in
    if ltb n 10 then (b'0' + n) ∷ [] else front ++ (b'0' + n % 10) ∷ []

unfoldable pub decimal : ℕ → List ℕ
decimal n = decimal_fuel (suc n) n

abbrev pub tmpfile_prefix : List ℕ
tmpfile_prefix = b't' ∷ b'm' ∷ b'p' ∷ b'f' ∷ b'i' ∷ b'l' ∷ b'e' ∷ b'_' ∷ []

-- `NewFreeTmpFileNolock`: named after its slot.
unfoldable pub new_free_tmp_file : ℕ → Action ℕ
new_free_tmp_file dh = do fh ← front_free_fh; claim_slot dh (tmpfile_prefix ++ decimal fh) true

-- `NewFile`: the directory and the new file, with its times set.
unfoldable pub new_file : List ℕ → List ℕ → Bool → Action (ℕ × ℕ)
new_file dirname filename tmpfile = do
  found ← attempt (get_created_directory dirname)
  dir ← or_fail_with found enoent
  dh ← gets (λ s. (dir_meta dir s).dh)
  created ← gets (λ s. s.file_handle.created_files)
  fail_if (if tmpfile then false else contains (dh, filename) created) eexist
  file ← (if tmpfile then new_free_tmp_file dh else new_free_file dh filename)
  modify λ s. on_file_meta file (λ m. record m { atime = s.now; mtime = s.now; ctime = s.now }) s
  pure (dir, file)

-- `AddFileNoLock`: by handle, then by directory and name; an entry that is there is replaced.
unfoldable pub add_file : ℕ → Action (Unit {0})
add_file file = do
  m ← gets (file_meta file)
  modify (
      on_file_handle λ h. record h {
        created_fhs = insert m.fh file h.created_fhs;
        created_files = insert (m.dh, m.file_name) file h.created_files;
      })

-- `AddFileToDirectory`; the directory's answer is not looked at.
unfoldable pub add_file_to_directory : ℕ → ℕ → Action (Unit {0})
add_file_to_directory parent file = do attempt (add_child_file parent file); add_file file

-- `RemoveFileNoLock`: by name, then by handle.
unfoldable pub remove_file : ℕ → Action (Unit {0})
remove_file file = do
  m ← gets (file_meta file)
  h ← gets (λ s. s.file_handle)
  check (contains (m.dh, m.file_name) h.created_files)
  modify
      (on_file_handle λ h. record h { created_files = erase (m.dh, m.file_name) h.created_files })
  check (contains m.fh h.created_fhs)
  modify (on_file_handle λ h. record h { created_fhs = erase m.fh h.created_fhs })

-- `RemoveFileFromoDirectory`.
unfoldable pub remove_file_from_directory : ℕ → ℕ → Action (Unit {0})
remove_file_from_directory parent file = do remove_child_file parent file; remove_file file

unfoldable pub add_file_to_free : ℕ → Action (Unit {0})
add_file_to_free index =
    modify (on_file_handle λ h. record h { free_fhs = h.free_fhs ++ index ∷ [] })

-- `AddParentFile`: one parent for each handle.
unfoldable pub add_parent_file : ParentFile → Action (Unit {0})
add_parent_file parent = do
  fh ← gets (λ s. (s.file_handle.metas parent.meta).fh)
  parents ← gets (λ s. s.file_handle.parent_files)
  check (not (contains fh parents))
  modify (on_file_handle λ h. record h { parent_files = insert fh parent h.parent_files })

-- `FindFile`: the directory and the file of a path.
unfoldable pub find_file : List ℕ → List ℕ → Action (ℕ × ℕ)
find_file dirname filename = do
  found ← attempt (get_created_directory dirname)
  dir ← or_fail_with found enoent
  dh ← gets (λ s. (dir_meta dir s).dh)
  created ← gets (λ s. s.file_handle.created_files)
  file ← or_fail_with (find (dh, filename) created) enoent
  pure (dir, file)

unfoldable pub get_open_file : ℕ → Action OpenFile
get_open_file fd = do m ← gets (λ s. s.file_handle.open_files); or_fail_with (find fd m) ebadf

-- `GetCreatedFile(fh)`.
unfoldable pub get_created_file_by_fh : ℕ → Action ℕ
get_created_file_by_fh fh = do m ← gets (λ s. s.file_handle.created_fhs); or_fail (find fh m)

-- `GetCreatedFile(filename)`.
unfoldable pub get_created_file : List ℕ → Action ℕ
get_created_file filename = do
  (dirname, name) ← transform_path filename
  dir ← get_created_directory dirname
  dh ← gets (λ s. (dir_meta dir s).dh)
  created ← gets (λ s. s.file_handle.created_files)
  or_fail_with (find (dh, name) created) enoent

-- `GetCreatedFileNolock(dh, filename)`.
unfoldable get_created_file_by_name : ℕ → List ℕ → Action ℕ
get_created_file_by_name dh filename = do
  m ← gets (λ s. s.file_handle.created_files)
  or_fail (find (dh, filename) m)

-- The loop of `UpdateMeta` over the created files, up to the first failure.
unfoldable update_metas : Map (ℕ × List ℕ) ℕ → Action (Unit {0})
update_metas [] = pure tt
update_metas ((_, file) ∷ m) = write_file_meta file >> update_metas m

-- `UpdateMeta`.
unfoldable update_meta : Action (Unit {0})
update_meta = do m ← gets (λ s. s.file_handle.created_files); update_metas m
