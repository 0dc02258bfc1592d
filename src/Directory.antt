-- ===== src/Directory.antt =====
-- lib/directory.h and lib/directory.cc: a Directory object and its metadata record.
pub mod Page
use blockfs.Prelude.{
  ℕ, ◌+◌, ◌-◌, ◌*◌, ◌/◌, ◌%◌, List, ◌++◌, Bool, true, false, ltb, leb, ◌&&◌, if◌then◌else◌, length,
  take, map, not, nat_eq,
}
use blockfs.Prelude.Map.{contains, insert, erase}
use blockfs.Meta.{DirMeta, k_block_fs_page_size, k_block_fs_max_dir_name_len}
use blockfs.Paths.{get_file_name, ends_with_slash, pop_back}
use blockfs.State.{
  Fs, Directory, Device, Action, ◌>>=◌, ◌>>◌, gets, modify, check, dir_meta, file_meta,
  on_directory, on_dir_meta, on_dir_slot, pwrite_direct, increment, decrement,
}

-- `PageAlignIndex`: the first slot of the page that holds a slot.
unfoldable pub page_align_index : ℕ → ℕ → ℕ
page_align_index meta_size index = index - index % (k_block_fs_page_size / meta_size)

-- What one page write stores: the slots of the page are copied from memory, the others stay.
unfoldable pub write_page {ℓ} : {A : Type ℓ} → ℕ → ℕ → (ℕ → A) → (ℕ → A) → ℕ → A
write_page meta_size base memory disk i =
    if leb base i && ltb i (base + k_block_fs_page_size / meta_size) then memory i else disk i

-- `set_dir_name` copies the field's length.
abbrev pub set_dir_name : List ℕ → DirMeta → DirMeta
set_dir_name to m = record m { dir_name = take k_block_fs_max_dir_name_len to }

abbrev refresh_dir_crc : ℕ → Action (Unit {0})
refresh_dir_crc d = modify λ s. on_dir_meta d (λ m. record m { crc = s.crc32.of_dir m }) s

-- `ClearMeta()`.
unfoldable pub clear_dir_meta : ℕ → Action (Unit {0})
clear_dir_meta d = do
  modify (on_dir_meta d λ m. record m { used = false; size = 0 })
  refresh_dir_crc d

abbrev pub put_dir_page_on_disk : ℕ → ℕ → (ℕ → DirMeta) → Device → Device
put_dir_page_on_disk meta_size base memory v = record v {
  dir_metas = write_page meta_size base memory v.dir_metas;
}

-- `WriteMeta()`: the checksum of this record, then the whole page that it shares.
unfoldable pub write_dir_meta : ℕ → Action (Unit {0})
write_dir_meta d = do
  dh ← gets (λ s. (dir_meta d s).dh)
  super ← gets (λ s. s.super_meta)
  let align_index = page_align_index super.dir_meta_size dh
  refresh_dir_crc d
  memory ← gets (λ s. s.dir_handle.metas)
  pwrite_direct k_block_fs_page_size (super.dir_meta_offset + super.dir_meta_size * align_index)
      (put_dir_page_on_disk super.dir_meta_size align_index memory)

-- `ClearMeta(dh)`: the same of a slot that no object may stand for.
unfoldable clear_dir_slot : ℕ → Action (Unit {0})
clear_dir_slot dh = do
  modify (on_dir_slot dh λ m. record m { used = false; size = 0 })
  modify λ s. on_dir_slot dh (λ m. record m { crc = s.crc32.of_dir m }) s

-- `WriteMeta(dh)`.
unfoldable write_dir_slot : ℕ → Action (Unit {0})
write_dir_slot dh = do
  super ← gets (λ s. s.super_meta)
  let align_index = page_align_index super.dir_meta_size dh
  modify λ s. on_dir_slot dh (λ m. record m { crc = s.crc32.of_dir m }) s
  memory ← gets (λ s. s.dir_handle.metas)
  pwrite_direct k_block_fs_page_size (super.dir_meta_offset + super.dir_meta_size * align_index)
      (put_dir_page_on_disk super.dir_meta_size align_index memory)

unfoldable pub suicide : ℕ → Action (Unit {0})
suicide d = do clear_dir_meta d; write_dir_meta d

-- Files and directories together.
abbrev pub child_count : Directory → ℕ
child_count d = length d.item_maps + length d.child_dir_maps

abbrev pub inc_dir_link_count : ℕ → Action (Unit {0})
inc_dir_link_count d = modify (on_directory d λ o. record o { nlink = increment o.nlink })

abbrev pub dec_dir_link_count : ℕ → Action (Unit {0})
dec_dir_link_count d = modify (on_directory d λ o. record o { nlink = decrement o.nlink })

-- The four updates of the child maps; each fails if there is nothing to do.
unfoldable pub add_child_file : ℕ → ℕ → Action (Unit {0})
add_child_file d file = do
  fh ← gets (λ s. (file_meta file s).fh)
  items ← gets (λ s. (s.directories d).item_maps)
  check (not (contains fh items))
  modify (on_directory d λ o. record o { item_maps = insert fh file o.item_maps })

unfoldable pub remove_child_file : ℕ → ℕ → Action (Unit {0})
remove_child_file d file = do
  fh ← gets (λ s. (file_meta file s).fh)
  items ← gets (λ s. (s.directories d).item_maps)
  check (contains fh items)
  modify (on_directory d λ o. record o { item_maps = erase fh o.item_maps })

unfoldable pub add_child_directory : ℕ → ℕ → Action (Unit {0})
add_child_directory d child = do
  dh ← gets (λ s. (dir_meta child s).dh)
  children ← gets (λ s. (s.directories d).child_dir_maps)
  check (not (contains dh children))
  modify (on_directory d λ o. record o { child_dir_maps = insert dh child o.child_dir_maps })

unfoldable pub remove_child_directory : ℕ → ℕ → Action (Unit {0})
remove_child_directory d child = do
  dh ← gets (λ s. (dir_meta child s).dh)
  children ← gets (λ s. (s.directories d).child_dir_maps)
  check (contains dh children)
  modify (on_directory d λ o. record o { child_dir_maps = erase dh o.child_dir_maps })

-- `UpdateTimeStamp(a, m, c)`: the chosen times, and the checksum in memory.
unfoldable pub update_dir_time_stamp : Bool → Bool → Bool → ℕ → Action (Unit {0})
update_dir_time_stamp a m c d = do
  modify λ s.
      on_dir_meta d
        (λ v. record v {
          atime = if a then s.now else v.atime;
          mtime = if m then s.now else v.mtime;
          ctime = if c then s.now else v.ctime;
        })
        s
  refresh_dir_crc d

-- One entry of a directory listing (`block_fs_dirent`).
pub record Dirent : Type 0 where
  pub d_ino : ℕ
  pub d_is_dir : Bool
  pub d_name : List ℕ
  pub d_reclen : ℕ
  pub d_time : ℕ

-- A directory's name without the separator at its end is its last component.
unfoldable pub dir_entry : Fs → ℕ × ℕ → Dirent
dir_entry s (_, child) =
    let m = dir_meta child s in
    record {
      d_ino = m.dh;
      d_is_dir = true;
      d_name =
          get_file_name (if ends_with_slash m.dir_name then pop_back m.dir_name else m.dir_name);
      d_reclen = 0;
      d_time = m.atime;
    }

unfoldable pub file_entry : Fs → ℕ × ℕ → Dirent
file_entry s (_, file) =
    let m = file_meta file s in
    record {
      d_ino = m.fh;
      d_is_dir = false;
      d_name = m.file_name;
      d_reclen = m.size;
      d_time = m.atime;
    }

-- `ScanDir`: the directories, then the files.
unfoldable pub scan_dir : ℕ → Fs → List Dirent
scan_dir d s =
    let o = s.directories d in map (dir_entry s) o.child_dir_maps ++ map (file_entry s) o.item_maps
