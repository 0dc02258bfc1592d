-- ===== src/File.antt =====
-- lib/file.h and lib/file.cc: a File object and its metadata record.
pub mod Extend
pub mod Growth
pub mod Grow
pub mod Append
pub mod Release
pub mod Mount
pub mod Formatted
pub mod Leftover
pub mod Shrink
pub mod Truncate
pub mod Recycle
pub mod Parent
pub mod Copy
pub mod Rename
use blockfs.Prelude.{
  ℕ, ◌+◌, ◌*◌, ◌/◌, List, [], ◌∷◌, Bool, true, false, if◌then◌else◌, take, nat_eq,
}
use blockfs.Prelude.Map.{Map, find, insert, contains}
use blockfs.Meta.{
  FileMeta, k_block_fs_page_size, k_block_fs_max_file_name_len, k_block_size, minus_one,
}
use blockfs.Directory.{page_align_index, write_page}
use blockfs.FileBlock.{release_all}
use blockfs.State.{
  Fs, Device, Action, ◌>>=◌, ◌>>◌, pure, gets, modify, or_fail, file_meta, on_file, file_block_meta,
  on_file_meta, on_file_slot, pwrite_direct, increment, decrement,
}

-- `set_file_name` copies the field's length, whatever the length of the name.
abbrev pub set_file_name : List ℕ → FileMeta → FileMeta
set_file_name name m = record m { file_name = take k_block_fs_max_file_name_len name }

-- `UINT64_MAX`, which `parent_size_ = -1` stores.
abbrev pub minus_one_64 : ℕ
minus_one_64 = 18446744073709551615

-- The name, the handle and the directory stay.
unfoldable pub clear_file_meta : FileMeta → FileMeta
clear_file_meta m = record m {
  used = false;
  is_temp = false;
  size = 0;
  mode = 0;
  nlink = 0;
  atime = 0;
  mtime = 0;
  ctime = 0;
  child_fh = minus_one;
  parent_fh = minus_one;
  parent_size = minus_one_64;
}

abbrev pub put_file_page_on_disk : ℕ → ℕ → (ℕ → FileMeta) → Device → Device
put_file_page_on_disk meta_size base memory v = record v {
  file_metas = write_page meta_size base memory v.file_metas;
}

-- `File::WriteMeta(fh)`: the checksum of slot `fh`, then the whole page that it shares.
unfoldable pub write_file_slot : ℕ → Action (Unit {0})
write_file_slot fh = do
  super ← gets (λ s. s.super_meta)
  let align_index = page_align_index super.file_meta_size fh
  modify λ s. on_file_slot fh (λ m. record m { crc = s.crc32.of_file m }) s
  memory ← gets (λ s. s.file_handle.metas)
  pwrite_direct k_block_fs_page_size (super.file_meta_offset + super.file_meta_size * align_index)
      (put_file_page_on_disk super.file_meta_size align_index memory)

-- `WriteMeta()`.
unfoldable pub write_file_meta : ℕ → Action (Unit {0})
write_file_meta file = do fh ← gets (λ s. (file_meta file s).fh); write_file_slot fh

-- `Release`, `ReleaseNolock`.
unfoldable pub release_file : ℕ → Action (Unit {0})
release_file file = do modify (on_file_meta file clear_file_meta); write_file_meta file

abbrev pub inc_link_count : ℕ → Action (Unit {0})
inc_link_count file = modify (on_file file λ o. record o { nlink = increment o.nlink })

abbrev pub dec_link_count : ℕ → Action (Unit {0})
dec_link_count file = modify (on_file file λ o. record o { nlink = decrement o.nlink })

unfoldable pub sum_used : (ℕ → ℕ) → Map ℕ ℕ → ℕ
sum_used used [] = 0
sum_used used ((_, fb) ∷ m) = used fb + sum_used used m

-- `GetBlockNumber`: the blocks of all file blocks.
unfoldable pub get_block_number : ℕ → Fs → ℕ
get_block_number file s =
    sum_used (λ fb. (file_block_meta fb s).used_block_num) (s.files file).item_maps

-- `GetFileBlock(file_cut)`.
unfoldable pub get_file_block : ℕ → ℕ → Action ℕ
get_file_block file file_cut = do
  items ← gets (λ s. (s.files file).item_maps)
  or_fail (find file_cut items)

-- `AddFileBlockNoLock`: its callers do not look at the result, which says whether the cut was free.
unfoldable pub add_file_block : ℕ → ℕ → Action Bool
add_file_block file fb = do
  cut ← gets (λ s. (file_block_meta fb s).file_cut)
  items ← gets (λ s. (s.files file).item_maps)
  if contains cut items
      then pure false
      else (modify (on_file file λ o. record o { item_maps = insert cut fb o.item_maps })
          >> pure true)

-- The loop of `RemoveAllFileBlock`.
unfoldable pub release_each : Map ℕ ℕ → Action (Unit {0})
release_each [] = pure tt
release_each ((_, fb) ∷ m) = release_all fb >> release_each m

unfoldable pub remove_all_file_block : ℕ → Action (Unit {0})
remove_all_file_block file = do
  items ← gets (λ s. (s.files file).item_maps)
  release_each items
  modify (on_file file λ o. record o { item_maps = [] })

-- `UpdateTimeStamp(seconds)`: both times, and the checksum in memory.
unfoldable pub update_time_stamp : ℕ → Action (Unit {0})
update_time_stamp file = do
  modify λ s. on_file_meta file (λ m. record m { mtime = s.now; ctime = s.now }) s
  modify λ s. on_file_meta file (λ m. record m { crc = s.crc32.of_file m }) s

-- What `stat` reports of a file or a directory.
pub record Stat : Type 0 where
  pub st_ino : ℕ
  pub st_nlink : ℕ
  pub st_is_dir : Bool
  pub st_blksize : ℕ
  pub st_blocks : ℕ
  pub st_atime : ℕ
  pub st_mtime : ℕ
  pub st_ctime : ℕ
  pub st_size : ℕ

unfoldable pub stat_file : ℕ → Fs → Stat
stat_file file s =
    let m = file_meta file s in
    record {
      st_ino = m.fh;
      st_nlink = (s.files file).nlink;
      st_is_dir = false;
      st_blksize = k_block_size;
      st_blocks = get_block_number file s * k_block_size / 512;
      st_atime = m.atime;
      st_mtime = m.mtime;
      st_ctime = m.ctime;
      st_size = m.size;
    }
