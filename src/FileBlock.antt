-- ===== src/FileBlock.antt =====
-- lib/file_block.h, lib/file_block.cc and the free list of lib/file_block_handle.h and .cc. A file
-- block names up to 1000 data blocks of a file.
pub mod Laws
use blockfs.Prelude.{
  ℕ, ◌+◌, ◌*◌, [], ◌∷◌, ◌++◌, List, Bool, false, ltb, ◌==◌, ◌&&◌, not, if◌then◌else◌, get_or, set,
  take, replicate,
}
use blockfs.Prelude.Map.{update}
use blockfs.Meta.{FileBlockMeta, k_file_block_capacity, minus_one}
use blockfs.BlockHandle.{put_free_block_id_lock}
use blockfs.State.{
  Device, Action, ok, err, ◌>>=◌, ◌>>◌, pure, fail, gets, modify, on_block_handle,
  on_file_block_handle, file_block_meta, on_file_block_meta, pwrite_direct,
}

-- `memset(block_id_, 0, ...)`. Shut in proofs, which need no more of it than its name.
pub zero_block_ids : List ℕ
zero_block_ids = replicate k_file_block_capacity 0

abbrev pub is_block_full : FileBlockMeta → Bool
is_block_full m = m.used_block_num == k_file_block_capacity

-- `add_block_id(block_id)`: behind the last one, and nothing if the block is full.
unfoldable pub add_block_id : ℕ → FileBlockMeta → FileBlockMeta
add_block_id block_id m = if is_block_full m then m else record m {
  block_id = set m.block_id m.used_block_num block_id;
  used_block_num = m.used_block_num + 1;
}

-- `add_block_id(block_index, block_id)`: at a place of the caller's, which need not be the next one.
unfoldable add_block_id_at : ℕ → ℕ → FileBlockMeta → FileBlockMeta
add_block_id_at block_index block_id m =
    if not (is_block_full m) && ltb block_index k_file_block_capacity
    then (record m {
      block_id = set m.block_id block_index block_id;
      used_block_num = m.used_block_num + 1;
    })
    else m

-- `get_block_id`; `none` is the failed assertion on the index.
unfoldable get_block_id : FileBlockMeta → ℕ → Action ℕ
get_block_id m block_index =
    if ltb block_index k_file_block_capacity then pure (get_or m.block_id block_index 0) else fail

-- The block ids in use, in file order.
abbrev pub used_block_ids : FileBlockMeta → List ℕ
used_block_ids m = take m.used_block_num m.block_id

unfoldable pub clear_file_block_meta : FileBlockMeta → FileBlockMeta
clear_file_block_meta m = record m {
  used = false;
  is_temp = false;
  fh = minus_one;
  file_cut = 0;
  used_block_num = 0;
  block_id = zero_block_ids;
}

abbrev pub put_file_block_on_disk : ℕ → FileBlockMeta → Device → Device
put_file_block_on_disk index m d = record d { file_block_metas = update d.file_block_metas index m }

-- `FileBlock::WriteMeta(index)`: the checksum first, then the record's own page.
unfoldable pub write_file_block_meta : ℕ → Action (Unit {0})
write_file_block_meta index = do
  modify λ s. on_file_block_meta index (λ m. record m { crc = s.crc32.of_file_block m }) s
  m ← gets (file_block_meta index)
  super ← gets (λ s. s.super_meta)
  pwrite_direct super.file_block_meta_size
      (super.file_block_meta_offset + super.file_block_meta_size * index)
      (put_file_block_on_disk index m)

unfoldable pub put_file_block_lock : ℕ → Action (Unit {0})
put_file_block_lock index =
    modify (on_file_block_handle λ h. record h { free_fbhs = h.free_fbhs ++ index ∷ [] })

-- `GetFileBlockLock`: the first free slot; the assertions on it are in the invariant.
unfoldable pub get_file_block_lock : Action ℕ
get_file_block_lock s = elim s.file_block_handle.free_fbhs [
  | [] ↦ err s
  | index ∷ rest ↦ ok index (on_file_block_handle (λ h. record h { free_fbhs = rest }) s)
]

unfoldable pub put_block_ids : List ℕ → Action (Unit {0})
put_block_ids ids = modify (on_block_handle λ h. (put_free_block_id_lock h ids).1)

-- Frees the data blocks, then the slot. The slot goes back only if its clearing reached the disk.
unfoldable pub release_all : ℕ → Action (Unit {0})
release_all index = do
  m ← gets (file_block_meta index)
  put_block_ids (used_block_ids m)
  modify (on_file_block_meta index clear_file_block_meta)
  write_file_block_meta index
  put_file_block_lock index

-- Frees the slot alone.
unfoldable pub release_myself : ℕ → Action (Unit {0})
release_myself index = do
  modify (on_file_block_meta index clear_file_block_meta)
  write_file_block_meta index
  put_file_block_lock index
