-- ===== src/File/Shrink.antt =====
-- lib/file.cc: a file that shrinks gets a new record and inherits the whole blocks that remain; the
-- old version becomes its parent and is recycled. `ftruncate` chooses the direction.
use blockfs.Prelude.{
  ℕ, zero, suc, ◌+◌, ◌-◌, ◌*◌, ◌/◌, ◌%◌, List, [], ◌∷◌, none, some, true, false, ltb, ◌==◌, ◌||◌,
  if◌then◌else◌, length, get_or, u32, min, nat_eq,
}
use blockfs.Prelude.Map.{find, erase}
use blockfs.Meta.{FileMeta, FileBlockMeta, k_block_size, k_file_block_capacity, k_mega, minus_one}
use blockfs.BlockHandle.{put_free_block_id}
use blockfs.Device.{pread_cache, pwrite_cache}
use blockfs.FileBlock.{
  add_block_id, used_block_ids, write_file_block_meta, get_file_block_lock, release_myself,
}
use blockfs.File.{add_file_block, clear_file_meta, write_file_slot, write_file_meta}
use blockfs.File.Extend.{take_block_ids, extend_file}
use blockfs.DirHandle.{get_created_directory_by_dh}
use blockfs.FileHandle.{
  new_free_file_meta, add_file_to_directory, remove_file_from_directory, add_file_to_free,
  add_parent_file,
}
use blockfs.State.{
  Fs, ParentFile, Action, ◌>>=◌, ◌>>◌, pure, fail, gets, modify, attempt, or_fail, on_block_handle,
  file_block_meta, on_file_block_meta, file_meta, on_file, on_file_slot, on_file_meta,
  on_file_handle, fsync_device,
}

abbrev pub block_address : ℕ → ℕ → Fs → ℕ
block_address block_id offset s =
    s.super_meta.block_data_start_offset + s.super_meta.block_size * block_id + offset

-- The loop of `CopyData`, in chunks of at most 4M; fuel above the number of chunks.
unfoldable pub copy_chunks : ℕ → ℕ → ℕ → ℕ → ℕ → Action (Unit {0})
copy_chunks zero src dst offset len = fail
copy_chunks (suc fuel) src dst offset len =
    let data_len = min len (4 * k_mega) in
    let rest = copy_chunks fuel src dst (offset + data_len) (len - data_len) in
    if len == 0 then pure tt else (do
      from ← gets (block_address src offset)
      buffer ← pread_cache data_len from
      to ← gets (block_address dst offset)
      pwrite_cache data_len to buffer
      rest)

-- `CopyData`.
unfoldable pub copy_data : ℕ → ℕ → ℕ → ℕ → Action (Unit {0})
copy_data src dst offset len = do
  copy_chunks (len / (4 * k_mega) + 2) src dst offset len
  fsync_device

-- The inner loop of `ParentFile::Recycle`: the first `block_num` ids of the file belong to the
-- child, the later ones go back to the pool. The result is the count of ids passed over.
unfoldable pub recycle_block_ids : ℕ → ℕ → List ℕ → Action ℕ
recycle_block_ids block_num index [] = pure index
recycle_block_ids block_num index (id ∷ ids) = elim (ltb index block_num) [
  | true ↦ recycle_block_ids block_num (index + 1) ids
  | false ↦
      modify (on_block_handle λ h. put_free_block_id h id) >> recycle_block_ids block_num index ids
]

-- The outer loop, over the file cuts `i`, `i + 1`, ...; each file block gives its slot back.
unfoldable pub recycle_file_blocks : ℕ → List (ℕ × ℕ) → ℕ → ℕ → ℕ → Action (Unit {0})
recycle_file_blocks zero fbs i block_num index = pure tt
recycle_file_blocks (suc n) fbs i block_num index = do
  fb ← or_fail (find i fbs)
  m ← gets (file_block_meta fb)
  index' ← recycle_block_ids block_num index (used_block_ids m)
  attempt (release_myself fb)
  recycle_file_blocks n fbs (i + 1) block_num index'

-- `ParentFile::Recycle`.
unfoldable pub recycle : ParentFile → Action (Unit {0})
recycle parent = do
  recycle_file_blocks (length parent.fb_maps) parent.fb_maps 0 (parent.offset / k_block_size % u32)
      0
  modify (on_file_slot parent.meta clear_file_meta)
  fh ← gets (λ s. (s.file_handle.metas parent.meta).fh)
  write_file_slot fh
  add_file_to_free fh

-- `FileHandle::RemoveParentFile`.
unfoldable pub remove_parent_file : ℕ → Action (Unit {0})
remove_parent_file fh = do
  parents ← gets (λ s. s.file_handle.parent_files)
  parent ← or_fail (find fh parents)
  modify (on_file_handle λ h. record h { parent_files = erase fh h.parent_files })
  recycle parent

-- `RecycleParentFh(fh, true)`.
unfoldable pub recycle_parent_fh : ℕ → ℕ → Action (Unit {0})
recycle_parent_fh file fh = do
  remove_parent_file fh
  modify (on_file_meta file λ m. record m { parent_fh = minus_one; parent_size = 0 })
  write_file_meta file

-- The loop that copies the ids of the inherited blocks, at most `n` of them.
unfoldable pub copy_block_ids : ℕ → List ℕ → FileBlockMeta → FileBlockMeta
copy_block_ids zero ids m = m
copy_block_ids (suc n) [] m = m
copy_block_ids (suc n) (id ∷ ids) m = copy_block_ids n ids (add_block_id id m)

-- The new record: it inherits the whole blocks.
abbrev pub inherit : FileMeta → ℕ → FileMeta → FileMeta
inherit old block_num m = record m {
  is_temp = old.is_temp;
  parent_fh = old.fh;
  parent_size = block_num * k_block_size;
  size = block_num * k_block_size;
}

-- The file block of the shrunk file: the inherited ids, and a copied block for a partial one.
unfoldable pub build_file_block : ℕ → ℕ → ℕ → ℕ → Action ℕ
build_file_block file new_slot block_num block_offset = do
  fb ← get_file_block_lock
  items ← gets (λ s. (s.files file).item_maps)
  old_fb ← or_fail (find 0 items)
  old ← gets (file_block_meta old_fb)
  new_meta ← gets (λ s. s.file_handle.metas new_slot)
  modify (
      on_file_block_meta fb λ m. record m {
        used = true;
        file_cut = old.file_cut;
        fh = new_meta.fh;
        is_temp = new_meta.is_temp;
      })
  modify (on_file_block_meta fb (copy_block_ids block_num old.block_id))
  if ltb 0 block_offset
      then (do
        ids ← take_block_ids 1
        copy_data (get_or old.block_id (block_num % k_file_block_capacity) 0) (get_or ids 0 0) 0
            block_offset
        modify (on_file_block_meta fb (add_block_id (get_or ids 0 0))))
      else pure tt
  pure fb

-- `NewParentFile` over the old record: the blocks of the file move to it.
unfoldable pub new_parent_file : ℕ → ℕ → ℕ → Action ParentFile
new_parent_file file old_slot offset = do
  items ← gets (λ s. (s.files file).item_maps)
  modify (on_file file λ o. record o { item_maps = [] })
  pure (record { meta = old_slot; offset = offset; fb_maps = items })

-- `ShrinkFile`.
unfoldable pub shrink_file : ℕ → ℕ → Action (Unit {0})
shrink_file file offset = do
  old_slot ← gets (λ s. (s.files file).meta)
  old ← gets (file_meta file)
  new_slot ← new_free_file_meta old.dh old.file_name
  let block_num = offset / k_block_size % u32
  let block_offset = offset % k_block_size
  modify (on_file_slot new_slot (inherit old block_num))
  fb ←
      (if ltb 0 (block_num % k_file_block_capacity) || ltb 0 block_offset
        then (do fb ← build_file_block file new_slot block_num block_offset; pure (some fb))
        else pure none)
  modify
      λ s. on_file_slot old_slot (λ m. record m { child_fh = (s.file_handle.metas new_slot).fh }) s
  dir ← get_created_directory_by_dh old.dh
  attempt (remove_file_from_directory dir file)
  modify (on_file file λ o. record o { meta = new_slot })
  add_file_to_directory dir file
  parent ← new_parent_file file old_slot offset
  add_parent_file parent
  elim fb [ none ↦ pure tt | some b ↦ add_file_block file b >> pure tt ]
  modify (on_file_meta file λ m. record m { size = offset })
  write_file_meta file
  elim fb [ none ↦ pure tt | some b ↦ write_file_block_meta b ]
  write_file_slot old.fh
  recycle_parent_fh file old.fh

-- `ftruncate`.
unfoldable pub ftruncate : ℕ → ℕ → Action (Unit {0})
ftruncate file offset = do
  size ← gets (λ s. (file_meta file s).size)
  if ltb size offset
      then extend_file file offset
      else (if ltb offset size then shrink_file file offset else pure tt)
