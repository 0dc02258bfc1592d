-- ===== src/File/Mount.antt =====
-- lib/file_block_handle.cc: formatting the file block records of a device, and loading them at a
-- mount, after the files.
use blockfs.Prelude.{ℕ, zero, suc, List, [], ◌∷◌, false, ltb, ◌==◌, if◌then◌else◌, nat_eq}
use blockfs.Prelude.Map.{find}
use blockfs.Meta.{FileBlockMeta, minus_one}
use blockfs.BlockHandle.{get_specific_block_id}
use blockfs.FileBlock.{
  zero_block_ids, used_block_ids, clear_file_block_meta, write_file_block_meta, put_file_block_lock,
}
use blockfs.File.{add_file_block}
use blockfs.State.{
  Checksums, Action, ◌>>=◌, ◌>>◌, pure, gets, modify, or_fail, check, pwrite_direct,
  on_block_handle, on_file_block_meta,
}

-- The record that `FormatAllMeta` gives a slot; the buffer starts as zeros.
abbrev pub formatted_file_block_meta : Checksums → ℕ → FileBlockMeta
formatted_file_block_meta crc32 index =
    let m : FileBlockMeta = record {
      crc = 0;
      index = index;
      fh = minus_one;
      file_cut = 0;
      used_block_num = 0;
      used = false;
      is_temp = false;
      block_id = zero_block_ids;
    } in
    record m { crc = crc32.of_file_block m }

-- `FileBlockHandle::FormatAllMeta`: all records in one write.
unfoldable pub format_file_block_metas : Action (Unit {0})
format_file_block_metas = do
  super ← gets (λ s. s.super_meta)
  crc32 ← gets (λ s. s.crc32)
  pwrite_direct super.file_block_meta_total_size super.file_block_meta_offset (λ d. record d {
    file_block_metas = λ i.
        if ltb i super.max_file_block_num
        then formatted_file_block_meta crc32 i
        else d.file_block_metas i;
  })

-- The ids of a loaded file block leave the pool; one that is not there is an error.
unfoldable pub take_loaded_ids : List ℕ → Action (Unit {0})
take_loaded_ids [] = pure tt
take_loaded_ids (id ∷ ids) = do
  (found, rest) ← gets (λ s. get_specific_block_id s.block_handle id)
  modify (on_block_handle λ _. rest)
  check found
  take_loaded_ids ids

-- One slot of `InitializeMeta`. A temporary file's block is cleared, and its slot joins no list.
unfoldable pub load_file_block_slot : ℕ → Action (Unit {0})
load_file_block_slot index = do
  m ← gets (λ s. s.file_block_handle.metas index)
  crc ← gets (λ s. s.crc32.of_file_block (s.file_block_handle.metas index))
  check (m.crc == crc)
  if m.used
      then (if m.is_temp
          then (modify (on_file_block_meta index clear_file_block_meta)
              >> write_file_block_meta index)
          else (do
            files ← gets (λ s. s.file_handle.created_fhs)
            file ← or_fail (find m.fh files)
            take_loaded_ids (used_block_ids m)
            add_file_block file index
            pure tt))
      else put_file_block_lock index

-- The loop, over n slots from `index` on.
unfoldable pub load_file_block_slots : ℕ → ℕ → Action (Unit {0})
load_file_block_slots zero index = pure tt
load_file_block_slots (suc n) index =
    load_file_block_slot index >> load_file_block_slots n (suc index)

-- `FileBlockHandle::InitializeMeta`.
unfoldable pub load_file_block_metas : Action (Unit {0})
load_file_block_metas = do
  n ← gets (λ s. s.super_meta.max_file_block_num)
  load_file_block_slots n 0
