-- ===== src/File/Leftover.antt =====
-- A mount that finds a file block of a temporary file (`FileBlockHandle::InitializeMeta`,
-- lib/file_block_handle.cc).
use blockfs.Prelude.{ℕ, ◌+◌, ◌*◌, ◌≤◌, ◌≡◌, refl, ap, ◌∙◌, [], true, false, ◌==◌, ==_refl, arith}
use blockfs.Prelude.Map.{update_at}
use blockfs.FileBlock.{clear_file_block_meta, write_file_block_meta}
use blockfs.File.Grow.{block_saved, write_file_block_meta_lem}
use blockfs.File.Mount.{load_file_block_slot}
use blockfs.State.{Fs, ok, file_block_meta, on_file_block_meta, ◌>>=◌}

-- The slot of a file block that is in use, belongs to a temporary file and has its checksum right, on a
-- device that completes the write and holds the record: the mount goes on, the record is no longer in
-- use, in memory and on the device, and the pool of blocks, the files and also the free slots of file
-- blocks are as before, so that the slot is neither in use nor free.
pub load_file_block_slot-loses_temporary :
    (index : ℕ) (s : Fs)
    → s.dev.outcomes ≡ []
    → s.super_meta.file_block_meta_offset
        + s.super_meta.file_block_meta_size * index
        + s.super_meta.file_block_meta_size
      ≤ s.dev.dev_size
    → (file_block_meta index s).crc ≡ s.crc32.of_file_block (file_block_meta index s)
    → (file_block_meta index s).used ≡ true
    → (file_block_meta index s).is_temp ≡ true
    → (t : Fs) × (load_file_block_slot index s ≡ ok tt t)
      × ((file_block_meta index t).used ≡ false)
      × (t.dev.file_block_metas index ≡ file_block_meta index t)
      × (t.file_block_handle.free_fbhs ≡ s.file_block_handle.free_fbhs)
      × (t.block_handle ≡ s.block_handle)
      × (t.file_handle ≡ s.file_handle)
      × (t.files ≡ s.files)
unfolding load_file_block_slot clear_file_block_meta
load_file_block_slot-loses_temporary index s quiet fits sound used temp =
    let cleared = on_file_block_meta index clear_file_block_meta s in
    let crc = s.crc32.of_file_block (file_block_meta index s) in
    let same = ap (λ c. c == crc) sound ∙ ==_refl crc in
    let cleaned : (t : Fs)
        → write_file_block_meta index cleared ≡ ok tt t
        → load_file_block_slot index s ≡ ok tt t =
      λ t written. rw (same, ◌>>=◌, used, temp) written in
    (
      block_saved index cleared,
      cleaned _ (write_file_block_meta_lem index cleared quiet fits),
      ground arith,
      update_at s.dev.file_block_metas index _,
      refl,
      refl,
      refl,
      refl,
    )
