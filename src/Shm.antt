-- ===== src/Shm.antt =====
-- lib/shm_manager.cc: the metadata of the device, read into memory at a mount. The memory itself is the
-- state of the handles; what its placement by the operating system involves is left out.
use blockfs.Prelude.{ℕ, ltb, ◌==◌}
use blockfs.Meta.{SuperBlockMeta, k_super_block_size, k_super_block_offset, k_block_fs_magic}
use blockfs.State.{Fs, Action, ◌>>=◌, ◌>>◌, pure, gets, modify, attempt, check, pwrite_direct}

-- `PrefetchSuperMeta(meta)`: the super block on the device.
unfoldable pub read_super_block : Action SuperBlockMeta
read_super_block = do
  pwrite_direct k_super_block_size k_super_block_offset (λ d. d)
  gets (λ s. s.dev.super_block)

-- `PrefetchSuperMeta()`: the same, checked.
unfoldable pub prefetch_super_meta : (SuperBlockMeta → ℕ) → Action SuperBlockMeta
prefetch_super_meta crc_of = do
  super ← read_super_block
  check (super.crc == crc_of super)
  check (super.magic == k_block_fs_magic)
  pure super

-- The regions of the device in memory, each at the handle that `RegistMetaBaseAddr` gives it to.
abbrev pub regions_read : Fs → Fs
regions_read s = record s {
  super_meta = s.dev.super_block;
  dir_handle = record s.dir_handle { metas = s.dev.dir_metas };
  file_handle = record s.file_handle { metas = s.dev.file_metas };
  file_block_handle = record s.file_block_handle { metas = s.dev.file_block_metas };
}

-- `ReadAllMeta` and `RegistMetaBaseAddr`: all that stands before the data blocks, in one read.
unfoldable pub read_all_meta : ℕ → Action (Unit {0})
read_all_meta shm_size = do pwrite_direct shm_size 0 (λ d. d); modify regions_read

-- `Initialize(true)`.
unfoldable pub initialize_shm : (SuperBlockMeta → ℕ) → Action (Unit {0})
initialize_shm crc_of = do
  super ← prefetch_super_meta crc_of
  check (ltb 0 super.block_data_start_offset)
  read_all_meta super.block_data_start_offset

-- `CleanupDirtyShareMemory`, but for the shared memory that it removes: a failed read is no error.
unfoldable pub cleanup_dirty_share_memory : Action (Unit {0})
cleanup_dirty_share_memory = do attempt read_super_block; pure tt
