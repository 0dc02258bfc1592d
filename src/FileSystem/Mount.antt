-- ===== src/FileSystem/Mount.antt =====
-- `FileSystem::InitializeMeta` (lib/file_system.cc) and `SuperBlock::InitializeMeta`
-- (lib/super_block.cc): a mount loads the regions of the device, one handle after the other.
use blockfs.Prelude.{ℕ, ◌<◌, ◌≡◌, ap, ◌∙◌, [], ◌++◌, ◌==◌, ==_refl, up_from, arith}
use blockfs.BlockHandle.{initialize_meta}
use blockfs.Meta.{SuperBlockMeta, DirMeta, FileMeta, FileBlockMeta, k_block_fs_magic}
use blockfs.DirHandle.Mount.{formatted_dir_meta, load_dir_metas}
use blockfs.DirHandle.Formatted.{load_dir_metas_formatted}
use blockfs.File.Mount.{formatted_file_block_meta, load_file_block_metas}
use blockfs.File.Formatted.{load_file_block_slots_formatted}
use blockfs.FileHandle.Mount.{formatted_file_meta, load_file_metas}
use blockfs.FileHandle.Formatted.{load_file_slots_formatted}
use blockfs.State.{Fs, Action, ok, ◌>>=◌, ◌>>◌, gets, modify, check, on_block_handle}

-- `SuperBlock::InitializeMeta`, with the checksum of a super block.
unfoldable pub load_super_block : (SuperBlockMeta → ℕ) → Action (Unit {0})
load_super_block crc_of = do
  meta ← gets (λ s. s.super_meta)
  check (meta.crc == crc_of meta)
  check (meta.magic == k_block_fs_magic)

-- `BlockHandle::InitializeMeta` as the interface calls it.
unfoldable pub load_blocks : Action (Unit {0})
load_blocks = modify λ s. on_block_handle (initialize_meta s.super_meta.curr_block_num) s

-- The handles in the order of `handle_vector_`; the first that fails ends the mount.
unfoldable pub load_all_metas : (SuperBlockMeta → ℕ) → Action (Unit {0})
load_all_metas crc_of = do
  load_super_block crc_of
  load_blocks
  load_dir_metas
  load_file_metas
  load_file_block_metas

abbrev pub all_free : Fs → Fs
all_free s = record s {
  block_handle = initialize_meta s.super_meta.curr_block_num s.block_handle;
  dir_handle = record s.dir_handle {
    free_dhs = s.dir_handle.free_dhs ++ up_from 0 s.super_meta.max_file_num;
  };
  file_handle = record s.file_handle {
    free_fhs = s.file_handle.free_fhs ++ up_from 0 s.super_meta.max_file_num;
  };
  file_block_handle = record s.file_block_handle {
    free_fbhs = s.file_block_handle.free_fbhs ++ up_from 0 s.super_meta.max_file_block_num;
  };
}

-- Where the super block has its checksum and the magic number, all records are as formatting leaves
-- them, no directory is loaded yet and no checksum reads its own field: the mount succeeds, adds the
-- blocks up to the present count to the pool and every slot of the three regions to its free slots, and
-- changes nothing else.
pub load_all_metas-all_free :
    (crc_of : SuperBlockMeta → ℕ) (s : Fs)
    → s.super_meta.crc ≡ crc_of s.super_meta
    → s.super_meta.magic ≡ k_block_fs_magic
    → s.dir_handle.created_dirs ≡ []
    → ((m : DirMeta) (c : ℕ) → s.crc32.of_dir (record m { crc = c }) ≡ s.crc32.of_dir m)
    → ((m : FileMeta) (c : ℕ) → s.crc32.of_file (record m { crc = c }) ≡ s.crc32.of_file m)
    → ((m : FileBlockMeta) (c : ℕ)
        → s.crc32.of_file_block (record m { crc = c }) ≡ s.crc32.of_file_block m)
    → ((i : ℕ)
        → i < s.super_meta.max_file_num
        → s.dir_handle.metas i ≡ formatted_dir_meta s.crc32 i)
    → ((i : ℕ)
        → i < s.super_meta.max_file_num
        → s.file_handle.metas i ≡ formatted_file_meta s.crc32 i)
    → ((i : ℕ)
        → i < s.super_meta.max_file_block_num
        → s.file_block_handle.metas i ≡ formatted_file_block_meta s.crc32 i)
    → load_all_metas crc_of s ≡ ok tt (all_free s)
unfolding load_all_metas load_super_block load_blocks load_file_metas load_file_block_metas
load_all_metas-all_free crc_of s sound magic empty skips_d skips_f skips_b dirs files blocks =
    let sound_test = ap (λ c. c == crc_of s.super_meta) sound ∙ ==_refl (crc_of s.super_meta) in
    let magic_test = ap (λ c. c == k_block_fs_magic) magic ∙ ==_refl k_block_fs_magic in
    let s1 : Fs = on_block_handle (initialize_meta s.super_meta.curr_block_num) s in
    let s2 : Fs = record s1 { dir_handle = (all_free s).dir_handle } in
    let s3 : Fs = record s2 { file_handle = (all_free s).file_handle } in
    rw (sound_test, magic_test, ◌>>=◌, ◌>>◌) rw
      (load_dir_metas_formatted s1 empty skips_d dirs, ◌>>=◌) rw
      (
        load_file_slots_formatted s.super_meta.max_file_num 0 s2 skips_f
            (λ i h. files i (omega arith)),
        ◌>>=◌,
      )
      (load_file_block_slots_formatted s.super_meta.max_file_block_num 0 s3 skips_b
        (λ i h. blocks i (omega arith)))
