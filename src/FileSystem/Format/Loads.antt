-- ===== src/FileSystem/Format/Loads.antt =====
-- A freshly formatted device, loaded again (lib/file_system.cc, lib/shm_manager.cc).
use blockfs.Prelude.{
  ℕ, ◌+◌, ◌≤◌, ◌<◌, ◌≡◌, refl, sym, ap, ◌∙◌, [], ltb, if◌then◌else◌, up_from, arith, u64, lt→ltb,
  count, ◌==◌, ==_refl,
}
use blockfs.Meta.{SuperBlockMeta, k_block_fs_magic, k_super_block_size, k_super_block_offset}
use blockfs.BlockHandle.{BlockHandle, initialize_meta}
use blockfs.BlockHandle.Laws.{initialize_meta-grows}
use blockfs.SuperBlock.{data_start, format_super_block, format_uuid, format_super}
use blockfs.Shm.{
  read_super_block, prefetch_super_meta, read_all_meta, regions_read, initialize_shm,
  cleanup_dirty_share_memory,
}
use blockfs.DirHandle.Mount.{format_dir_metas, formatted_dir_meta}
use blockfs.File.Mount.{format_file_block_metas, formatted_file_block_meta}
use blockfs.FileHandle.Mount.{format_file_metas, formatted_file_meta}
use blockfs.FileSystem.Mount.{all_free, load_all_metas-all_free}
use blockfs.State.{Fs, ok, ◌>>=◌, ◌>>◌, attempt, pwrite_direct_completes}
use blockfs.FileSystem.Format.{initialize, format, load_device, load_open_device, SkipsField}

abbrev super_formatted : (SuperBlockMeta → ℕ) → Fs → Fs
super_formatted crc_of s =
    let m : SuperBlockMeta = format_super_block 0 format_uuid s.dev.dev_size in
    let sealed : SuperBlockMeta = record m { crc = crc_of m } in
    record s { super_meta = sealed; dev = record s.dev { outcomes = []; super_block = sealed } }

abbrev dirs_formatted : Fs → Fs
dirs_formatted s = record s {
  dev = record s.dev {
    outcomes = [];
    dir_metas = λ i.
        if ltb i s.super_meta.max_file_num then formatted_dir_meta s.crc32 i else s.dev.dir_metas i;
  };
}

abbrev files_formatted : Fs → Fs
files_formatted s = record s {
  dev = record s.dev {
    outcomes = [];
    file_metas = λ i.
        if ltb i s.super_meta.max_file_num
        then formatted_file_meta s.crc32 i
        else s.dev.file_metas i;
  };
}

abbrev blocks_formatted : Fs → Fs
blocks_formatted s = record s {
  dev = record s.dev {
    outcomes = [];
    file_block_metas = λ i.
        if ltb i s.super_meta.max_file_block_num
        then formatted_file_block_meta s.crc32 i
        else s.dev.file_block_metas i;
  };
}

-- The state behind a format.
abbrev pub formatted : (SuperBlockMeta → ℕ) → Fs → Fs
formatted crc_of s =
    blocks_formatted (files_formatted (dirs_formatted (super_formatted crc_of (initialize s))))

-- A state that has the formatted device open.
abbrev pub on_formatted : (SuperBlockMeta → ℕ) → Fs → Fs → Fs
on_formatted crc_of s v = record v { crc32 = s.crc32; dev = (formatted crc_of s).dev }

module _ (s : Fs) (quiet : s.dev.outcomes ≡ []) where
  cleanup_lem :
      k_super_block_offset + k_super_block_size ≤ s.dev.dev_size
      → cleanup_dirty_share_memory s ≡ ok tt (record s { dev = record s.dev { outcomes = [] } })
  unfolding cleanup_dirty_share_memory read_super_block
  cleanup_lem fits = rw (
    pwrite_direct_completes k_super_block_size k_super_block_offset (λ d. d) s quiet fits,
    ◌>>=◌,
    ◌>>◌,
    attempt,
  )

  format_super_lem :
      (crc_of : SuperBlockMeta → ℕ)
      → k_super_block_offset + k_super_block_size ≤ s.dev.dev_size
      → format_super crc_of s ≡ ok tt (super_formatted crc_of s)
  unfolding format_super
  format_super_lem crc_of fits =
      let m : SuperBlockMeta = format_super_block 0 format_uuid s.dev.dev_size in
      let sealed : SuperBlockMeta = record m { crc = crc_of m } in
      pwrite_direct_completes k_super_block_size k_super_block_offset
        (λ d. record d { super_block = sealed }) (record s { super_meta = sealed }) quiet fits

  format_dir_metas_lem :
      s.super_meta.dir_meta_offset + s.super_meta.dir_meta_total_size ≤ s.dev.dev_size
      → format_dir_metas s ≡ ok tt (dirs_formatted s)
  unfolding format_dir_metas
  format_dir_metas_lem fits =
      pwrite_direct_completes s.super_meta.dir_meta_total_size s.super_meta.dir_meta_offset _ s
        quiet fits

  format_file_metas_lem :
      s.super_meta.file_meta_offset + s.super_meta.file_meta_total_size ≤ s.dev.dev_size
      → format_file_metas s ≡ ok tt (files_formatted s)
  unfolding format_file_metas
  format_file_metas_lem fits =
      pwrite_direct_completes s.super_meta.file_meta_total_size s.super_meta.file_meta_offset _ s
        quiet fits

  format_file_block_metas_lem :
      s.super_meta.file_block_meta_offset + s.super_meta.file_block_meta_total_size ≤ s.dev.dev_size
      → format_file_block_metas s ≡ ok tt (blocks_formatted s)
  unfolding format_file_block_metas
  format_file_block_metas_lem fits =
      pwrite_direct_completes s.super_meta.file_block_meta_total_size
        s.super_meta.file_block_meta_offset _ s quiet fits

-- On a device that is larger than its metadata, every region lies on the device.
regions_fit :
    (device_size : ℕ)
    → data_start ≤ device_size
    → device_size < u64
    → let m = format_super_block 0 format_uuid device_size in
      (m.dir_meta_offset + m.dir_meta_total_size ≤ device_size)
      × (m.file_meta_offset + m.file_meta_total_size ≤ device_size)
      × (m.file_block_meta_offset + m.file_block_meta_total_size ≤ device_size)
      × (m.block_data_start_offset ≤ device_size)
      × (0 < m.block_data_start_offset)
      × (m.magic ≡ k_block_fs_magic)
unfolding format_super_block
regions_fit device_size large word = (
  omega (arith, large),
  omega (arith, large),
  omega (arith, large),
  omega (arith, large),
  omega arith,
  refl,
)

-- The pool of a new handle, with the blocks below a count.
pub loaded_pool :
    (n : ℕ)
    → let h = initialize_meta n (record { max_block_num = 0; block_id_pool = [] }) in
      ((a : ℕ) → a < n → count a h.block_id_pool ≡ 1)
      × ((a : ℕ) → n ≤ a → count a h.block_id_pool ≡ 0)
unfolding initialize_meta
loaded_pool n =
    let empty : BlockHandle = record { max_block_num = 0; block_id_pool = [] } in
    let pool = initialize_meta-grows empty n ((λ a. omega arith), λ a l. refl) (omega arith) in
    (λ a l. pool.2 a (omega arith) l, pool.0.1)

module _ (crc_of : SuperBlockMeta → ℕ) (s : Fs) (quiet : s.dev.outcomes ≡ [])
    (large : data_start ≤ s.dev.dev_size) (word : s.dev.dev_size < u64) where
  pub format_lem : format crc_of s ≡ ok tt (formatted crc_of s)
  unfolding format
  format_lem =
      let s0 = initialize s in
      let s1 : Fs = record s0 { dev = record s0.dev { outcomes = [] } } in
      let s2 = super_formatted crc_of s1 in
      let s3 = dirs_formatted s2 in
      let s4 = files_formatted s3 in
      let fit = regions_fit s.dev.dev_size large word in
      rw (cleanup_lem s0 quiet (omega (arith, large)), ◌>>=◌, ◌>>◌) rw
        (format_super_lem s1 refl crc_of (omega (arith, large)), ◌>>=◌, ◌>>◌) rw
        (format_dir_metas_lem s2 refl (fit.0), ◌>>=◌, ◌>>◌) rw
        (format_file_metas_lem s3 refl (fit.1), ◌>>=◌, ◌>>◌)
        (format_file_block_metas_lem s4 refl (fit.2))

  -- What formatting leaves, read back.
  pub reads_back :
      (v : Fs)
      → SkipsField crc_of s
      → let t = initialize (on_formatted crc_of s v) in
        load_open_device crc_of t ≡ ok tt (all_free (regions_read t))
  unfolding load_open_device initialize_shm prefetch_super_meta read_super_block read_all_meta
  reads_back v skips =
      let t0 = initialize (on_formatted crc_of s v) in
      let m = t0.dev.super_block in
      let fit = regions_fit s.dev.dev_size large word in
      let sound : m.crc ≡ crc_of m =
        sym (skips.of_super (format_super_block 0 format_uuid s.dev.dev_size) _) in
      let sound_test = ap (λ c. c == crc_of m) sound ∙ ==_refl (crc_of m) in
      let magic_test = ap (λ c. c == k_block_fs_magic) fit.5 ∙ ==_refl k_block_fs_magic in
      let metas = λ (i max : ℕ) (h : i < max). lt→ltb i max h in
      rw
        (
          pwrite_direct_completes k_super_block_size k_super_block_offset (λ d. d) t0 refl
              (omega (arith, large)),
          sound_test,
          magic_test,
          lt→ltb 0 m.block_data_start_offset (fit.4),
          ◌>>=◌,
          ◌>>◌,
        )
        rw
        (
          pwrite_direct_completes m.block_data_start_offset 0 (λ d. d) t0 refl
              (omega (arith, fit.3)),
          ◌>>=◌,
          ◌>>◌,
        )
        (load_all_metas-all_free crc_of (regions_read t0) sound (fit.5) refl skips.of_dir
          skips.of_file skips.of_file_block (λ i h. rw (lt→ltb i m.max_file_num h) refl)
          (λ i h. rw (lt→ltb i m.max_file_num h) refl)
          (λ i h. rw (lt→ltb i m.max_file_block_num h) refl))

  -- Formatting a device that is larger than its metadata and completes its transfers succeeds, where no
  -- checksum reads its own field, and loading the device then succeeds too: the super block in memory is
  -- the one that was written, every slot of the three regions is free, once and in order, the pool holds
  -- each block below the count of the super block once and no other, and there are no directories and no
  -- files.
  load_device-format :
      SkipsField crc_of s
      → (t : Fs) × (u : Fs) × (format crc_of s ≡ ok tt t)
        × (load_device crc_of t ≡ ok tt u)
        × (u.super_meta ≡ t.super_meta)
        × (u.dir_handle.free_dhs ≡ up_from 0 u.super_meta.max_file_num)
        × (u.file_handle.free_fhs ≡ up_from 0 u.super_meta.max_file_num)
        × (u.file_block_handle.free_fbhs ≡ up_from 0 u.super_meta.max_file_block_num)
        × ((a : ℕ) → a < u.super_meta.curr_block_num → count a u.block_handle.block_id_pool ≡ 1)
        × ((a : ℕ) → u.super_meta.curr_block_num ≤ a → count a u.block_handle.block_id_pool ≡ 0)
        × (u.dir_handle.created_dirs ≡ [])
        × (u.file_handle.created_files ≡ [])
  unfolding load_device
  load_device-format skips =
      let t = formatted crc_of s in
      let u = all_free (regions_read (initialize t)) in
      let pool = loaded_pool u.super_meta.curr_block_num in
      (t, u, format_lem, reads_back t skips, refl, refl, refl, refl, pool.0, pool.1, refl, refl)
