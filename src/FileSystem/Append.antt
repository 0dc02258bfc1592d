-- ===== src/FileSystem/Append.antt =====
-- `FileSystem::PwriteFile` (lib/file_system.cc) behind the end of a file: `OpenFile::pwrite` of
-- lib/file.cc grows the file and then writes.
use blockfs.Prelude.{
  ℕ, ◌+◌, ◌-◌, ◌*◌, ◌/◌, ◌%◌, ◌≤◌, ◌<◌, ◌≡◌, ◌≢◌, inl, inr, refl, ap, ◌∙◌, sym, List, [], ◌∷◌, ◌++◌,
  some, true, false, ltb, ◌==◌, length, length-take, length-append, get_or, get_or-take, arith,
  lt→ltb, Bool-cases, u64, nat_eq,
}
use blockfs.Prelude.Map.{find}
use blockfs.Meta.{FileBlockMeta, k_block_size, k_file_block_capacity, k_block_fs_page_size}
use blockfs.Device.{read_bytes}
use blockfs.Directory.{page_align_index}
use blockfs.FileBlock.{used_block_ids}
use blockfs.FileBlock.Laws.{IsFileBlock}
use blockfs.File.{update_time_stamp}
use blockfs.File.Growth.{blocks_of, num_blocks_needed-blocks_of}
use blockfs.File.Extend.{extend_file}
use blockfs.File.Grow.{need, new_ids}
use blockfs.File.Append.{Extended, extend_file-extends}
use blockfs.File.Shrink.{ftruncate}
use blockfs.FileHandle.{get_open_file}
use blockfs.OpenFile.{pwrite, write_data}
use blockfs.OpenFile.Pieces.{address}
use blockfs.FileSystem.{pread_file, pwrite_file}
use blockfs.FileSystem.Data.{stamped, read_behind}
use blockfs.State.{Fs, OpenFile, ok, result, final, file_meta, file_block_meta, attempt, ◌>>=◌}

length-used_block_ids :
    (m : FileBlockMeta) → IsFileBlock m → length (used_block_ids m) ≡ m.used_block_num
length-used_block_ids m (full, within) =
    length-take m.used_block_num m.block_id ∙ omega (arith, full, within)

module _ (fd fb offset size : ℕ) (f : OpenFile) (buffer : ℕ → ℕ) (s : Fs) where
  pwrite_file-extended :
      (t : Fs)
      → find fd s.file_handle.open_files ≡ some f
      → 0 < size
      → (file_meta f.file s).size < offset + size
      → offset + size < u64
      → extend_file f.file (offset + size) s ≡ ok tt t
      → pwrite_file fd buffer size offset s
        ≡ write_data fd f.file buffer size offset (stamped f.file t)
  unfolding pwrite_file get_open_file pwrite ftruncate update_time_stamp
  pwrite_file-extended t opened some_bytes grows word extended =
      let some_size : (size == 0) ≡ false = ground arith in
      let sum : (offset + size) % u64 ≡ offset + size = omega arith in
      let larger : ltb (file_meta f.file s).size (offset + size) ≡ true = lt→ltb _ _ grows in
      rw (opened, attempt, get_open_file, ◌>>=◌) rw (some_size, sum, larger, ◌>>=◌) rw
        (larger, extended, ◌>>=◌)
        (elim (Bool-cases (t.now % 2 == 0)) [
          | inl even ↦ rw (even, stamped, ◌>>=◌) refl
          | inr odd ↦ rw (odd, stamped, ◌>>=◌) refl
        ])

  -- The blocks of the file once it has grown.
  abbrev pub block_ids : List ℕ
  block_ids = used_block_ids (file_block_meta fb s) ++ new_ids f.file fb (offset + size) s

  length-block_ids :
      IsFileBlock (file_block_meta fb s)
      → need f.file fb (offset + size) s ≤ length s.block_handle.block_id_pool
      → length block_ids ≡ (file_block_meta fb s).used_block_num + need f.file fb (offset + size) s
  length-block_ids valid have =
      let old = length-used_block_ids (file_block_meta fb s) valid in
      let new = length-take (need f.file fb (offset + size) s) s.block_handle.block_id_pool in
      let both =
        length-append (used_block_ids (file_block_meta fb s))
          (new_ids f.file fb (offset + size) s) in
      omega (arith, both, old, new, have)

  Extended-get_or :
      (t : Fs)
      → Extended f.file fb (offset + size) s t
      → (i : ℕ) → i < length block_ids
      → get_or (file_block_meta fb t).block_id i 0 ≡ get_or block_ids i 0
  Extended-get_or t e i h =
      let count : length block_ids ≡ e.meta.used_block_num =
        sym (ap length e.ids) ∙ length-used_block_ids e.meta e.valid in
      ap (λ ids. get_or ids i 0) e.block_id
      ∙ sym (get_or-take e.meta.block_id e.meta.used_block_num i 0 (omega (arith, h, count)))
      ∙ ap (λ ids. get_or ids i 0) e.ids

  Extended-address :
      (t : Fs)
      → Extended f.file fb (offset + size) s t
      → (x : ℕ) → x < length block_ids * k_block_size
      → address t.super_meta.block_data_start_offset (file_block_meta fb t).block_id x
        ≡ address s.super_meta.block_data_start_offset block_ids x
  Extended-address t e x h =
      let start = ap (λ m. m.block_data_start_offset) e.super_meta in
      let id = Extended-get_or t e (x / k_block_size) (omega arith) in omega (arith, start, id)

  Extended-updated :
      (t : Fs)
      → Extended f.file fb (offset + size) s t
      → Extended f.file fb (offset + size) s (final (update_time_stamp f.file t))
  unfolding update_time_stamp
  Extended-updated t e =
      let updated = final (update_time_stamp f.file t) in
      let same : (file_meta f.file updated).size ≡ (file_meta f.file t).size = ground arith in
      record {
        meta = e.meta;
        valid = e.valid;
        ids = e.ids;
        block_id = e.block_id;
        size = same ∙ e.size;
        files = e.files;
        open_files = e.open_files;
        super_meta = e.super_meta;
        outcomes = e.outcomes;
        dev_size = e.dev_size;
        bytes = e.bytes;
      }

  Extended-stamped :
      (t : Fs)
      → Extended f.file fb (offset + size) s t
      → Extended f.file fb (offset + size) s (stamped f.file t)
  Extended-stamped t e = elim (Bool-cases (t.now % 2 == 0)) [
    | inl even ↦ rw (even, stamped) (Extended-updated t e)
    | inr odd ↦ rw (odd, stamped) e
  ]

  -- A write through the interface that ends behind the end of a file that has some bytes, in one file
  -- block with as many data blocks as they take, where pool and file block have room for the blocks
  -- that are missing, the old and the new blocks are different blocks of the device, and the device
  -- has the metadata and completes its transfers: all bytes are written, the file ends where the write
  -- ends, a read of the range gives the bytes back, and no other byte of the device changes. A gap
  -- before the write thus shows what its blocks held before.
  pub pwrite_file-grows :
      (s.files f.file).item_maps ≡ (0, fb) ∷ []
      → find fd s.file_handle.open_files ≡ some f
      → s.super_meta.block_size ≡ k_block_size
      → s.dev.outcomes ≡ []
      → 0 < size
      → 0 < (file_meta f.file s).size
      → (file_meta f.file s).size < offset + size
      → offset + size ≤ s.super_meta.device_size
      → offset + size ≤ k_file_block_capacity * k_block_size
      → IsFileBlock (file_block_meta fb s)
      → (file_block_meta fb s).used_block_num ≡ blocks_of (file_meta f.file s).size
      → (file_block_meta fb s).used_block_num < k_file_block_capacity
      → blocks_of (offset + size)
        ≤ (file_block_meta fb s).used_block_num + length s.block_handle.block_id_pool
      → s.super_meta.file_block_meta_offset
          + s.super_meta.file_block_meta_size * fb
          + s.super_meta.file_block_meta_size
        ≤ s.dev.dev_size
      → s.super_meta.file_meta_offset
          + s.super_meta.file_meta_size
            * page_align_index s.super_meta.file_meta_size (file_meta f.file s).fh
          + k_block_fs_page_size
        ≤ s.dev.dev_size
      → ((i : ℕ)
          → i < length block_ids
          → s.super_meta.block_data_start_offset
              + k_block_size * get_or block_ids i 0
              + k_block_size
            ≤ s.dev.dev_size)
      → ((i j : ℕ)
          → i < length block_ids
          → j < length block_ids
          → get_or block_ids i 0 ≡ get_or block_ids j 0
          → i ≡ j)
      → let after = final (pwrite_file fd buffer size offset s) in
        (result (pwrite_file fd buffer size offset s) ≡ some size)
        × (result (pread_file fd size offset after) ≡ some (read_bytes buffer 0 size))
        × ((file_meta f.file after).size ≡ offset + size)
        × ((a : ℕ)
            → ((k : ℕ)
                → k < size
                → address s.super_meta.block_data_start_offset block_ids (offset + k) ≢ a)
            → after.dev.bytes a ≡ s.dev.bytes a)
  unfolding update_time_stamp
  pwrite_file-grows items opened unit quiet some_bytes some_size grows on_device within valid full
        open_block enough fits fits' inside distinct =
      let found : find 0 (s.files f.file).item_maps ≡ some fb = ap (find 0) items in
      let last : find (length (s.files f.file).item_maps - 1) (s.files f.file).item_maps ≡ some fb =
        ap (λ m. find (length m - 1) m) items in
      let count =
        num_blocks_needed-blocks_of (file_meta f.file s).size (offset + size) (omega arith)
          (omega arith) in
      let room : (file_block_meta fb s).used_block_num + need f.file fb (offset + size) s
          ≤ k_file_block_capacity =
        omega (arith, count, full, within) in
      let have : need f.file fb (offset + size) s ≤ length s.block_handle.block_id_pool =
        omega (arith, count, full, enough) in
      let total = length-block_ids valid have in
      let long : offset + size ≤ length block_ids * k_block_size =
        omega (arith, total, count, full) in
      let short : length block_ids ≤ k_file_block_capacity = omega (arith, total, room) in
      let (t, run, e) =
        extend_file-extends f.file fb (offset + size) s some_size on_device last valid have
          open_block room quiet fits fits' in
      let t' = stamped f.file t in
      let e' = Extended-stamped t e in
      let (wrote, reads, kept, others) =
        read_behind fd fb (length block_ids) offset size f buffer s t'
          (pwrite_file-extended t opened some_bytes grows (omega arith) run)
          (ap (λ files. find 0 (files f.file).item_maps) e'.files ∙ found)
          (ap (find fd) e'.open_files ∙ opened) (ap (λ m. m.block_size) e'.super_meta ∙ unit)
          e'.outcomes some_bytes short long (omega (arith, e'.size)) (omega (arith, e'.size))
          (λ i h. omega (
            arith,
            inside i h,
            Extended-get_or t' e' i h,
            e'.dev_size,
            ap (λ m. m.block_data_start_offset) e'.super_meta,
          ))
          (λ i j hi hj same.
            distinct i j hi hj
              (sym (Extended-get_or t' e' i hi) ∙ same ∙ Extended-get_or t' e' j hj)) in
      (
        wrote,
        reads,
        kept ∙ e'.size,
        λ a apart.
            others a (λ k h same.
              apart k h (sym (Extended-address t' e' (offset + k) (omega (arith, long, h))) ∙ same))
            ∙ ap (λ bytes. bytes a) e'.bytes,
      )
