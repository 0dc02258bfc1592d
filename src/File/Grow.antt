-- ===== src/File/Grow.antt =====
-- The whole of `File::ExtendFile` (lib/file.cc) for a file that has blocks already.
use blockfs.Prelude.{
  is_empty, ℕ, ◌+◌, ◌-◌, ◌*◌, ◌≤◌, ◌<◌, ◌≡◌, inl, inr, refl, ap, ◌∙◌, sym, subst, List, [], ◌∷◌,
  ◌++◌, some, false, ◌==◌, length, take, drop, length-take, arith, le→ltb_false, le→leb, lt→ltb,
  nat_eq, u32,
}
use blockfs.Prelude.Map.{find, update, update_at}
use blockfs.Meta.{FileBlockMeta, k_block_size, k_file_block_capacity, k_block_fs_page_size}
use blockfs.BlockHandle.{get_free_block_id_lock}
use blockfs.Directory.{page_align_index}
use blockfs.FileBlock.{is_block_full, used_block_ids, put_file_block_on_disk, write_file_block_meta}
use blockfs.FileBlock.Laws.{IsFileBlock}
use blockfs.File.{get_file_block, write_file_slot, write_file_meta, put_file_page_on_disk}
use blockfs.File.Extend.{
  num_blocks_needed, choose_file_block, take_block_ids, take_block_ids_or_undo, extend_file,
}
use blockfs.File.Growth.{blocks_of, num_blocks_needed-blocks_of, with_meta, fill_file_block-appends}
use blockfs.State.{
  Fs, ok, pwrite_direct, take_outcome, file_block_meta, file_meta, on_file_meta, on_file_slot,
  attempt, ◌>>=◌,
}

-- A file block record that is written: its checksum is fresh, and the device has it.
abbrev pub block_saved : ℕ → Fs → Fs
block_saved index s =
    let m = record (file_block_meta index s) {
      crc = s.crc32.of_file_block (file_block_meta index s);
    } in
    let t = with_meta index m s in
    record t {
      dev = put_file_block_on_disk index (file_block_meta index t) (record s.dev { outcomes = [] });
    }

pub write_file_block_meta_lem :
    (index : ℕ) (s : Fs)
    → s.dev.outcomes ≡ []
    → s.super_meta.file_block_meta_offset
        + s.super_meta.file_block_meta_size * index
        + s.super_meta.file_block_meta_size
      ≤ s.dev.dev_size
    → write_file_block_meta index s ≡ ok tt (block_saved index s)
unfolding write_file_block_meta pwrite_direct take_outcome
write_file_block_meta_lem index s quiet fits =
    rw (quiet, le→ltb_false s.dev.dev_size _ fits, ◌>>=◌, pwrite_direct) refl

-- A file record that is written, with the page that it shares.
abbrev pub slot_saved : ℕ → Fs → Fs
slot_saved fh s =
    let t = on_file_slot fh (λ m. record m { crc = s.crc32.of_file m }) s in
    record t {
      dev =
          put_file_page_on_disk s.super_meta.file_meta_size
            (page_align_index s.super_meta.file_meta_size fh) t.file_handle.metas
            (record s.dev { outcomes = [] });
    }

pub write_file_slot_lem :
    (fh : ℕ) (s : Fs)
    → s.dev.outcomes ≡ []
    → s.super_meta.file_meta_offset
        + s.super_meta.file_meta_size * page_align_index s.super_meta.file_meta_size fh
        + k_block_fs_page_size
      ≤ s.dev.dev_size
    → write_file_slot fh s ≡ ok tt (slot_saved fh s)
unfolding write_file_slot pwrite_direct take_outcome
write_file_slot_lem fh s quiet fits =
    rw (quiet, le→ltb_false s.dev.dev_size _ fits, ◌>>=◌, pwrite_direct) refl

pub choose_file_block_lem :
    (file fb : ℕ) (s : Fs)
    → 0 < (file_meta file s).size
    → find (length (s.files file).item_maps - 1) (s.files file).item_maps ≡ some fb
    → (file_block_meta fb s).used_block_num < k_file_block_capacity
    → choose_file_block file s ≡ ok (fb, false) s
unfolding choose_file_block get_file_block
choose_file_block_lem file fb s some_bytes found room =
    let old : ((file_meta file s).size == 0) ≡ false = ground arith in
    let open_block : is_block_full (file_block_meta fb s) ≡ false = ground arith in
    rw (old, found, ◌>>=◌) rw (open_block, ◌>>=◌) refl

-- The state with n ids taken from the pool.
abbrev ids_taken : ℕ → Fs → Fs
ids_taken n s = record s {
  block_handle = record s.block_handle { block_id_pool = drop n s.block_handle.block_id_pool };
}

take_block_ids_or_undo_lem :
    (n fb : ℕ) (s : Fs)
    → 0 < n
    → n ≤ length s.block_handle.block_id_pool
    → take_block_ids_or_undo n fb false s ≡ ok (take n s.block_handle.block_id_pool) (ids_taken n s)
unfolding take_block_ids_or_undo take_block_ids get_free_block_id_lock
take_block_ids_or_undo_lem n fb s some_ids enough =
    rw
      (
        lt→ltb 0 n some_ids,
        le→ltb_false (length s.block_handle.block_id_pool) n enough,
        ◌>>=◌,
        attempt,
      )
      refl

is_empty-length : {A : Type 0} (xs : List A) → 0 < length xs → is_empty xs ≡ false
is_empty-length [] h = absurd (omega arith)
is_empty-length (x ∷ xs) h = refl

module _ (file fb offset : ℕ) (s : Fs) where
  abbrev pub need : ℕ
  need = num_blocks_needed (file_meta file s).size offset

  abbrev pub new_ids : List ℕ
  new_ids = take need s.block_handle.block_id_pool

  -- The file with its new size, before its record is written.
  abbrev resized : FileBlockMeta → Fs
  resized m =
      on_file_meta file (λ v. record v { size = offset })
        (block_saved fb (with_meta fb m (ids_taken need s)))

  -- The state that the growth leaves.
  abbrev pub grown : FileBlockMeta → Fs
  grown m = slot_saved (file_meta file (resized m)).fh (resized m)

  pub extend_file_lem :
      0 < (file_meta file s).size
      → offset ≤ s.super_meta.device_size
      → find (length (s.files file).item_maps - 1) (s.files file).item_maps ≡ some fb
      → IsFileBlock (file_block_meta fb s)
      → 0 < need
      → need ≤ length s.block_handle.block_id_pool
      → (file_block_meta fb s).used_block_num + need ≤ k_file_block_capacity
      → s.dev.outcomes ≡ []
      → s.super_meta.file_block_meta_offset
          + s.super_meta.file_block_meta_size * fb
          + s.super_meta.file_block_meta_size
        ≤ s.dev.dev_size
      → s.super_meta.file_meta_offset
          + s.super_meta.file_meta_size
            * page_align_index s.super_meta.file_meta_size (file_meta file s).fh
          + k_block_fs_page_size
        ≤ s.dev.dev_size
      → (m : FileBlockMeta) × (extend_file file offset s ≡ ok tt (grown m))
        × IsFileBlock m
        × (used_block_ids m ≡ used_block_ids (file_block_meta fb s) ++ new_ids)
  unfolding extend_file write_file_meta
  extend_file_lem some_bytes on_device found valid some_ids enough room quiet fits fits' =
      let count : length new_ids ≡ need =
        length-take need s.block_handle.block_id_pool ∙ omega arith in
      elim (fill_file_block-appends fb new_ids (ids_taken need s) valid) [
        | inr (over, _) ↦ absurd (omega (arith, over, count, room))
        | inl (_, (m, filled, valid', kept)) ↦
            let s2 = with_meta fb m (ids_taken need s) in
            let s3 = resized m in
            let same_fh : (file_meta file s3).fh ≡ (file_meta file s).fh = ground arith in
            let fits_page : s.super_meta.file_meta_offset
                  + s.super_meta.file_meta_size
                    * page_align_index s.super_meta.file_meta_size (file_meta file s3).fh
                  + k_block_fs_page_size
                ≤ s.dev.dev_size =
              subst
                (λ i.
                  s.super_meta.file_meta_offset
                    + s.super_meta.file_meta_size * page_align_index s.super_meta.file_meta_size i
                    + k_block_fs_page_size
                  ≤ s.dev.dev_size)
                (sym same_fh) fits' in
            (
              m,
              rw
                  (
                    le→leb offset s.super_meta.device_size on_device,
                    choose_file_block_lem file fb s some_bytes found
                        (omega (arith, room, some_ids)),
                    ◌>>=◌,
                  )
                  rw (take_block_ids_or_undo_lem need fb s some_ids enough, ◌>>=◌) rw
                  (filled, is_empty-length new_ids (omega (arith, count, some_ids)), ◌>>=◌) rw
                  (write_file_block_meta_lem fb s2 quiet fits, ◌>>=◌)
                  (write_file_slot_lem (file_meta file s3).fh s3 refl fits_page),
              valid',
              kept,
            )
      ]

  -- The state behind a growth by n blocks.
  abbrev Grew : ℕ → Fs → Type 0
  Grew n t =
      ((file_meta file t).size ≡ offset)
      × (used_block_ids (file_block_meta fb t)
          ≡ used_block_ids (file_block_meta fb s) ++ take n s.block_handle.block_id_pool)
      × (t.block_handle.block_id_pool ≡ drop n s.block_handle.block_id_pool)
      × (t.dev.file_block_metas fb ≡ file_block_meta fb t)

  -- How many blocks a growth to `offset` bytes is short of, both sizes rounded up to whole blocks.
  abbrev pub missing : ℕ
  missing = blocks_of offset - blocks_of (file_meta file s).size

  -- A file that has blocks grows to a size of more blocks, where the pool has the missing blocks, its
  -- file block has room for them, the device completes the two writes and the count fits 32 bits: it has
  -- its new size; the missing blocks, which are those of the new size less those of the old, are the
  -- first of the pool and stand in order behind its own; they and no others have left the pool; and the
  -- device has the new list of blocks.
  pub extend_file-grows :
      0 < (file_meta file s).size
      → (file_meta file s).size ≤ offset
      → offset ≤ k_block_size * (u32 - 1)
      → offset ≤ s.super_meta.device_size
      → find (length (s.files file).item_maps - 1) (s.files file).item_maps ≡ some fb
      → IsFileBlock (file_block_meta fb s)
      → 0 < missing
      → missing ≤ length s.block_handle.block_id_pool
      → (file_block_meta fb s).used_block_num + missing ≤ k_file_block_capacity
      → s.dev.outcomes ≡ []
      → s.super_meta.file_block_meta_offset
          + s.super_meta.file_block_meta_size * fb
          + s.super_meta.file_block_meta_size
        ≤ s.dev.dev_size
      → s.super_meta.file_meta_offset
          + s.super_meta.file_meta_size
            * page_align_index s.super_meta.file_meta_size (file_meta file s).fh
          + k_block_fs_page_size
        ≤ s.dev.dev_size
      → (t : Fs) × (extend_file file offset s ≡ ok tt t)
        × ((file_meta file t).size ≡ offset)
        × (used_block_ids (file_block_meta fb t)
            ≡ used_block_ids (file_block_meta fb s) ++ take missing s.block_handle.block_id_pool)
        × (t.block_handle.block_id_pool ≡ drop missing s.block_handle.block_id_pool)
        × (t.dev.file_block_metas fb ≡ file_block_meta fb t)
  extend_file-grows some_bytes grows word on_device found valid some_ids enough room quiet fits
        fits' =
      let asked : need ≡ missing =
        num_blocks_needed-blocks_of (file_meta file s).size offset grows word in
      let (m, run, _, kept) =
        extend_file_lem some_bytes on_device found valid (subst (λ n. 0 < n) (sym asked) some_ids)
          (subst (λ n. n ≤ length s.block_handle.block_id_pool) (sym asked) enough)
          (subst (λ n. (file_block_meta fb s).used_block_num + n ≤ k_file_block_capacity)
            (sym asked) room)
          quiet fits fits' in
      let grew : Grew need (grown m) = (
        ground arith,
        ap used_block_ids (update_at (update s.file_block_handle.metas fb m) fb _)
            ∙ ap used_block_ids (update_at s.file_block_handle.metas fb m)
            ∙ kept,
        refl,
        update_at s.dev.file_block_metas fb _,
      ) in
      let done = subst (λ n. Grew n (grown m)) asked grew in
      (grown m, run, done.0, done.1, done.2, done.3)
