-- ===== src/File/Truncate/Whole.antt =====
-- `ftruncate` to nothing (lib/file.cc), from the state before to the state after.
use blockfs.Prelude.{
  some, length, take_all, bytes_eq_inst, key_eq_inst, ℕ, ◌+◌, ◌*◌, ◌≤◌, ◌<◌, ◌≡◌, ◌≢◌, refl, ap,
  ◌∙◌, sym, subst, List, [], ◌∷◌, ◌++◌, false, nat_eq, count, IsDistinct, arith, lt→ltb,
  le→ltb_false,
}
use blockfs.Prelude.Map.{find, update, update_at}
use blockfs.Meta.{FileMeta, k_block_fs_page_size, k_block_fs_max_file_name_len}
use blockfs.Directory.{page_align_index}
use blockfs.FileBlock.{used_block_ids}
use blockfs.File.Shrink.{inherit, shrink_file, ftruncate}
use blockfs.File.Truncate.Finish.{Fits, update_elsewhere}
use blockfs.File.Truncate.Split.{IsReady, shrink_rest}
use blockfs.File.Truncate.Emptied.{emptied, shrink_rest-emptied, emptied-IsEmptied}
use blockfs.File.Truncate.Entered.{
  Rest, rest_of, CanEmpty, o, claim, inherited, renewed, moved, apart, shrink_file-entered,
}
use blockfs.State.{Fs, ok, file_meta, file_block_meta}

module _ (file fb n dir : ℕ) (rest : List ℕ) (s : Fs) where
  abbrev slot : ℕ
  slot = o file fb n dir rest s

  abbrev after : Fs
  after = renewed file fb n dir rest s

  abbrev given : Fs
  given = inherited file fb n dir rest s

  abbrev claims : FileMeta → FileMeta
  claims m = claim file fb n dir rest s m

  -- The new record is the claimed one, but for what it inherits.
  new-field :
      {A : Type 0} (get : FileMeta → A)
      → ((m : FileMeta) → get (inherit (file_meta file s) 0 m) ≡ get m)
      → CanEmpty file fb n dir rest s
      → get (after.file_handle.metas n) ≡ get (claims (s.file_handle.metas n))
  new-field get keeps c =
      let once = update s.file_handle.metas n (claims (s.file_handle.metas n)) in
      ap get (update_elsewhere given.file_handle.metas slot n _ (apart file fb n dir rest s c))
      ∙ ap get (update_at once n _)
      ∙ keeps (once n)
      ∙ ap get (update_at s.file_handle.metas n _)

  new-fh : CanEmpty file fb n dir rest s → (after.file_handle.metas n).fh ≡ n
  new-fh c = new-field (λ m. m.fh) (λ m. refl) c

  old-fh : CanEmpty file fb n dir rest s → (after.file_handle.metas slot).fh ≡ slot
  old-fh c =
      let other : slot ≢ n = λ e. apart file fb n dir rest s c (sym e) in
      ap (λ m. m.fh) (update_at given.file_handle.metas slot _)
      ∙ ap (λ m. m.fh)
          (update_elsewhere
            (update s.file_handle.metas n (claim file fb n dir rest s (s.file_handle.metas n))) n
            slot _ other)
      ∙ ap (λ m. m.fh) (update_elsewhere s.file_handle.metas n slot _ other)
      ∙ c.own

  entered-IsReady :
      (w : Fs)
      → CanEmpty file fb n dir rest s
      → rest_of w ≡ rest_of (moved file fb n dir rest s after)
      → IsReady file fb slot n w
  entered-IsReady w c same = record {
    at = ap (λ r. (r.files file).meta) same ∙ ap (λ v. v.meta) (update_at s.files file _);
    items =
        ap (λ r. (r.files file).item_maps) same
        ∙ ap (λ v. v.item_maps) (update_at s.files file _)
        ∙ c.items;
    new_fh = ap (λ r. (r.metas n).fh) same ∙ new-fh c;
    old_is = ap (λ r. (r.metas slot).fh) same ∙ old-fh c;
    apart = apart file fb n dir rest s c;
    parents = ap (λ r. r.parent_files) same ∙ c.parents;
    quiet = ap (λ r. r.dev.outcomes) same ∙ c.quiet;
    fits_new = fits_kept n c.fits_new;
    fits_old = fits_kept slot c.fits_old;
    fits_block =
        subst
          (λ (r : Rest).
            r.super_meta.file_block_meta_offset
              + r.super_meta.file_block_meta_size * fb
              + r.super_meta.file_block_meta_size
            ≤ r.dev.dev_size)
          (sym same) c.fits_block;
  }
    where
      fits_kept : (i : ℕ) → Fits i s → Fits i w
      fits_kept i fits =
          subst
            (λ (r : Rest).
              r.super_meta.file_meta_offset
                + r.super_meta.file_meta_size * page_align_index r.super_meta.file_meta_size i
                + k_block_fs_page_size
              ≤ r.dev.dev_size)
            (sym same) fits

  -- The file keeps its directory and its name, which fits the field.
  entered-dh :
      (w : Fs)
      → CanEmpty file fb n dir rest s
      → rest_of w ≡ rest_of (moved file fb n dir rest s after)
      → (file_meta file w).dh ≡ (file_meta file s).dh
  entered-dh w c same =
      ap (λ r. (r.metas (r.files file).meta).dh) same
      ∙ ap (λ v. (after.file_handle.metas v.meta).dh) (update_at s.files file _)
      ∙ new-field (λ m. m.dh) (λ m. refl) c

  entered-file_name :
      (w : Fs)
      → CanEmpty file fb n dir rest s
      → rest_of w ≡ rest_of (moved file fb n dir rest s after)
      → length (file_meta file s).file_name ≤ k_block_fs_max_file_name_len
      → (file_meta file w).file_name ≡ (file_meta file s).file_name
  entered-file_name w c same short =
      ap (λ r. (r.metas (r.files file).meta).file_name) same
      ∙ ap (λ v. (after.file_handle.metas v.meta).file_name) (update_at s.files file _)
      ∙ new-field (λ m. m.file_name) (λ m. refl) c
      ∙ take_all k_block_fs_max_file_name_len (file_meta file s).file_name short

  -- A file that is not empty, with a name that fits its record and one file block whose ids are
  -- distinct and not free, is cut to nothing, where the first free record may be used, the directory is
  -- there, no old version waits for its recycling and the device completes the writes. The call
  -- succeeds; the file is found under its name as before, is empty under the new record and has no
  -- blocks; its blocks are free again, each once, and so are the slots of its file block and of its old
  -- record, which is cleared. Its time of modification is the one that stood in the free record.
  pub ftruncate-empties :
      0 < (file_meta file s).size
      → length (file_meta file s).file_name ≤ k_block_fs_max_file_name_len
      → CanEmpty file fb n dir rest s
      → IsDistinct s.block_handle.block_id_pool
      → ((a : ℕ)
          → count a (used_block_ids (file_block_meta fb s)) + count a s.block_handle.block_id_pool
            ≤ 1)
      → (t : Fs) × (ftruncate file 0 s ≡ ok tt t)
        × ((t.files file).meta ≡ n)
        × ((t.files file).item_maps ≡ [])
        × ((file_meta file t).size ≡ 0)
        × ((file_meta file t).mtime ≡ (s.file_handle.metas n).mtime)
        × ((a : ℕ)
            → count a t.block_handle.block_id_pool
              ≡ count a (used_block_ids (file_block_meta fb s))
                + count a s.block_handle.block_id_pool)
        × (t.file_block_handle.free_fbhs ≡ s.file_block_handle.free_fbhs ++ fb ∷ [])
        × (t.file_handle.free_fhs ≡ rest ++ slot ∷ [])
        × ((t.file_handle.metas slot).used ≡ false)
        × (find ((file_meta file s).dh, (file_meta file s).file_name) t.file_handle.created_files
            ≡ some file)
  unfolding ftruncate
  ftruncate-empties some_bytes short c distinct own =
      let (w, run, same, found) = shrink_file-entered file fb n dir rest s c in
      let ready = entered-IsReady w c same in
      let pool : w.block_handle.block_id_pool ≡ s.block_handle.block_id_pool =
        ap (λ r. r.block_handle.block_id_pool) same in
      let ids : used_block_ids (file_block_meta fb w) ≡ used_block_ids (file_block_meta fb s) =
        ap (λ r. used_block_ids (r.file_block_handle.metas fb)) same in
      let done =
        emptied-IsEmptied file fb slot n w ready (subst IsDistinct (sym pool) distinct)
          (λ a. subst (λ p. p ≤ 1) (λ i. count a (sym ids i) + count a (sym pool i)) (own a)) in
      let t = emptied file fb slot n w in
      let shrunk : shrink_file file 0 s ≡ ok tt t =
        run
        ∙ ap (λ i. shrink_rest file slot i w) c.own
        ∙ shrink_rest-emptied file fb slot n w ready in
      let cut : ftruncate file 0 s ≡ shrink_file file 0 s =
        rw (le→ltb_false (file_meta file s).size 0 (omega arith))
          (rw (lt→ltb 0 (file_meta file s).size some_bytes) refl) in
      (
        t,
        cut ∙ shrunk,
        done.record_at,
        done.no_blocks,
        done.no_bytes,
        done.times ∙ ap (λ r. (r.metas n).mtime) same ∙ new-field (λ m. m.mtime) (λ m. refl) c,
        λ a. done.pool a ∙ (λ i. count a (ids i) + count a (pool i)),
        done.block_slots ∙ ap (λ r. r.file_block_handle.free_fbhs ++ fb ∷ []) same,
        done.record_slots ∙ ap (λ r. r.free_fhs ++ slot ∷ []) same,
        done.old_free,
        ap (find ((file_meta file s).dh, (file_meta file s).file_name)) done.names
            ∙ (λ i.
                find (sym (entered-dh w c same) i, sym (entered-file_name w c same short) i)
                  w.file_handle.created_files)
            ∙ found,
      )
