-- ===== src/File/Truncate/Split.antt =====
-- The middle of `File::ShrinkFile` (lib/file.cc) for a file that is cut to nothing: the blocks of the
-- file move to its old version, and both records are written.
use blockfs.Prelude.{ℕ, ◌+◌, ◌*◌, ◌≤◌, ◌≡◌, ◌≢◌, refl, ap, ◌∙◌, [], ◌∷◌, nat_eq}
use blockfs.Prelude.Map.{update_at}
use blockfs.File.{write_file_slot, write_file_meta}
use blockfs.File.Grow.{slot_saved, write_file_slot_lem}
use blockfs.File.Parent.{parent}
use blockfs.File.Shrink.{new_parent_file, recycle_parent_fh}
use blockfs.File.Truncate.Finish.{
  Fits, write_file_meta_at, slot_saved-fh, bind_ok, IsSaved, recycled_saved,
  recycle_parent_fh-recycled,
}
use blockfs.FileHandle.{add_parent_file}
use blockfs.FileHandle.Named.Noted.{field_same}
use blockfs.State.{
  Fs, ParentFile, Action, Outcome, ok, ◌>>=◌, ◌>>◌, pure, modify, on_file, on_file_slot,
  on_file_meta, on_file_handle,
}

-- `ShrinkFile` from the moment that the file is entered under its new record, with nothing inherited:
-- there is no file block to add or to write.
abbrev pub shrink_rest : ℕ → ℕ → ℕ → Action (Unit {0})
shrink_rest file old_slot old_fh = do
  p ← new_parent_file file old_slot 0
  add_parent_file p
  pure tt
  modify (on_file_meta file λ m. record m { size = 0 })
  write_file_meta file
  pure tt
  write_file_slot old_fh
  recycle_parent_fh file old_fh

module _ (file fb o n : ℕ) (w : Fs) where
  -- The file has its new record, and the old one is its own.
  pub record IsReady : Type 0 where
    pub at : (w.files file).meta ≡ n
    pub items : (w.files file).item_maps ≡ (0, fb) ∷ []
    pub new_fh : (w.file_handle.metas n).fh ≡ n
    pub old_is : (w.file_handle.metas o).fh ≡ o
    pub apart : n ≢ o
    pub parents : w.file_handle.parent_files ≡ []
    pub quiet : w.dev.outcomes ≡ []
    pub fits_new : Fits n w
    pub fits_old : Fits o w
    pub fits_block :
        w.super_meta.file_block_meta_offset
          + w.super_meta.file_block_meta_size * fb
          + w.super_meta.file_block_meta_size
        ≤ w.dev.dev_size

  abbrev pub old_version : ParentFile
  old_version = parent o fb 0 w

  abbrev pub detached : Fs
  detached = on_file file (λ v. record v { item_maps = [] }) w

  -- The file without blocks, and its old version among the parents.
  abbrev pub split_off : Fs
  split_off = on_file_handle (λ h. record h { parent_files = (o, old_version) ∷ [] }) detached

  new_parent_file-parent : IsReady → new_parent_file file o 0 w ≡ ok old_version detached
  unfolding new_parent_file
  new_parent_file-parent r =
      ap (λ items. ok (record { meta = o; offset = 0; fb_maps = items }) detached) r.items

  add_parent_file-parent : IsReady → add_parent_file old_version detached ≡ ok tt split_off
  unfolding add_parent_file
  add_parent_file-parent r =
      rw (r.parents, add_parent_file, ◌>>=◌)
        (ap
          (λ i.
            ok tt
              (on_file_handle (λ h. record h { parent_files = (i, old_version) ∷ [] }) detached))
          r.old_is)

  pub at_new : IsReady → (split_off.files file).meta ≡ n
  at_new r = ap (λ v. v.meta) (update_at w.files file _) ∙ r.at

  abbrev pub resized : Fs
  resized = on_file_slot n (λ m. record m { size = 0 }) split_off

  resized-fh : (j : ℕ) → (resized.file_handle.metas j).fh ≡ (w.file_handle.metas j).fh
  resized-fh j =
      field_same (λ m. m.fh) w.file_handle.metas j n (λ m. record m { size = 0 }) (λ m. refl)

  unfoldable pub new_saved : Fs
  new_saved = slot_saved n resized

  unfoldable pub both_saved : Fs
  both_saved = slot_saved o new_saved

  write_resized : IsReady → write_file_meta file resized ≡ ok tt new_saved
  unfolding new_saved
  write_resized r =
      write_file_meta_at file n resized (at_new r) (resized-fh n ∙ r.new_fh) r.quiet r.fits_new

  write_old : IsReady → write_file_slot o new_saved ≡ ok tt both_saved
  unfolding new_saved both_saved
  write_old r = write_file_slot_lem o new_saved refl r.fits_old

  pub both_saved-IsSaved : IsReady → IsSaved file fb o n old_version both_saved
  unfolding both_saved new_saved
  both_saved-IsSaved r = record {
    is_parent = refl;
    at = at_new r;
    new_fh = slot_saved-fh o n new_saved ∙ slot_saved-fh n n resized ∙ resized-fh n ∙ r.new_fh;
    old_is = slot_saved-fh o o new_saved ∙ slot_saved-fh n o resized ∙ resized-fh o ∙ r.old_is;
    apart = r.apart;
    parents = refl;
    quiet = refl;
    fits_new = r.fits_new;
    fits_old = r.fits_old;
    fits_block = r.fits_block;
  }

  -- The file's own record is that of its new slot.
  resize :
      IsReady
      → (k : Action (Unit {0})) {out : Outcome (Unit {0})} → k resized ≡ out
      → (modify (on_file_meta file λ m. record m { size = 0 }) >> k) split_off ≡ out
  resize r k next =
      ap (λ i. k (on_file_slot i (λ m. record m { size = 0 }) split_off)) (at_new r) ∙ next

  pub shrink_rest-recycled :
      IsReady → shrink_rest file o o w ≡ ok tt (recycled_saved file fb o n old_version both_saved)
  shrink_rest-recycled r =
      bind_ok (new_parent_file file o 0) _ w detached old_version (new_parent_file-parent r) (
        bind_ok (add_parent_file old_version) _ detached split_off tt (add_parent_file-parent r) (
          resize r
            (write_file_meta file >> (pure tt >> (write_file_slot o >> recycle_parent_fh file o)))
            (bind_ok (write_file_meta file)
              (λ _. pure tt >> (write_file_slot o >> recycle_parent_fh file o)) resized new_saved tt
              (write_resized r)
              (bind_ok (write_file_slot o) (λ _. recycle_parent_fh file o) new_saved both_saved tt
                (write_old r)
                (recycle_parent_fh-recycled file fb o n old_version both_saved
                  (both_saved-IsSaved r))))))
