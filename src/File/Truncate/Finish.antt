-- ===== src/File/Truncate/Finish.antt =====
-- The second half of `File::ShrinkFile` (lib/file.cc) for a file that is cut to nothing: the old
-- version becomes a parent, the new record is written, and the parent is recycled.
use blockfs.Prelude.{
  ℕ, ◌+◌, ◌*◌, ◌≤◌, ◌≡◌, ◌≢◌, refl, ap, ◌∙◌, sym, subst, [], ◌∷◌, false, arith, nat_eq, ==_refl,
  ◌==◌,
}
use blockfs.Prelude.Map.{erase, update, update_at}
use blockfs.File.Shrink.{recycle}
use blockfs.Meta.{FileMeta, k_block_fs_page_size, minus_one}
use blockfs.FileHandle.Named.Noted.{field_same}
use blockfs.Directory.{page_align_index}
use blockfs.File.{clear_file_meta, write_file_slot, write_file_meta}
use blockfs.File.Grow.{slot_saved, write_file_slot_lem}
use blockfs.File.Parent.{parent, old_fh, old_fh-is, recycled, recycle-recycled}
use blockfs.File.Shrink.{remove_parent_file, recycle_parent_fh}
use blockfs.State.{Fs, ParentFile, Action, Outcome, ok, ◌>>=◌, on_file_slot, on_file_handle}

-- The page of a record lies on the device.
abbrev pub Fits : ℕ → Fs → Type 0
Fits i s =
    s.super_meta.file_meta_offset
      + s.super_meta.file_meta_size * page_align_index s.super_meta.file_meta_size i
      + k_block_fs_page_size
    ≤ s.dev.dev_size

-- Writing the record of a file whose slot is known.
pub write_file_meta_at :
    (file n : ℕ) (s : Fs)
    → (s.files file).meta ≡ n
    → (s.file_handle.metas n).fh ≡ n
    → s.dev.outcomes ≡ []
    → Fits n s
    → write_file_meta file s ≡ ok tt (slot_saved n s)
unfolding write_file_meta
write_file_meta_at file n s at own quiet fits =
    ap (λ i. write_file_slot (s.file_handle.metas i).fh s) at
    ∙ ap (λ i. write_file_slot i s) own
    ∙ write_file_slot_lem n s quiet fits

pub update_elsewhere :
    (metas : ℕ → FileMeta) (i j : ℕ) (m : FileMeta) → j ≢ i → update metas i m j ≡ metas j
update_elsewhere metas i j m apart = let other : (j == i) ≡ false = ground arith in rw other refl

-- Saving a slot changes no field of a record but the checksum.
pub slot_saved-field :
    {A : Type 0} (get : FileMeta → A)
    → ((c : ℕ) (m : FileMeta) → get (record m { crc = c }) ≡ get m)
    → (i j : ℕ) (s : Fs) → get ((slot_saved i s).file_handle.metas j) ≡ get (s.file_handle.metas j)
slot_saved-field get keeps i j s =
    field_same get s.file_handle.metas j i (λ m. record m { crc = s.crc32.of_file m })
      (λ m. keeps (s.crc32.of_file m) m)

pub slot_saved-fh :
    (i j : ℕ) (s : Fs) → ((slot_saved i s).file_handle.metas j).fh ≡ (s.file_handle.metas j).fh
slot_saved-fh i j s = slot_saved-field (λ m. m.fh) (λ c m. refl) i j s

pub bind_ok :
    {A B : Type 0} (m : Action A) (f : A → Action B) (s t : Fs) (a : A) {r : Outcome B}
    → m s ≡ ok a t
    → f a t ≡ r
    → (m >>= f) s ≡ r
bind_ok m f s t a run next = rw (run, ◌>>=◌) next

-- The last part: the parent is recycled.
module _ (file fb o n : ℕ) (p : ParentFile) (u : Fs) where
  -- The file has its new record, and the old one is that of its only parent.
  pub record IsSaved : Type 0 where
    pub is_parent : p ≡ parent o fb 0 u
    pub at : (u.files file).meta ≡ n
    pub new_fh : (u.file_handle.metas n).fh ≡ n
    pub old_is : (u.file_handle.metas o).fh ≡ o
    pub apart : n ≢ o
    pub parents : u.file_handle.parent_files ≡ (o, p) ∷ []
    pub quiet : u.dev.outcomes ≡ []
    pub fits_new : Fits n u
    pub fits_old : Fits o u
    pub fits_block :
        u.super_meta.file_block_meta_offset
          + u.super_meta.file_block_meta_size * fb
          + u.super_meta.file_block_meta_size
        ≤ u.dev.dev_size

  abbrev pub unparented : Fs
  unparented = on_file_handle (λ h. record h { parent_files = [] }) u

  unfoldable pub given_back : Fs
  given_back = recycled o fb 0 unparented

  remove_parent_file-given_back : IsSaved → remove_parent_file o u ≡ ok tt given_back
  unfolding remove_parent_file given_back
  remove_parent_file-given_back r =
      let erased : erase o ((o, p) ∷ []) ≡ [] = rw (==_refl o) refl in
      let own : Fits (old_fh o fb 0 unparented) u =
        subst (λ i. Fits i u) (sym (old_fh-is o fb 0 unparented ∙ r.old_is)) r.fits_old in
      let done : recycle (parent o fb 0 u) unparented ≡ ok tt (recycled o fb 0 unparented) =
        recycle-recycled o fb 0 unparented r.quiet r.fits_block own in
      let same : recycle p unparented ≡ recycle (parent o fb 0 u) unparented =
        ap (λ q. recycle q unparented) r.is_parent in
      rw (r.parents, ◌>>=◌) rw (==_refl o, ◌>>=◌)
        (ap (λ m. recycle p (on_file_handle (λ h. record h { parent_files = m }) u)) erased
          ∙ same
          ∙ done)

  -- What `recycled` does to the fields of files and of records elsewhere.
  given_back-fh : IsSaved → (given_back.file_handle.metas n).fh ≡ n
  unfolding given_back clear_file_meta
  given_back-fh r =
      slot_saved-fh (old_fh o fb 0 unparented) n (on_file_slot o clear_file_meta unparented)
      ∙ ap (λ m. m.fh) (update_elsewhere u.file_handle.metas o n _ r.apart)
      ∙ r.new_fh

  abbrev unlinked : Fs
  unlinked = on_file_slot n (λ m. record m { parent_fh = minus_one; parent_size = 0 }) given_back

  unfoldable pub recycled_saved : Fs
  recycled_saved = slot_saved n unlinked

  pub recycle_parent_fh-recycled : IsSaved → recycle_parent_fh file o u ≡ ok tt recycled_saved
  unfolding recycle_parent_fh recycled_saved given_back
  recycle_parent_fh-recycled r =
      bind_ok (remove_parent_file o) _ u given_back tt (remove_parent_file-given_back r) (
        ap
          (λ k.
            write_file_meta file (
              on_file_slot k (λ m. record m { parent_fh = minus_one; parent_size = 0 }) given_back))
          r.at
        ∙ write_file_meta_at file n unlinked r.at
            (field_same (λ m. m.fh) given_back.file_handle.metas n n
                (λ m. record m { parent_fh = minus_one; parent_size = 0 }) (λ m. refl)
              ∙ given_back-fh r)
            refl r.fits_new)

  abbrev cleared : Fs
  cleared = on_file_slot o clear_file_meta unparented

  pub recycled_saved-field :
      {A : Type 0} (get : FileMeta → A)
      → ((c : ℕ) (m : FileMeta) → get (record m { crc = c }) ≡ get m)
      → ((m : FileMeta) → get (record m { parent_fh = minus_one; parent_size = 0 }) ≡ get m)
      → IsSaved
      → get (recycled_saved.file_handle.metas n) ≡ get (u.file_handle.metas n)
  unfolding recycled_saved given_back clear_file_meta
  recycled_saved-field get keeps keeps' r =
      slot_saved-field get keeps n n unlinked
      ∙ field_same get given_back.file_handle.metas n n
          (λ m. record m { parent_fh = minus_one; parent_size = 0 }) keeps'
      ∙ slot_saved-field get keeps (old_fh o fb 0 unparented) n cleared
      ∙ ap get (update_elsewhere u.file_handle.metas o n _ r.apart)

  pub recycled_saved-used : IsSaved → (recycled_saved.file_handle.metas o).used ≡ false
  unfolding recycled_saved given_back clear_file_meta
  recycled_saved-used r =
      slot_saved-field (λ m. m.used) (λ c m. refl) n o unlinked
      ∙ ap (λ m. m.used)
          (update_elsewhere given_back.file_handle.metas n o _ (λ e. r.apart (sym e)))
      ∙ slot_saved-field (λ m. m.used) (λ c m. refl) (old_fh o fb 0 unparented) o cleared
      ∙ ap (λ m. m.used) (update_at u.file_handle.metas o _)
