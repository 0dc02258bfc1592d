-- ===== src/File/Truncate/Entered.antt =====
-- The first half of `File::ShrinkFile` (lib/file.cc) for a file that is cut to nothing: the file
-- gets a new record and is entered under it.
use blockfs.Prelude.{
  ℕ, ◌+◌, ◌*◌, ◌≤◌, ◌≡◌, ◌≢◌, refl, ap, ◌∙◌, List, [], ◌∷◌, some, true, false, nat_eq,
  bytes_eq_inst, key_eq_inst, arith,
}
use blockfs.Prelude.Map.{Map, find, update}
use blockfs.Meta.{FileMeta, SuperBlockMeta}
use blockfs.BlockHandle.{BlockHandle}
use blockfs.File.{set_file_name}
use blockfs.File.Shrink.{inherit, shrink_file}
use blockfs.DirHandle.{get_created_directory_by_dh}
use blockfs.FileHandle.{
  is_free_slot, new_free_file_meta, add_file_to_directory, remove_file_from_directory,
}
use blockfs.FileHandle.Entries.{
  SkipsEntries, remove_file_from_directory-Keeps, add_file_to_directory_finds,
}
use blockfs.FileHandle.Named.Made.{front_free_fh_lem}
use blockfs.File.Truncate.Finish.{Fits, bind_ok}
use blockfs.File.Truncate.Split.{shrink_rest}
use blockfs.State.{
  Fs, Device, File, ParentFile, FileBlockHandle, ok, ◌>>=◌, attempt, attempt_runs, file_meta,
  on_file, on_file_slot, on_file_handle,
}

-- What the entries of files are no part of.
pub record Rest : Type 0 where
  pub super_meta : SuperBlockMeta
  pub dev : Device
  pub files : ℕ → File
  pub metas : ℕ → FileMeta
  pub free_fhs : List ℕ
  pub parent_files : Map ℕ ParentFile
  pub block_handle : BlockHandle
  pub file_block_handle : FileBlockHandle

abbrev pub rest_of : Fs → Rest
rest_of s = record {
  super_meta = s.super_meta;
  dev = s.dev;
  files = s.files;
  metas = s.file_handle.metas;
  free_fhs = s.file_handle.free_fhs;
  parent_files = s.file_handle.parent_files;
  block_handle = s.block_handle;
  file_block_handle = s.file_block_handle;
}

rest_of-SkipsEntries : SkipsEntries rest_of
rest_of-SkipsEntries = record { children = λ directories s. refl; entries = λ files fhs s. refl }

module _ (file fb n dir : ℕ) (rest : List ℕ) (s : Fs) where
  abbrev pub o : ℕ
  o = (s.files file).meta

  abbrev pub old : FileMeta
  old = file_meta file s

  -- The new slot is claimed.
  abbrev pub claim : FileMeta → FileMeta
  claim m = set_file_name old.file_name (record m { used = true; fh = n; dh = old.dh })

  abbrev pub claimed : Fs
  claimed = on_file_handle (λ h. record h { free_fhs = rest }) (on_file_slot n claim s)

  -- It inherits nothing, and the old record names it as its child.
  abbrev pub inherited : Fs
  inherited = on_file_slot n (inherit old 0) claimed

  abbrev pub renewed : Fs
  renewed =
      on_file_slot o (λ m. record m { child_fh = (inherited.file_handle.metas n).fh }) inherited

  pub record CanEmpty : Type 0 where
    pub items : (s.files file).item_maps ≡ (0, fb) ∷ []
    pub own : old.fh ≡ o
    pub taken : old.used ≡ true
    pub free : s.file_handle.free_fhs ≡ n ∷ rest
    pub usable : is_free_slot n (s.file_handle.metas n) ≡ true
    pub directory : find old.dh s.dir_handle.created_dhs ≡ some dir
    pub parents : s.file_handle.parent_files ≡ []
    pub quiet : s.dev.outcomes ≡ []
    pub fits_new : Fits n s
    pub fits_old : Fits o s
    pub fits_block :
        s.super_meta.file_block_meta_offset
          + s.super_meta.file_block_meta_size * fb
          + s.super_meta.file_block_meta_size
        ≤ s.dev.dev_size

  pub apart : CanEmpty → n ≢ o
  apart c e =
      let used : (s.file_handle.metas n).used ≡ false = ground arith in
      let same : (s.file_handle.metas n).used ≡ old.used =
        ap (λ i. (s.file_handle.metas i).used) e in
      cc (c.taken)

  new_free_file_meta-claimed : CanEmpty → new_free_file_meta old.dh old.file_name s ≡ ok n claimed
  unfolding new_free_file_meta
  new_free_file_meta-claimed c =
      rw (front_free_fh_lem n rest s c.free c.usable, new_free_file_meta, ◌>>=◌)
        (ap
          (λ l. ok n (
            on_file_handle (λ h. record h { free_fhs = elim l [ [] ↦ [] | i ∷ is ↦ is ] })
              (on_file_slot n claim s)))
          c.free)

  get_directory : CanEmpty → get_created_directory_by_dh old.dh renewed ≡ ok dir renewed
  unfolding get_created_directory_by_dh
  get_directory c = rw (c.directory, get_created_directory_by_dh, ◌>>=◌) refl

  abbrev pub moved : Fs → Fs
  moved t = on_file file (λ v. record v { meta = n }) t

  moved-rest : (t : Fs) → rest_of t ≡ rest_of renewed → rest_of (moved t) ≡ rest_of (moved renewed)
  moved-rest t same = λ i. record (same i) {
    files = update (same i).files file (record ((same i).files file) { meta = n });
  }

  pub shrink_file-entered :
      CanEmpty
      → (w : Fs) × (shrink_file file 0 s ≡ shrink_rest file o old.fh w)
        × (rest_of w ≡ rest_of (moved renewed))
        × (find ((file_meta file w).dh, (file_meta file w).file_name) w.file_handle.created_files
            ≡ some file)
  unfolding shrink_file
  shrink_file-entered c =
      let (a, t, run, same) =
        attempt_runs (remove_file_from_directory dir file)
          (remove_file_from_directory-Keeps rest_of-SkipsEntries dir file) renewed in
      let (w, added, kept, found) =
        add_file_to_directory_finds rest_of-SkipsEntries dir file (moved t) in
      (
        w,
        bind_ok (new_free_file_meta old.dh old.file_name) _ s claimed n
            (new_free_file_meta-claimed c)
            (bind_ok (get_created_directory_by_dh old.dh) _ renewed renewed dir (get_directory c) (
              bind_ok (attempt (remove_file_from_directory dir file)) _ renewed t a run
                (bind_ok (add_file_to_directory dir file) _ (moved t) w tt added refl))),
        kept ∙ moved-rest t same,
        found,
      )
