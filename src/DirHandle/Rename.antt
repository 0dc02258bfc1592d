-- ===== src/DirHandle/Rename.antt =====
-- What `DirHandle::RenameDirectory` (lib/dir_handle.cc) does to the tree, and what it tells its caller.
pub mod Steps
use blockfs.Prelude.{
  ℕ, ◌+◌, ◌*◌, ◌≤◌, ◌<◌, ◌≡◌, ◌≢◌, ◌⊎◌, ◌∙◌, inl, inr, refl, ap, sym, subst, List, [], ◌∷◌, none,
  some, Option, Bool, true, false, ◌||◌, if◌then◌else◌, length, take_all, arith, nat_eq,
  bytes_eq_inst, Bool-cases,
}
use blockfs.Prelude.Map.{
  find, insert, erase, update_at, find-insert_self, find-insert_ne, find-erase_self, find-erase_ne,
}
use blockfs.Meta.{
  DirMeta, k_block_fs_dir_meta_size, k_block_fs_max_dir_name_len, k_block_fs_page_size,
}
use blockfs.Paths.{get_dir_name}
use blockfs.Directory.{page_align_index, set_dir_name}
use blockfs.DirHandle.{transform_path, find_directory, is_mount_point, get_created_directory}
use blockfs.DirHandle.Create.{check_file_exist, rename_dir_object, rename_directory}
use blockfs.DirHandle.Rename.Steps.{
  SameSlots, remove_child_runs, add_child_runs, entries_erased, remove_entries, entries_added,
  add_entries, record_written, write_record, written_dirs, written_page,
}
use blockfs.State.{
  Outcome, Outcome-cases, Action, Fs, Directory, ok, err, attempt, on_dir_slot, on_dir_meta, ◌>>=◌,
  ◌>>◌, dir_meta,
}

-- The directory stands under the new path and not under the old one, and no other path has changed.
pub record IsMoved (d : ℕ) (from to : List ℕ) (s t : Fs) : Type 0 where
  pub at_new : find to t.dir_handle.created_dirs ≡ some d
  pub not_at_old : find from t.dir_handle.created_dirs ≡ none
  pub others :
      (path : List ℕ)
      → path ≢ from
      → path ≢ to
      → find path t.dir_handle.created_dirs ≡ find path s.dir_handle.created_dirs
  pub in_record : (dir_meta d t).dir_name ≡ to

module _ (d k old_parent new_parent : ℕ) (from to : List ℕ) (s : Fs)
    (slot : (s.directories d).meta ≡ k) (named : (s.dir_handle.metas k).dir_name ≡ from)
    (own : (s.dir_handle.metas k).dh ≡ k) (differ : to ≢ from)
    (short : length to ≤ k_block_fs_max_dir_name_len)
    (by_name : find from s.dir_handle.created_dirs ≡ some d)
    (by_handle : find k s.dir_handle.created_dhs ≡ some d)
    (unit : s.super_meta.dir_meta_size ≡ k_block_fs_dir_meta_size)
    (free : find to s.dir_handle.created_dirs ≡ none) where
  rename_dir_object-moves :
      (answer : Bool) (rest : List Bool)
      → get_created_directory (get_dir_name to) s ≡ ok new_parent s
      → get_created_directory (get_dir_name from) s ≡ ok old_parent s
      → s.dev.outcomes ≡ answer ∷ rest
      → s.super_meta.dir_meta_offset
          + s.super_meta.dir_meta_size * page_align_index s.super_meta.dir_meta_size k
          + k_block_fs_page_size
        ≤ s.dev.dev_size
      → (t : Fs) × (rename_dir_object d to s ≡ (if answer then ok tt t else err t))
        × IsMoved d from to s t
        × ((answer ≡ false) ⊎ (t.dev.dir_metas k ≡ t.dir_handle.metas k))
  unfolding rename_dir_object
  rename_dir_object-moves answer rest has_new has_old outcomes fits =
      let (o, ds, unlinked, same) = remove_child_runs old_parent d s in
      let t0 : Fs = record s { directories = ds } in
      let slot0 : (ds d).meta ≡ k = same d ∙ slot in
      let t1 = entries_erased d k k from t0 slot0 named own in
      let name_kept = take_all k_block_fs_max_dir_name_len to short in
      let t2 = on_dir_slot k (λ m. record m { dir_name = to }) t1 in
      let modified : on_dir_meta d (set_dir_name to) t1 ≡ t2 =
        λ i. on_dir_slot (slot0 i) (λ m. record m { dir_name = name_kept i }) t1 in
      let renamed : (t2.dir_handle.metas k).dir_name ≡ to =
        ap (λ (m : DirMeta). m.dir_name) (update_at s.dir_handle.metas k _) in
      let still_own : (t2.dir_handle.metas k).dh ≡ k =
        ap (λ (m : DirMeta). m.dh) (update_at s.dir_handle.metas k _) ∙ own in
      let t3 = entries_added d k k to t2 slot0 renamed still_own in
      let (o', ds', linked, same') = add_child_runs new_parent d t3 in
      let t4 : Fs = record t3 { directories = ds' } in
      let slot4 : (ds' d).meta ≡ k = same' d ∙ slot0 in
      let t = record_written k answer rest t4 in
      let facts = written_dirs k answer rest t4 in
      let fits' =
        subst
          (λ i.
            s.super_meta.dir_meta_offset
              + s.super_meta.dir_meta_size * page_align_index s.super_meta.dir_meta_size i
              + k_block_fs_page_size
            ≤ s.dev.dev_size)
          (sym still_own) fits in
      (
        t,
        rw (has_new, ◌>>=◌) rw (slot, dir_meta) rw (named, has_old, ◌>>=◌) rw (unlinked, ◌>>=◌) rw
            (remove_entries d k k from t0 slot0 named own by_name by_handle, ◌>>=◌) rw modified rw
            (
              add_entries d k k to t2 slot0 renamed still_own
                  (find-erase_ne to from s.dir_handle.created_dirs differ ∙ free)
                  (find-erase_self k s.dir_handle.created_dhs),
              attempt,
              ◌>>=◌,
            )
            rw (linked, ◌>>=◌) (write_record k answer rest t4 d slot4 outcomes fits'),
        record {
          at_new =
              ap (find to) (facts.0) ∙ find-insert_self to d (erase from s.dir_handle.created_dirs);
          not_at_old =
              ap (find from) (facts.0)
              ∙ find-insert_ne from to d (erase from s.dir_handle.created_dirs)
                  (λ e. differ (sym e))
              ∙ find-erase_self from s.dir_handle.created_dirs;
          others = λ path ne ne'.
              ap (find path) (facts.0)
              ∙ find-insert_ne path to d (erase from s.dir_handle.created_dirs) ne'
              ∙ find-erase_ne path from s.dir_handle.created_dirs ne;
          in_record =
              ap (λ (i : ℕ). (t.dir_handle.metas i).dir_name)
                (ap (λ (ds : ℕ → Directory). (ds d).meta) (facts.1) ∙ slot4)
              ∙ facts.2
              ∙ renamed;
        },
        written_page k answer rest t4 still_own unit,
      )

-- What a rename of a directory comes to, in a state `s` of the maps where the old path names directory
-- `d`, the new path is free, the old parent is there and the device answers the write of the record.
abbrev pub TellsOtherwise :
    ℕ → ℕ → Bool → List ℕ → List ℕ → Fs → Outcome (Unit {0}) → Option ℕ → Type 0
TellsOtherwise d k answer from to s outcome none = outcome ≡ ok tt (record s { errno = 0 })
TellsOtherwise d k answer from to s outcome (some new_parent) =
    (t : Fs) × IsMoved d from to s t
    × ((answer ≡ false) ⊎ (t.dev.dir_metas k ≡ t.dir_handle.metas k))
    × (outcome ≡ (if answer then err t else ok tt t))

attempted :
    {A : Type 0} (m : Action A) (s t : Fs) (a : A) → attempt m s ≡ ok (some a) t → m s ≡ ok a t
attempted m s t a e = elim (Outcome-cases (m s)) [
  | inl (b, s', run) ↦
      let same : attempt m s ≡ ok (some b) s' = rw (run, attempt) refl in
      run ∙ (let h = sym same ∙ e in cc)
  | inr (s', run) ↦ let same : attempt m s ≡ ok none s' = rw (run, attempt) refl in absurd (cc)
]

attempted_none : {A : Type 0} (m : Action A) (s t : Fs) → attempt m s ≡ ok none t → m s ≡ err t
attempted_none m s t e = elim (Outcome-cases (m s)) [
  | inl (b, s', run) ↦
      let same : attempt m s ≡ ok (some b) s' = rw (run, attempt) refl in absurd (cc)
  | inr (s', run) ↦
      let same : attempt m s ≡ ok none s' = rw (run, attempt) refl in
      run ∙ (let h = sym same ∙ e in cc)
]

-- What the caller is told of what `Directory::rename` did: a failure of a success, and the reverse.
told :
    (from to from_name to_name : List ℕ) (parent d : ℕ) (s0 s : Fs) (o : Outcome (Unit {0}))
    → check_file_exist to true s0 ≡ ok tt s
    → is_mount_point from || is_mount_point to ≡ false
    → transform_path from s ≡ ok from_name s
    → transform_path to s ≡ ok to_name s
    → find_directory from_name s ≡ ok (parent, d) s
    → rename_dir_object d to_name s ≡ o
    → rename_directory from to s0
      ≡ (elim o [ ok a t ↦ err t | err t ↦ ok tt (record t { errno = 0 }) ])
unfolding rename_directory
told from to from_name to_name parent d s0 s (ok a t) c m tf tt' f run =
    rw (c, m, tf, tt', f, run, attempt, ◌>>=◌) refl
told from to from_name to_name parent d s0 s (err t) c m tf tt' f run =
    rw (c, m, tf, tt', f, run, attempt, ◌>>=◌) refl

-- The paths pass the checks, the old one names a directory with its parent, its slot and its entries,
-- the new one is free, and the page of the record lies on the device. Without a parent for the new path
-- nothing is renamed, and the caller is told of a success. With one, the directory moves in the map to
-- the new path and its record gets the name, whatever the device answers to the write of the record;
-- where the device completes it the record is on the device too, and the caller is told of a failure;
-- where the device refuses it the caller is told of a success.
pub rename_directory-reported :
    (from to from_name to_name : List ℕ) (parent d k old_parent : ℕ) (new_parent : Option ℕ)
    (answer : Bool) (rest : List Bool) (s0 s : Fs)
    → check_file_exist to true s0 ≡ ok tt s
    → is_mount_point from || is_mount_point to ≡ false
    → transform_path from s ≡ ok from_name s
    → transform_path to s ≡ ok to_name s
    → find_directory from_name s ≡ ok (parent, d) s
    → (s.directories d).meta ≡ k
    → (s.dir_handle.metas k).dir_name ≡ from_name
    → (s.dir_handle.metas k).dh ≡ k
    → to_name ≢ from_name
    → length to_name ≤ k_block_fs_max_dir_name_len
    → find from_name s.dir_handle.created_dirs ≡ some d
    → find k s.dir_handle.created_dhs ≡ some d
    → find to_name s.dir_handle.created_dirs ≡ none
    → attempt (get_created_directory (get_dir_name to_name)) s ≡ ok new_parent s
    → get_created_directory (get_dir_name from_name) s ≡ ok old_parent s
    → s.super_meta.dir_meta_size ≡ k_block_fs_dir_meta_size
    → s.dev.outcomes ≡ answer ∷ rest
    → s.super_meta.dir_meta_offset
        + s.super_meta.dir_meta_size * page_align_index s.super_meta.dir_meta_size k
        + k_block_fs_page_size
      ≤ s.dev.dev_size
    → TellsOtherwise d k answer from_name to_name s (rename_directory from to s0) new_parent
unfolding rename_dir_object
rename_directory-reported from to from_name to_name parent d k old_parent none answer rest s0 s c m
      tf tt' f slot named own differ short by_name by_handle free has_new has_old unit outcomes
      fits =
    let absent = attempted_none (get_created_directory (get_dir_name to_name)) s s has_new in
    told from to from_name to_name parent d s0 s (err s) c m tf tt' f
      (rw (absent, rename_dir_object, ◌>>=◌) refl)
rename_directory-reported from to from_name to_name parent d k old_parent (some p) answer rest s0 s
      c m tf tt' f slot named own differ short by_name by_handle free has_new has_old unit outcomes
      fits =
    let there = attempted (get_created_directory (get_dir_name to_name)) s s p has_new in
    let (t, run, moved, stored) =
      rename_dir_object-moves d k old_parent p from_name to_name s slot named own differ short
        by_name by_handle unit free answer rest there has_old outcomes fits in
    let cleared : Fs = record t { errno = 0 } in
    elim (Bool-cases answer) [
      | inl done ↦ (
        t,
        moved,
        stored,
        told from to from_name to_name parent d s0 s (ok tt t) c m tf tt' f
              (run ∙ ap (λ b. if b then ok tt t else err t) done)
            ∙ ap (λ b. if b then err t else ok tt t) (sym done),
      )
      | inr refused ↦ (
        cleared,
        record {
          at_new = moved.at_new;
          not_at_old = moved.not_at_old;
          others = moved.others;
          in_record = moved.in_record;
        },
        inl refused,
        told from to from_name to_name parent d s0 s (err t) c m tf tt' f
              (run ∙ ap (λ b. if b then ok tt t else err t) refused)
            ∙ ap (λ b. if b then err cleared else ok tt cleared) (sym refused),
      )
    ]
