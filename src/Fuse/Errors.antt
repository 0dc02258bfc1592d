-- ===== src/Fuse/Errors.antt =====
-- What the callbacks of lib/bfs_fuse.cc answer where the file system interface fails, or should.
use blockfs.Prelude.{
  ℕ, ◌≡◌, refl, ap, sym, subst, Option, bytes_eq, key_eq_inst, bytes_eq_inst, arith, [], ◌∷◌, ◌∙◌,
  ◌⊎◌, inl, inr, List, none, some, true, false, is_empty, nat_eq,
}
use blockfs.Prelude.Int.{ℤ, pos}
use blockfs.Prelude.Map.{find}
use blockfs.File.{minus_one_64}
use blockfs.FileHandle.{get_created_file, get_open_file}
use blockfs.FileHandle.Open.{open_file}
use blockfs.FileSystem.{rename_path, pread_file, fcntl_file, change_lock, f_wrlck}
use blockfs.FileSystem.Locks.{marked, marked_locked, fcntl_file-change_lock}
use blockfs.Paths.{ends_with_slash, root_path, get_file_name}
use blockfs.FileHandle.Named.Lookup.{IsFilePath, get_created_file_lem}
use blockfs.FileSystem.{stat_path}
use blockfs.File.{Stat, stat_file}
use blockfs.Fuse.{
  getattr, neg, answer, open_unsigned, open_callback, read_callback, rename_callback, flock,
}
use blockfs.State.{
  dir_meta, result, final, Outcome-cases, Fs, OpenFile, ok, err, attempt, enoent, eacces, ◌>>=◌,
}

-- The callback answers success whatever `open` comes to. Where no file is open under the number
-- 2^64 - 1 afterwards, either the handle is the descriptor that `open` gave, or `open` failed, and then
-- a read through the handle that was given out fails, and always with ENOENT.
pub open_callback-reports_success :
    (path : List ℕ) (flags size offset : ℕ) (s : Fs)
    → find minus_one_64 (open_callback path flags s).1.file_handle.open_files ≡ none
    → let opened = open_callback path flags s in
      (opened.0.0 ≡ pos 0)
      × (opened.1 ≡ final (open_file path flags s))
      × (((fd : ℕ) × (result (open_file path flags s) ≡ some fd) × (opened.0.1 ≡ fd))
          ⊎ ((result (open_file path flags s) ≡ none)
              × ((read_callback path size offset (some (opened.0.1)) opened.1).0.0 ≡ neg enoent)))
unfolding open_callback read_callback pread_file get_open_file
open_callback-reports_success path flags size offset s nothing =
    elim (Outcome-cases (open_file path flags s)) [
      | inl (fd, s', given) ↦ (
        refl,
        rw (given, open_unsigned) refl,
        inl (fd, ap result given, rw (given, open_unsigned) refl),
      )
      | inr (s', failed) ↦
          let whole : open_callback path flags s ≡ ((pos 0, minus_one_64), s') =
            rw (failed, open_unsigned) refl in
          let nothing' : find minus_one_64 s'.file_handle.open_files ≡ none =
            sym (ap (λ (o : (ℤ × ℕ) × Fs). find minus_one_64 o.1.file_handle.open_files) whole)
            ∙ nothing in
          (
            refl,
            rw (failed, open_unsigned) refl,
            inr (
              ap result failed,
              ap (λ (o : (ℤ × ℕ) × Fs). (read_callback path size offset (some (o.0.1)) o.1).0.0)
                    whole
                  ∙ rw (nothing', attempt, ◌>>=◌) refl,
            ),
          )
    ]

not_root : (path : List ℕ) → ends_with_slash path ≡ false → bytes_eq path root_path ≡ false
unfolding ends_with_slash
not_root [] h = refl
not_root (c ∷ []) h = ground arith
not_root (c ∷ d ∷ cs) h = ground arith

rename_path-refused :
    (from to : List ℕ) (dest : ℕ) (s : Fs)
    → is_empty from ≡ false
    → is_empty to ≡ false
    → get_created_file to s ≡ ok dest s
    → rename_callback from to 0 s ≡ (neg s.errno, s)
unfolding rename_callback rename_path
rename_path-refused from to dest s from_given to_given exists =
    rw (from_given, to_given, ◌>>=◌, answer) rw (exists, attempt, ◌>>=◌) refl

getattr-stat_file :
    (path : List ℕ) (dest : ℕ) (s : Fs)
    → is_empty path ≡ false
    → ends_with_slash path ≡ false
    → get_created_file path s ≡ ok dest s
    → getattr path none s ≡ ((pos 0, some (stat_file dest s)), record s { errno = 0 })
unfolding getattr stat_path
getattr-stat_file path dest s given plain exists =
    rw (not_root path plain) rw (given, plain, ◌>>=◌) rw (exists, attempt, ◌>>=◌) refl

-- The target of a rename is a file. Asked for its attributes, as before each rename, the file system
-- gives them and clears the error number; the rename onto the file then answers success and does
-- nothing. Without the lookup it answers with the error number that an earlier call left, and does
-- nothing either.
pub rename_callback-reports_success :
    (from to : List ℕ) (dir dest : ℕ) (s : Fs)
    → is_empty from ≡ false
    → is_empty to ≡ false
    → IsFilePath to dir s
    → find ((dir_meta dir s).dh, get_file_name to) s.file_handle.created_files ≡ some dest
    → let looked_up = getattr to none s in
      (looked_up ≡ ((pos 0, some (stat_file dest s)), record s { errno = 0 }))
      × (rename_callback from to 0 looked_up.1 ≡ (pos 0, looked_up.1))
      × (rename_callback from to 0 s ≡ (neg s.errno, s))
rename_callback-reports_success from to dir dest s from_given to_given path found =
    let s' = record s { errno = 0 } in
    let path' : IsFilePath to dir s' = record {
      no_slash = path.no_slash;
      short = path.short;
      short_dir = path.short_dir;
      there = path.there;
    } in
    let exists : get_created_file to s ≡ ok dest s =
      get_created_file_lem to dir dest s path found in
    let exists' : get_created_file to s' ≡ ok dest s' =
      get_created_file_lem to dir dest s' path' found in
    let looked : getattr to none s ≡ ((pos 0, some (stat_file dest s)), s') =
      getattr-stat_file to dest s to_given path.no_slash exists in
    (
      looked,
      subst (λ (o : (ℤ × Option Stat) × Fs). rename_callback from to 0 o.1 ≡ (pos 0, o.1))
          (sym looked) (rename_path-refused from to dest s' from_given to_given exists'),
      rename_path-refused from to dest s from_given to_given exists,
    )

-- A file whose lock is free, and two descriptors of it, which may be the same: a `flock` through the
-- one succeeds, whatever its operation, and a `flock` through the other, an unlock too, is then refused
-- with EACCES and leaves the file locked.
pub flock-ignores_operation :
    (path : List ℕ) (op op' fd fd' : ℕ) (f f' : OpenFile) (s : Fs)
    → find fd s.file_handle.open_files ≡ some f
    → find fd' s.file_handle.open_files ≡ some f'
    → f'.file ≡ f.file
    → (s.files f.file).locked ≡ false
    → (flock path op (some fd) s ≡ (pos 0, marked f.file true s))
      × ((flock path op' (some fd') (marked f.file true s)).0 ≡ neg eacces)
      × (((flock path op' (some fd') (marked f.file true s)).1.files f.file).locked ≡ true)
unfolding flock change_lock
flock-ignores_operation path op op' fd fd' f f' s opened opened' same free =
    let s' = marked f.file true s in
    let take : fcntl_file fd f_wrlck s ≡ ok tt s' =
      fcntl_file-change_lock fd f s opened f_wrlck free in
    let held : (s'.files f'.file).locked ≡ true =
      ap (λ x. (s'.files x).locked) same ∙ marked_locked f.file true s in
    let busy : fcntl_file fd' f_wrlck s' ≡ err (record s' { errno = eacces }) =
      fcntl_file-change_lock fd' f' s' opened' f_wrlck held in
    (rw (take, flock) refl, rw (busy, flock) refl, rw (busy, flock) (marked_locked f.file true s))
