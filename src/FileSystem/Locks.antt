-- ===== src/FileSystem/Locks.antt =====
-- The locks of `fcntl` (lib/block_fs.cc): one for each file, whoever asks.
use blockfs.Prelude.{ℕ, ◌≡◌, ap, sym, refl, ◌∙◌, some, Bool, true, false, arith, nat_eq}
use blockfs.Prelude.Map.{find}
use blockfs.FileHandle.{get_open_file}
use blockfs.FileSystem.{LockType, f_unlck, f_rdlck, f_wrlck, change_lock, fcntl_file}
use blockfs.State.{Fs, OpenFile, on_file, ok, err, eacces, ◌>>=◌}

-- A state in which a file is locked or not.
abbrev pub marked : ℕ → Bool → Fs → Fs
marked file locked s = on_file file (λ o. record o { locked = locked }) s

pub marked_locked :
    (file : ℕ) (locked : Bool) (s : Fs) → ((marked file locked s).files file).locked ≡ locked
marked_locked file locked s = ground arith

module _ (fd : ℕ) (f : OpenFile) (s : Fs) (opened : find fd s.file_handle.open_files ≡ some f) where
  pub fcntl_file-change_lock :
      (lock_type : LockType) {locked : Bool}
      → (s.files f.file).locked ≡ locked
      → fcntl_file fd lock_type s ≡ change_lock f.file locked lock_type s
  unfolding fcntl_file get_open_file
  fcntl_file-change_lock lock_type e =
      rw (opened, ◌>>=◌) (ap (λ b. change_lock f.file b lock_type s) e)

-- A lock of either kind.
abbrev pub lock_kind : Bool → LockType
lock_kind true = f_wrlck
lock_kind false = f_rdlck

change_lock-free :
    (exclusive : Bool) (file : ℕ) (s : Fs)
    → change_lock file false (lock_kind exclusive) s ≡ ok tt (marked file true s)
unfolding change_lock
change_lock-free true file s = refl
change_lock-free false file s = refl

change_lock-held :
    (exclusive : Bool) (file : ℕ) (s : Fs)
    → change_lock file true (lock_kind exclusive) s ≡ err (record s { errno = eacces })
unfolding change_lock
change_lock-held true file s = refl
change_lock-held false file s = refl

-- Two descriptors of one file whose lock is free: once the one has taken a lock of either kind, the
-- other is refused a lock of either kind, with EACCES and nothing else changed, a read lock beside a
-- read lock too; it may unlock the file itself, and then gets the lock.
pub fcntl_file-excludes :
    (fd fd' : ℕ) (f f' : OpenFile) (s : Fs) (first second : Bool)
    → find fd s.file_handle.open_files ≡ some f
    → find fd' s.file_handle.open_files ≡ some f'
    → f'.file ≡ f.file
    → (s.files f.file).locked ≡ false
    → (taken : Fs) × (given : Fs) × (last : Fs) × (fcntl_file fd (lock_kind first) s ≡ ok tt taken)
      × ((taken.files f.file).locked ≡ true)
      × (fcntl_file fd' (lock_kind second) taken ≡ err (record taken { errno = eacces }))
      × (fcntl_file fd' f_unlck taken ≡ ok tt given)
      × ((given.files f.file).locked ≡ false)
      × (fcntl_file fd' (lock_kind second) given ≡ ok tt last)
      × ((last.files f.file).locked ≡ true)
unfolding change_lock
fcntl_file-excludes fd fd' f f' s first second opened opened' same free =
    let s1 = marked f.file true s in
    let s2 = marked f'.file false s1 in
    let s3 = marked f'.file true s2 in
    let held : (s1.files f'.file).locked ≡ true =
      ap (λ x. (s1.files x).locked) same ∙ marked_locked f.file true s in
    let at : (t : Fs) → (t.files f.file).locked ≡ (t.files f'.file).locked =
      λ t. ap (λ x. (t.files x).locked) (sym same) in
    (
      s1,
      s2,
      s3,
      fcntl_file-change_lock fd f s opened (lock_kind first) free ∙ change_lock-free first f.file s,
      marked_locked f.file true s,
      fcntl_file-change_lock fd' f' s1 opened' (lock_kind second) held
          ∙ change_lock-held second f'.file s1,
      fcntl_file-change_lock fd' f' s1 opened' f_unlck held,
      at s2 ∙ marked_locked f'.file false s1,
      fcntl_file-change_lock fd' f' s2 opened' (lock_kind second) (marked_locked f'.file false s1)
          ∙ change_lock-free second f'.file s2,
      at s3 ∙ marked_locked f'.file true s2,
    )
