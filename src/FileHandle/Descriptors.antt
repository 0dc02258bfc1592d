-- ===== src/FileHandle/Descriptors.antt =====
-- Descriptors of open files (lib/file_handle.cc): what `open`, `dup` and `close` do to them.
use blockfs.Prelude.{
  ℕ, ◌%◌, ◌≤◌, ◌<◌, ◌≡◌, ◌⊎◌, inl, inr, refl, ap, ◌∙◌, ◌==◌, le→ltb_false, List, [], ◌∷◌, none,
  some, Option, false, Bool-cases, ◌≢◌, ◌++◌, arith, count, u32, lt→ltb, lt_or_ge, List-cases,
  nat_eq,
}
use blockfs.Prelude.Map.{find, find-insert_self, find-erase_self, find-erase_ne}
use blockfs.FdHandle.{get_fd, put_fd, put_unsigned}
use blockfs.FileHandle.{get_open_file}
use blockfs.File.{minus_one_64}
use blockfs.FileHandle.Open.{get_fd_unsigned, return_int, attach, collect, close_file}
use blockfs.State.{
  Fs, OpenFile, attempt, next_outcome, fsync_device, on_file, file_meta, decrement, ok, result,
  final, increment, ◌>>=◌,
}

pub return_int_small : (fd : ℕ) (s : Fs) → fd < 2147483648 → return_int fd s ≡ ok fd s
return_int_small fd s h =
    let same : fd % u32 ≡ fd = omega arith in rw (same, lt→ltb fd 2147483648 h) refl

-- A new descriptor: where the pool has one, it is taken, it names an open file at the position
-- given, and the file has one more link. Where the pool is empty the caller is told of an error, but
-- the file has one more link all the same, and an open file under a number that is no descriptor.
pub attach_lem :
    (file append_pos : ℕ) (s : Fs)
    → ((a : ℕ) → 2147483648 ≤ a → count a s.fd_handle.free_fd_pool ≡ 0)
    → let s' = final (attach file append_pos s) in
      ((s'.files file).nlink ≡ increment (s.files file).nlink)
      × (((s.fd_handle.free_fd_pool ≡ [])
            × (result (attach file append_pos s) ≡ none)
            × (find minus_one_64 s'.file_handle.open_files
                ≡ some (record { file = file; append_pos = append_pos })))
          ⊎ ((fd : ℕ) × (rest : List ℕ) × (s.fd_handle.free_fd_pool ≡ fd ∷ rest)
              × (result (attach file append_pos s) ≡ some fd)
              × (s'.fd_handle.free_fd_pool ≡ rest)
              × (find fd s'.file_handle.open_files
                  ≡ some (record { file = file; append_pos = append_pos }))))
unfolding attach get_fd_unsigned get_fd
attach_lem file append_pos s small = elim (List-cases s.fd_handle.free_fd_pool) [
  | inl empty ↦
      rw (empty, ◌>>=◌)
        (ground arith, inl (refl, refl, find-insert_self minus_one_64 _ s.file_handle.open_files))
  | inr (fd, rest, e) ↦
      let here : 0 < count fd s.fd_handle.free_fd_pool = rw e (ground arith) in
      let below : fd < 2147483648 = elim (lt_or_ge fd 2147483648) [
        | inl l ↦ l
        | inr l ↦ omega (arith, small fd l, here)
      ] in
      rw (e, ◌>>=◌) rw (λ (t : Fs). return_int_small fd t below)
        (
          ground arith,
          inr (fd, rest, refl, refl, refl, find-insert_self fd _ s.file_handle.open_files),
        )
]

-- The device behind an `fsync` that may have failed.
abbrev pub synced : Fs → Fs
synced s = record s { dev = (next_outcome s.dev).1 }

attempt-fsync_device :
    (s : Fs) → (r : Option (Unit {0})) × (attempt fsync_device s ≡ ok r (synced s))
unfolding fsync_device
attempt-fsync_device s = elim (Bool-cases (next_outcome s.dev).0) [
  | inl done ↦ (some tt, rw (done, attempt) refl)
  | inr lost ↦ (none, rw (lost, attempt) refl)
]

collect-keeps :
    (file : ℕ) (s : Fs)
    → (s.files file).deleted ≡ false
    → (file_meta file s).is_temp ≡ false
    → collect file s ≡ ok tt s
unfolding collect
collect-keeps file s kept lasting = elim (Bool-cases ((s.files file).nlink == 0)) [
  | inl unused ↦ rw (unused, kept, lasting) refl
  | inr used ↦ rw used refl
]

-- The file behind the first steps of a close.
abbrev released : ℕ → Fs → Fs
released file s =
    on_file file (λ o. record o { nlink = decrement o.nlink })
      (on_file file (λ o. record o { locked = false }) (synced s))

-- Closing a descriptor of a file that stays: it names no file any more, it is the last of the free
-- ones, the file has one link less and no lock, and no other descriptor changes; a failed sync of
-- the device does not stop it.
pub close_file_lem :
    (fd : ℕ) (f : OpenFile) (s : Fs)
    → find fd s.file_handle.open_files ≡ some f
    → (s.files f.file).deleted ≡ false
    → (file_meta f.file s).is_temp ≡ false
    → fd ≤ s.fd_handle.max_fd_num
    → let s' = final (close_file fd s) in
      (result (close_file fd s) ≡ some tt)
      × (find fd s'.file_handle.open_files ≡ none)
      × ((other : ℕ)
          → other ≢ fd
          → find other s'.file_handle.open_files ≡ find other s.file_handle.open_files)
      × (s'.fd_handle.free_fd_pool ≡ s.fd_handle.free_fd_pool ++ fd ∷ [])
      × ((s'.files f.file).nlink ≡ decrement (s.files f.file).nlink)
      × ((s'.files f.file).locked ≡ false)
unfolding close_file get_open_file collect put_unsigned put_fd
close_file_lem fd f s found kept lasting below =
    let file = f.file in
    let same_meta : ((released file s).files file).meta ≡ (s.files file).meta = ground arith in
    let same_mark : ((released file s).files file).deleted ≡ false = ground (arith, kept) in
    let same_kind : (file_meta file (released file s)).is_temp ≡ false =
      ap (λ i. (s.file_handle.metas i).is_temp) same_meta ∙ lasting in
    let stays = collect-keeps file (released file s) same_mark same_kind in
    rw (found, ◌>>=◌) rw ((attempt-fsync_device s).1, ◌>>=◌) rw
      (stays, ◌>>=◌, le→ltb_false s.fd_handle.max_fd_num fd below)
      (
        refl,
        find-erase_self fd s.file_handle.open_files,
        (λ other ne. find-erase_ne other fd s.file_handle.open_files ne),
        refl,
        ground arith,
        ground arith,
      )
