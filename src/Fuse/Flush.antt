-- ===== src/Fuse/Flush.antt =====
-- `flush` of lib/bfs_fuse.cc: a duplicate of the descriptor that is closed at once.
use blockfs.Prelude.{
  ℕ, ◌≤◌, ◌<◌, ◌≡◌, ◌≢◌, refl, ap, ◌∙◌, List, [], ◌∷◌, ◌++◌, none, some, false, arith, u32, nat_eq,
}
use blockfs.Prelude.Int.{pos}
use blockfs.Prelude.Map.{find, insert, find-insert_self, find-insert_ne}
use blockfs.FdHandle.{get_fd}
use blockfs.FileHandle.{get_open_file}
use blockfs.FileHandle.Open.{attach, get_fd_unsigned, dup, close_file}
use blockfs.FileHandle.Descriptors.{return_int_small, close_file_lem}
use blockfs.Fuse.{duplicate, flush}
use blockfs.State.{
  Fs, OpenFile, ok, err, result, final, on_file, file_meta, increment, decrement, Outcome, ◌>>=◌,
}

-- The state behind a `dup` that took a descriptor.
abbrev duplicated : ℕ → List ℕ → ℕ → Fs → Fs
duplicated copy rest file s =
    let linked = on_file file (λ o. record o { nlink = increment o.nlink }) s in
    record linked {
      errno = 0;
      fd_handle = record s.fd_handle { free_fd_pool = rest };
      file_handle = record s.file_handle {
        open_files = insert copy (record { file = file; append_pos = 0 }) s.file_handle.open_files;
      };
    }

dup_lem :
    (fd copy : ℕ) (rest : List ℕ) (f : OpenFile) (s : Fs)
    → find fd s.file_handle.open_files ≡ some f
    → s.fd_handle.free_fd_pool ≡ copy ∷ rest
    → copy < 2147483648
    → dup fd s ≡ ok copy (duplicated copy rest f.file s)
unfolding dup get_open_file attach get_fd_unsigned get_fd
dup_lem fd copy rest f s opened pool small =
    rw (opened, pool, ◌>>=◌) (return_int_small copy (duplicated copy rest f.file s) small)

result-ok : {A : Type 0} (o : Outcome A) {a : A} → result o ≡ some a → o ≡ ok a (final o)
result-ok (ok a s) h = cc
result-ok (err s) h = cc

decrement-increment : (n : ℕ) → n < u32 → decrement (increment n) ≡ n
decrement-increment n h = omega arith

-- A flush of an open descriptor, where the pool has a descriptor to take and the file is neither
-- temporary nor marked for removal: it answers success, the descriptor that it took is the last of the
-- free ones and names no file, every other descriptor names what it did, and the file has as many links
-- as before; but its lock is gone, whoever held it.
pub flush-restores :
    (path : List ℕ) (fd copy : ℕ) (rest : List ℕ) (f : OpenFile) (s : Fs)
    → find fd s.file_handle.open_files ≡ some f
    → s.fd_handle.free_fd_pool ≡ copy ∷ rest
    → copy ≤ s.fd_handle.max_fd_num
    → copy < 2147483648
    → (s.files f.file).deleted ≡ false
    → (file_meta f.file s).is_temp ≡ false
    → (s.files f.file).nlink < u32
    → let (res, t) = flush path (some fd) s in
      (res ≡ pos 0)
      × (t.fd_handle.free_fd_pool ≡ rest ++ copy ∷ [])
      × (find copy t.file_handle.open_files ≡ none)
      × ((other : ℕ)
          → other ≢ copy
          → find other t.file_handle.open_files ≡ find other s.file_handle.open_files)
      × ((t.files f.file).nlink ≡ (s.files f.file).nlink)
      × ((t.files f.file).locked ≡ false)
unfolding flush
flush-restores path fd copy rest f s opened pool below small kept lasting links =
    let t = duplicated copy rest f.file s in
    let copied : OpenFile = record { file = f.file; append_pos = 0 } in
    let same_meta : (t.files f.file).meta ≡ (s.files f.file).meta = ground arith in
    let plain : (file_meta f.file t).is_temp ≡ false =
      ap (λ i. (s.file_handle.metas i).is_temp) same_meta ∙ lasting in
    let linked : (t.files f.file).nlink ≡ increment (s.files f.file).nlink = ground arith in
    let closed =
      close_file_lem copy copied t (find-insert_self copy copied s.file_handle.open_files)
        (ground (arith, kept)) plain below in
    let whole : flush path (some fd) s ≡ (pos 0, final (close_file copy t)) =
      rw (dup_lem fd copy rest f s opened pool small, flush, duplicate) rw
        (result-ok (close_file copy t) (closed.0)) refl in
    rw whole (
      refl,
      closed.3,
      closed.1,
      (λ other ne.
          closed.2 other ne ∙ find-insert_ne other copy copied s.file_handle.open_files ne),
      closed.4 ∙ ap decrement linked ∙ decrement-increment (s.files f.file).nlink links,
      closed.5,
    )
