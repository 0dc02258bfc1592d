-- ===== src/DirHandle/Stream.antt =====
-- lib/dir_handle.cc and `BLOCKFS_DIR` of lib/directory.h: reading a directory entry by entry.
use blockfs.Prelude.{
  ℕ, ◌+◌, List, [], ◌∷◌, Option, none, some, Bool, true, false, if◌then◌else◌, nat_eq,
}
use blockfs.Prelude.Map.{insert}
use blockfs.FdHandle.{get_fd, put_fd, is_negative}
use blockfs.Directory.{
  Dirent, scan_dir, update_dir_time_stamp, inc_dir_link_count, dec_dir_link_count,
}
use blockfs.DirHandle.{transform_path, get_created_directory}
use blockfs.State.{
  fail, Action, ◌>>=◌, ◌>>◌, pure, gets, modify, attempt, or_fail_with, on_fd_handle, on_dir_handle,
  enoent, emfile,
}

pub record DirStream : Type 0 where
  pub inited : Bool
  pub fd : ℕ
  pub index : ℕ
  pub dir : ℕ
  pub dir_items : List Dirent

-- A descriptor from the pool, or the failure with EMFILE; a negative one is a failure too.
unfoldable pub allocate_fd : Action ℕ
allocate_fd = do
  (fd, rest) ← gets (λ s. get_fd s.fd_handle)
  n ← or_fail_with fd emfile
  modify (on_fd_handle λ _. rest)
  if is_negative n then fail else pure n

-- `OpenDirectory`.
unfoldable pub open_directory : List ℕ → Action DirStream
open_directory path = do
  dir_name ← transform_path path
  found ← attempt (get_created_directory dir_name)
  dir ← or_fail_with found enoent
  fd ← allocate_fd
  modify (on_dir_handle λ h. record h { open_dirs = insert fd dir h.open_dirs })
  inc_dir_link_count dir
  pure (record { inited = false; fd = fd; index = 0; dir = dir; dir_items = [] })

-- The entries are listed at the first read.
abbrev fill : DirStream → Action DirStream
fill d = if d.inited then pure d else (do
  items ← gets (scan_dir d.dir)
  update_dir_time_stamp false true true d.dir
  pure (record d { inited = true; dir_items = items }))

abbrev pub entry_at : List Dirent → ℕ → Option Dirent
entry_at [] i = none
entry_at (e ∷ es) ℕ.zero = some e
entry_at (e ∷ es) (ℕ.suc i) = entry_at es i

-- The next entry, and the stream behind it; no entry at the end.
abbrev pub next_entry : DirStream → Option Dirent × DirStream
next_entry d = elim (entry_at d.dir_items d.index) [
  | none ↦ (none, d)
  | some e ↦ (some e, record d { index = d.index + 1 })
]

-- `ReadDirectory`.
unfoldable pub read_directory : DirStream → Action (Option Dirent × DirStream)
read_directory d = do d' ← fill d; pure (next_entry d')

-- `CloseDirectory`: the descriptor goes back to the pool; its entry in `open_dirs` stays.
unfoldable pub close_directory : DirStream → Action (Unit {0})
close_directory d = do modify (on_fd_handle λ h. put_fd h d.fd); dec_dir_link_count d.dir
