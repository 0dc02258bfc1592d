-- ===== src/DirHandle/Index.antt =====
-- The two maps of created directories (lib/dir_handle.cc): by path and by handle.
use blockfs.Prelude.{
  ℕ, ◌≡◌, ◌≢◌, ◌⊎◌, inl, inr, refl, List, some, true, nat_eq, bytes_eq_inst, Bool-cases,
}
use blockfs.Prelude.Map.{find, contains, insert, find-insert_self, find-insert_ne}
use blockfs.DirHandle.{add_directory_to_created}
use blockfs.State.{Fs, ok, err, dir_meta, ◌>>=◌}

-- A directory enters both maps or none: where its path or its handle is taken, nothing changes and the
-- caller is told so; else it is found under its path and under its handle, and no other entry changes.
add_directory_to_created_lem :
    (child : ℕ) (s : Fs)
    → let m = dir_meta child s in
      ((add_directory_to_created child s ≡ err s)
        × ((contains m.dir_name s.dir_handle.created_dirs ≡ true)
            ⊎ (contains m.dh s.dir_handle.created_dhs ≡ true)))
      ⊎ ((t : Fs) × (add_directory_to_created child s ≡ ok tt t)
          × (find m.dir_name t.dir_handle.created_dirs ≡ some child)
          × (find m.dh t.dir_handle.created_dhs ≡ some child)
          × ((name : List ℕ)
              → name ≢ m.dir_name
              → find name t.dir_handle.created_dirs ≡ find name s.dir_handle.created_dirs)
          × ((dh : ℕ)
              → dh ≢ m.dh
              → find dh t.dir_handle.created_dhs ≡ find dh s.dir_handle.created_dhs))
unfolding add_directory_to_created
add_directory_to_created_lem child s =
    let m = dir_meta child s in
    let h = s.dir_handle in
    elim (Bool-cases (contains m.dir_name h.created_dirs)) [
      | inl known ↦ inl (rw (known, ◌>>=◌) refl, inl known)
      | inr new_name ↦ elim (Bool-cases (contains m.dh h.created_dhs)) [
        | inl known ↦ inl (rw (new_name, ◌>>=◌) rw (known, ◌>>=◌) refl, inr known)
        | inr new_handle ↦ inr (
          record s {
            dir_handle = record h {
              created_dirs = insert m.dir_name child h.created_dirs;
              created_dhs = insert m.dh child h.created_dhs;
            };
          },
          rw (new_name, ◌>>=◌) rw (new_handle, ◌>>=◌) refl,
          find-insert_self m.dir_name child h.created_dirs,
          find-insert_self m.dh child h.created_dhs,
          (λ name ne. find-insert_ne name m.dir_name child h.created_dirs ne),
          (λ dh ne. find-insert_ne dh m.dh child h.created_dhs ne),
        )
      ]
    ]
