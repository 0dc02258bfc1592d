-- ===== src/OpenFile/Seek.antt =====
-- Positions of an open file (`OpenFile::lseek`, lib/file.cc).
use blockfs.Prelude.{
  ℕ, ◌+◌, ◌-◌, ◌%◌, ◌<◌, ◌≡◌, refl, ap, ◌∙◌, some, leb, true, arith, u64, nat_eq, lt→ltb,
}
use blockfs.Prelude.Int.{pos, ◌+ℤ◌}
use blockfs.Prelude.Map.{find, insert, find-insert_self}
use blockfs.FileHandle.{get_open_file}
use blockfs.OpenFile.{to_off_t, set_append_pos, lseek}
use blockfs.State.{Fs, OpenFile, ok, result, file_meta, ◌>>=◌}

-- The state behind a seek to a position.
abbrev pub seeked : ℕ → OpenFile → ℕ → Fs → Fs
seeked fd f position s = record s {
  file_handle = record s.file_handle {
    open_files = insert fd (record f { append_pos = position }) s.file_handle.open_files;
  };
}

pub set_append_pos_lem :
    (fd position : ℕ) (f : OpenFile) (s : Fs)
    → find fd s.file_handle.open_files ≡ some f
    → set_append_pos fd position s ≡ ok tt (seeked fd f position s)
unfolding set_append_pos get_open_file
set_append_pos_lem fd position f s e = rw (e, ◌>>=◌) refl

offset_by_nothing : (n : ℕ) → n < 9223372036854775808 → to_off_t n +ℤ pos 0 ≡ pos n
unfolding ◌+ℤ◌
offset_by_nothing n h =
    let plain : to_off_t n ≡ pos n = rw (lt→ltb n 9223372036854775808 h, to_off_t) refl in
    let positive : leb (0 + 0) (n + 0) ≡ true = ground arith in
    let same : n + 0 - (0 + 0) ≡ n = omega arith in
    ap (λ x. x +ℤ pos 0) plain ∙ rw (positive, ◌+ℤ◌) (ap pos same)

-- In an open file whose size and positions are not negative as offsets: a seek to n gives n and moves
-- the position there, a seek by nothing from there gives n again, and a seek to the end gives the size
-- of the file and moves the position to it.
lseek_lem :
    (fd n : ℕ) (f : OpenFile) (s : Fs)
    → find fd s.file_handle.open_files ≡ some f
    → n < 9223372036854775808
    → (file_meta f.file s).size < 9223372036854775808
    → let there = record f { append_pos = n } in
      let size = (file_meta f.file s).size in
      (lseek fd f (pos n) 0 s ≡ ok (pos n) (seeked fd f n s))
      × (result (lseek fd there (pos 0) 1 (seeked fd f n s)) ≡ some (pos n))
      × (lseek fd f (pos 0) 2 s ≡ ok (pos size) (seeked fd f size s))
unfolding lseek
lseek_lem fd n f s opened small small_size =
    let word : n % u64 ≡ n = omega arith in
    let size_word : (file_meta f.file s).size % u64 ≡ (file_meta f.file s).size = omega arith in
    let there = record f { append_pos = n } in
    let moved = find-insert_self fd there s.file_handle.open_files in
    (
      rw (set_append_pos_lem fd (n % u64) f s opened, word, ◌>>=◌) refl,
      rw
          (
            offset_by_nothing n small,
            set_append_pos_lem fd (n % u64) there (seeked fd f n s) moved,
            ◌>>=◌,
          )
          (ap some (offset_by_nothing n small)),
      rw
          (
            offset_by_nothing (file_meta f.file s).size small_size,
            set_append_pos_lem fd ((file_meta f.file s).size % u64) f s opened,
            size_word,
            ◌>>=◌,
          )
          (ap (λ x. ok x (seeked fd f (file_meta f.file s).size s))
            (offset_by_nothing (file_meta f.file s).size small_size)),
    )
