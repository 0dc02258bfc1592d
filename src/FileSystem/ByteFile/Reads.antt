-- ===== src/FileSystem/ByteFile/Reads.antt =====
-- Reads and seeks of lib/file_system.cc at a descriptor that shows an array of bytes.
use blockfs.Prelude.{
  ℕ, ◌+◌, ◌*◌, ◌%◌, ◌≤◌, ◌<◌, ◌≡◌, inl, inr, refl, ap, ◌∙◌, List, [], false, leb, ◌==◌, arith,
  nat_eq, u64, Bool-cases,
}
use blockfs.Prelude.Int.{pos}
use blockfs.Prelude.Map.{find-insert_self}
use blockfs.Meta.{k_block_size}
use blockfs.Device.{read_bytes}
use blockfs.File.{update_time_stamp}
use blockfs.FileHandle.{get_open_file}
use blockfs.OpenFile.{pread, lseek, clip, read_data}
use blockfs.OpenFile.Bytes.{content, read_data-content}
use blockfs.OpenFile.Contents.{read_bytes_shift}
use blockfs.OpenFile.Seek.{seeked, set_append_pos_lem}
use blockfs.OpenFile.Transfer.{transferred}
use blockfs.FileSystem.{pread_file, read_file, seek_file}
use blockfs.FileSystem.Data.{stamped}
use blockfs.State.{Fs, OpenFile, Action, ok, file_meta, attempt, ◌>>=◌}
use blockfs.FileSystem.ByteFile.{ByteFile, available, moved, Shows}

abbrev pub opened_at : ℕ → ByteFile → OpenFile
opened_at file a = record { file = file; append_pos = a.position }

module _ (fd file fb n : ℕ) (s : Fs) (a : ByteFile) (h : Shows fd file fb n s a) where
  -- A transfer of k bytes that leaves the bytes b in the file.
  pub Shows-transferred :
      (k : ℕ) (bytes b : ℕ → ℕ)
      → ((x : ℕ) → x < a.size → content fb (transferred fd (opened_at file a) k bytes s) x ≡ b x)
      → Shows fd file fb n
          (transferred fd (opened_at file a) k bytes s)
          (record a { bytes = b; position = (a.position + k) % u64 })
  Shows-transferred k bytes b e = record {
    found = h.found;
    opened = find-insert_self fd _ s.file_handle.open_files;
    unit = h.unit;
    quiet = refl;
    few = h.few;
    inside = h.inside;
    distinct = h.distinct;
    sized = h.sized;
    word = h.word;
    room = h.room;
    same = e;
  }

  -- A read of k bytes within the file, and one of none.
  read_data-Shows :
      (k offset : ℕ)
      → 0 < k
      → offset + k ≤ a.size
      → (t : Fs) × (read_data fd file k offset s ≡ ok (read_bytes a.bytes offset k) t)
        × Shows fd file fb n t (moved a k)
  read_data-Shows k offset some_bytes within =
      let fits : offset + k ≤ n * k_block_size = omega (arith, h.room) in
      let read =
        read_data-content fd file fb n offset k (opened_at file a) s h.found h.opened h.unit h.quiet
          some_bytes h.few fits h.inside in
      let same_bytes =
        read_bytes_shift (content fb s) a.bytes k offset offset
          (λ i l. h.same (offset + i) (omega arith)) in
      let more : (k == 0) ≡ false = ground arith in
      (
        transferred fd (opened_at file a) k s.dev.bytes s,
        read ∙ ap (λ r. ok r (transferred fd (opened_at file a) k s.dev.bytes s)) same_bytes,
        rw more (Shows-transferred k s.dev.bytes a.bytes h.same),
      )

  read_nothing :
      (offset k : ℕ)
      → k ≡ 0
      → (m : Action (List ℕ)) → m s ≡ ok [] s
      → (t : Fs) × (m s ≡ ok (read_bytes a.bytes offset k) t) × Shows fd file fb n t (moved a k)
  unfolding read_bytes
  read_nothing offset k none_left m e = rw none_left (s, e, h)

  pread-Shows :
      (len offset : ℕ)
      → offset + len < u64
      → (t : Fs) × (pread fd (opened_at file a) len offset s
          ≡ ok (read_bytes a.bytes offset (available a len offset)) t)
        × Shows fd file fb n t (moved a (available a len offset))
  unfolding pread
  pread-Shows len offset word = elim (Bool-cases (len == 0)) [
    | inl nothing ↦
        read_nothing offset (available a len offset) (ground arith)
          (pread fd (opened_at file a) len offset) (rw nothing refl)
    | inr something ↦ elim (Bool-cases (leb (file_meta file s).size offset)) [
      | inl end ↦
          read_nothing offset (available a len offset) (ground (arith, h.sized))
            (pread fd (opened_at file a) len offset) (rw (something, end) refl)
      | inr more ↦
          let k = available a len offset in
          let clipped : clip (file_meta file s).size len offset ≡ k = ground (arith, h.sized) in
          let read = read_data-Shows k offset (ground (arith, h.sized)) (ground (arith, h.sized)) in
          (read.0, rw (something, more, clipped, ◌>>=◌) (read.1), read.2)
    ]
  ]

  pub Shows-stamped : Shows fd file fb n (stamped file s) a
  unfolding update_time_stamp
  Shows-stamped = elim (Bool-cases (s.now % 2 == 0)) [
    | inr odd ↦ rw odd h
    | inl even ↦ rw even (record {
      found = h.found;
      opened = h.opened;
      unit = h.unit;
      quiet = h.quiet;
      few = h.few;
      inside = h.inside;
      distinct = h.distinct;
      sized = ground (arith, h.sized);
      word = h.word;
      room = h.room;
      same = h.same;
    })
  ]

  pub pread_file-Shows :
      (len offset : ℕ)
      → offset + len < u64
      → (t : Fs) × (pread_file fd len offset s
          ≡ ok (read_bytes a.bytes offset (available a len offset)) t)
        × Shows fd file fb n t (moved a (available a len offset))
  unfolding pread_file get_open_file
  pread_file-Shows len offset word =
      let read = pread-Shows len offset word in
      (read.0, rw (h.opened, attempt, ◌>>=◌) read.1, read.2)

  pub read_file-Shows :
      (len : ℕ)
      → a.position + len < u64
      → (t : Fs) × (read_file fd len s
          ≡ ok (read_bytes a.bytes a.position (available a len a.position)) t)
        × Shows fd file fb n t (moved a (available a len a.position))
  unfolding read_file get_open_file
  read_file-Shows len word =
      let read = pread-Shows len a.position word in (read.0, rw (h.opened, ◌>>=◌) read.1, read.2)

  pub seek_file-Shows :
      (offset : ℕ)
      → offset < u64
      → (t : Fs) × (seek_file fd (pos offset) 0 s ≡ ok (pos offset) t)
        × Shows fd file fb n t (record a { position = offset })
  unfolding seek_file get_open_file lseek
  seek_file-Shows offset word =
      let same_word : offset % u64 ≡ offset = omega arith in
      (
        seeked fd (opened_at file a) offset s,
        rw (h.opened, ◌>>=◌) rw
            (set_append_pos_lem fd (offset % u64) (opened_at file a) s h.opened, same_word, ◌>>=◌)
            refl,
        record {
          found = h.found;
          opened = find-insert_self fd _ s.file_handle.open_files;
          unit = h.unit;
          quiet = h.quiet;
          few = h.few;
          inside = h.inside;
          distinct = h.distinct;
          sized = h.sized;
          word = h.word;
          room = h.room;
          same = h.same;
        },
      )
