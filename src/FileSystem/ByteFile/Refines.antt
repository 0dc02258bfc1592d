-- ===== src/FileSystem/ByteFile/Refines.antt =====
-- Any run of requests at a descriptor that shows an array of bytes (lib/file_system.cc).
use blockfs.Prelude.{
  ℕ, ◌+◌, ◌≤◌, ◌<◌, ◌≡◌, inl, inr, refl, sym, ◌∙◌, List, [], ◌∷◌, ◌==◌, arith, nat_eq, Bool-cases,
  ◌⊎◌, lt_or_ge,
}
use blockfs.Device.{write_bytes}
use blockfs.FileHandle.{get_open_file}
use blockfs.OpenFile.{pwrite}
use blockfs.OpenFile.Bytes.{write_data-content}
use blockfs.OpenFile.Contents.{write_bytes_out}
use blockfs.OpenFile.Transfer.{transferred}
use blockfs.FileSystem.{pwrite_file}
use blockfs.FileSystem.Data.{stamped, pwrite_file-write_data}
use blockfs.State.{Fs, ok, attempt, ◌>>=◌}
use blockfs.FileSystem.ByteFile.{
  ByteFile, Request, pread_at, read_on, pwrite_at, seek_to, reply, next, IsWithin, replay, behind,
  AllWithin, serve, serve_all, Shows,
}
use blockfs.FileSystem.ByteFile.Reads.{
  opened_at, Shows-transferred, Shows-stamped, pread_file-Shows, read_file-Shows, seek_file-Shows,
}

write_bytes_at :
    (buffer bytes bytes' : ℕ → ℕ) (len offset x : ℕ)
    → bytes x ≡ bytes' x
    → write_bytes len buffer offset bytes x ≡ write_bytes len buffer offset bytes' x
unfolding write_bytes
write_bytes_at buffer bytes bytes' len offset x e = rw e refl

module _ (fd file fb n : ℕ) (s : Fs) (a : ByteFile) (h : Shows fd file fb n s a) where
  pwrite_nothing :
      (buffer : ℕ → ℕ) (offset : ℕ)
      → Shows fd file fb n s (record a { bytes = write_bytes 0 buffer offset a.bytes })
  pwrite_nothing buffer offset = record {
    found = h.found;
    opened = h.opened;
    unit = h.unit;
    quiet = h.quiet;
    few = h.few;
    inside = h.inside;
    distinct = h.distinct;
    sized = h.sized;
    word = h.word;
    room = h.room;
    same = λ x l. h.same x l ∙ sym (write_bytes_out 0 buffer offset a.bytes x (at_nothing x));
  }
    where
      at_nothing : (x : ℕ) → (x < offset) ⊎ (offset + 0 ≤ x)
      at_nothing x = elim (lt_or_ge x offset) [ inl l ↦ inl l | inr g ↦ inr (omega arith) ]

pwrite_file-Shows :
    (fd file fb n : ℕ) (s : Fs) (a : ByteFile) (buffer : ℕ → ℕ) (len offset : ℕ)
    → Shows fd file fb n s a
    → offset + len ≤ a.size
    → (t : Fs) × (pwrite_file fd buffer len offset s ≡ ok len t)
      × Shows fd file fb n t (next (pwrite_at buffer len offset) a)
unfolding pwrite_file get_open_file pwrite
pwrite_file-Shows fd file fb n s a buffer len offset h within = elim (Bool-cases (len == 0)) [
  | inl nothing ↦
      let none_left : len ≡ 0 = ground arith in
      rw none_left
        (s, rw (h.opened, attempt, ◌>>=◌) refl, pwrite_nothing fd file fb n s a h buffer offset)
  | inr something ↦
      let s' = stamped file s in
      let h' = Shows-stamped fd file fb n s a h in
      let some_bytes : 0 < len = ground arith in
      let written =
        write_data-content fd file fb n offset len (opened_at file a) s' h'.found h'.opened h'.unit
          h'.quiet some_bytes h.few (omega (arith, h.room)) h'.inside buffer h'.distinct in
      (
        transferred fd (opened_at file a) len written.0 s',
        pwrite_file-write_data fd offset len (opened_at file a) buffer s h.opened some_bytes
              (omega (arith, h.sized)) (omega (arith, h.sized, h.word))
            ∙ written.1,
        rw something (
            Shows-transferred fd file fb n s' a h' len written.0
              (write_bytes len buffer offset a.bytes)
              (λ x l.
                written.2 x (omega (arith, h.room))
                ∙ write_bytes_at buffer _ a.bytes len offset x (h'.same x l))),
      )
]

-- One request.
serve-Shows :
    (fd file fb n : ℕ) (s : Fs) (a : ByteFile) (r : Request)
    → Shows fd file fb n s a
    → IsWithin a r
    → (t : Fs) × (serve fd r s ≡ ok (reply r a) t) × Shows fd file fb n t (next r a)
unfolding serve
serve-Shows fd file fb n s a (pread_at len offset) h w =
    let done = pread_file-Shows fd file fb n s a h len offset w in
    (done.0, rw (done.1, ◌>>=◌) refl, done.2)
serve-Shows fd file fb n s a (read_on len) h w =
    let done = read_file-Shows fd file fb n s a h len w in (done.0, rw (done.1, ◌>>=◌) refl, done.2)
serve-Shows fd file fb n s a (pwrite_at buffer len offset) h w =
    let done = pwrite_file-Shows fd file fb n s a buffer len offset h w in
    (done.0, rw (done.1, ◌>>=◌) refl, done.2)
serve-Shows fd file fb n s a (seek_to offset) h w =
    let done = seek_file-Shows fd file fb n s a h offset (omega (arith, w)) in
    (done.0, rw (done.1, ◌>>=◌) refl, done.2)

-- Any run of reads, writes and seeks through an open descriptor, where the state shows an array of
-- bytes and each request stays within it: all requests succeed, the replies are those of the array, and
-- the state behind them shows the array that the requests leave.
pub serve_all_refines :
    (fd file fb n : ℕ) (rs : List Request) (s : Fs) (a : ByteFile)
    → Shows fd file fb n s a
    → AllWithin rs a
    → (t : Fs) × (serve_all fd rs s ≡ ok (replay rs a) t) × Shows fd file fb n t (behind rs a)
unfolding serve_all replay behind
serve_all_refines fd file fb n [] s a h w = (s, refl, h)
serve_all_refines fd file fb n (r ∷ rs) s a h w =
    let first = serve-Shows fd file fb n s a r h w.0 in
    let rest = serve_all_refines fd file fb n rs first.0 (next r a) first.2 w.1 in
    (rest.0, rw (first.1, ◌>>=◌) rw (rest.1, ◌>>=◌) refl, rest.2)
