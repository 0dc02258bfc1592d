-- ===== src/OpenFile/Errors.antt =====
-- Transfers of lib/file.cc on a device that may refuse them.
use blockfs.Prelude.{ℕ, ◌+◌, ◌≤◌, ◌≡◌, ◌⊎◌, inl, inr, refl, List, [], ◌∷◌, arith}
use blockfs.Device.{pwrite_cache}
use blockfs.OpenFile.{BlockData, write_pieces}
use blockfs.OpenFile.Transfer.{total}
use blockfs.State.{Fs, ok, err, attempt, Outcome-cases, ◌>>=◌}

write_pieces_rest :
    (ps : List BlockData) (buffer : ℕ → ℕ) (s : Fs)
    → (n : ℕ) × (t : Fs) × (write_pieces ps buffer s ≡ ok n t) × (n ≤ total ps)
unfolding write_pieces
write_pieces_rest [] buffer s = (0, s, refl, omega arith)
write_pieces_rest (p ∷ ps) buffer s =
    elim (Outcome-cases (pwrite_cache p.size p.dev_offset (λ i. buffer (p.buffer_offset + i)) s)) [
      | inr (t, e) ↦ (0, t, rw (e, attempt, ◌>>=◌) refl, omega arith)
      | inl (_, t, e) ↦
          let (n, t', wrote, few) = write_pieces_rest ps buffer t in
          (p.size + n, t', rw (e, attempt, ◌>>=◌) rw (wrote, ◌>>=◌) refl, omega (arith, few))
    ]

-- A write of some pieces is never an error to the caller, whatever the device refuses: where the first
-- piece is refused the count is 0 and no other piece is tried; else the count is that of the first
-- piece and at most that of the others.
pub write_pieces-count :
    (p : BlockData) (ps : List BlockData) (buffer : ℕ → ℕ) (s : Fs)
    → let first = pwrite_cache p.size p.dev_offset (λ i. buffer (p.buffer_offset + i)) in
      ((t : Fs) × (first s ≡ err t) × (write_pieces (p ∷ ps) buffer s ≡ ok 0 t))
      ⊎ ((t : Fs) × (first s ≡ ok tt t)
          × ((n : ℕ) × (t' : Fs) × (write_pieces (p ∷ ps) buffer s ≡ ok (p.size + n) t')
              × (n ≤ total ps)))
unfolding write_pieces
write_pieces-count p ps buffer s =
    elim (Outcome-cases (pwrite_cache p.size p.dev_offset (λ i. buffer (p.buffer_offset + i)) s)) [
      | inr (t, e) ↦ inl (t, e, rw (e, attempt, ◌>>=◌) refl)
      | inl (_, t, e) ↦
          let (n, t', wrote, few) = write_pieces_rest ps buffer t in
          inr (t, e, (n, t', rw (e, attempt, ◌>>=◌) rw (wrote, ◌>>=◌) refl, few))
    ]
