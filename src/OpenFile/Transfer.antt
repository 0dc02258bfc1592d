-- ===== src/OpenFile/Transfer.antt =====
-- Transfers of lib/file.cc over a device that completes them: what the pieces move.
use blockfs.Prelude.{
  ℕ, zero, suc, ◌+◌, ◌-◌, ◌*◌, ◌/◌, ◌%◌, ◌<◌, ◌≤◌, ◌≡◌, refl, ◌∙◌, ap, List, [], ◌∷◌, ◌++◌, Option,
  some, arith, get_or, length, u64, nat_eq,
}
use blockfs.Prelude.Map.{find, insert}
use blockfs.Meta.{k_block_size}
use blockfs.Device.{read_bytes, write_bytes, pread_cache, pwrite_cache}
use blockfs.File.{get_file_block}
use blockfs.FileHandle.{get_open_file}
use blockfs.OpenFile.{
  BlockData, pieces, read_pieces, write_pieces, read_data, write_data, advance, set_append_pos,
}
use blockfs.OpenFile.Pieces.{address, address-add, Covers}
use blockfs.OpenFile.Contents.{store, fetch, IsInjective, Covers-le}
use blockfs.State.{
  pwrite_direct_completes, Fs, ok, OpenFile, ◌>>=◌, ◌>>◌, gets, pwrite_direct, attempt, bind-ok,
  then-ok, or_fail_lem, or_fail_with, ebadf, modify, on_file_handle,
}

-- The device of a state with other bytes, and no refusals left.
abbrev pub with_bytes : (ℕ → ℕ) → Fs → Fs
with_bytes bytes s = record s { dev = record s.dev { outcomes = []; bytes = bytes } }

-- All pieces lie on the device.
abbrev pub Fits : ℕ → List BlockData → Type 0
Fits dev_size [] = Unit {0}
Fits dev_size (p ∷ ps) = (p.dev_offset + p.size ≤ dev_size) × Fits dev_size ps

abbrev pub total : List BlockData → ℕ
total [] = 0
total (p ∷ ps) = p.size + total ps

pub with_bytes_self : (s : Fs) → s.dev.outcomes ≡ [] → s ≡ with_bytes s.dev.bytes s
with_bytes_self s quiet = λ i. record s { dev = record s.dev { outcomes = quiet i } }

-- One piece is transferred, then the rest is.
write_pieces-step :
    (p : BlockData) (ps : List BlockData) (buffer : ℕ → ℕ) (s : Fs) {s' s'' : Fs} {n : ℕ}
    → pwrite_cache p.size p.dev_offset (λ i. buffer (p.buffer_offset + i)) s ≡ ok tt s'
    → write_pieces ps buffer s' ≡ ok n s''
    → write_pieces (p ∷ ps) buffer s ≡ ok (p.size + n) s''
unfolding write_pieces
write_pieces-step p ps buffer s e rest = rw (e, rest, ◌>>=◌, attempt)

write_pieces-store :
    (ps : List BlockData) (buffer : ℕ → ℕ) (s : Fs)
    → s.dev.outcomes ≡ []
    → Fits s.dev.dev_size ps
    → write_pieces ps buffer s ≡ ok (total ps) (with_bytes (store ps buffer s.dev.bytes) s)
unfolding write_pieces store pwrite_cache
write_pieces-store [] buffer s quiet fits = ap (ok 0) (with_bytes_self s quiet)
write_pieces-store (p ∷ ps) buffer s quiet fits =
    let bytes = write_bytes p.size (λ i. buffer (p.buffer_offset + i)) p.dev_offset s.dev.bytes in
    write_pieces-step p ps buffer s
      (pwrite_direct_completes p.size p.dev_offset
        (λ d. record d {
          bytes = write_bytes p.size (λ i. buffer (p.buffer_offset + i)) p.dev_offset d.bytes;
        })
        s quiet fits.0)
      (write_pieces-store ps buffer (with_bytes bytes s) refl fits.1)

read_pieces-step :
    (p : BlockData) (ps : List BlockData) (s : Fs) {buffer : ℕ → ℕ} {bytes : List ℕ} {s' s'' : Fs}
    → pread_cache p.size p.dev_offset s ≡ ok buffer s'
    → read_pieces ps s' ≡ ok bytes s''
    → read_pieces (p ∷ ps) s ≡ ok (read_bytes buffer 0 p.size ++ bytes) s''
unfolding read_pieces
read_pieces-step p ps s e rest = rw (e, rest, ◌>>=◌, attempt)

read_pieces-fetch :
    (ps : List BlockData) (s : Fs)
    → s.dev.outcomes ≡ []
    → Fits s.dev.dev_size ps
    → read_pieces ps s ≡ ok (fetch ps s.dev.bytes) (with_bytes s.dev.bytes s)
unfolding read_pieces fetch pread_cache
read_pieces-fetch [] s quiet fits = ap (ok []) (with_bytes_self s quiet)
read_pieces-fetch (p ∷ ps) s quiet fits =
    read_pieces-step p ps s
      (then-ok (pwrite_direct p.size p.dev_offset (λ d. d))
        (gets (λ s. λ i. s.dev.bytes (p.dev_offset + i)))
        (pwrite_direct_completes p.size p.dev_offset (λ d. d) s quiet fits.0))
      (read_pieces-fetch ps (with_bytes s.dev.bytes s) refl fits.1)

pub length-read_bytes : (bytes : ℕ → ℕ) (offset n : ℕ) → length (read_bytes bytes offset n) ≡ n
unfolding read_bytes
length-read_bytes bytes offset zero = refl
length-read_bytes bytes offset (suc n) = ap suc (length-read_bytes bytes (suc offset) n)

module _ (data_start : ℕ) (ids : List ℕ) (offset size : ℕ) where
  pub Covers-total :
      (ps : List BlockData) (curr : ℕ)
      → Covers data_start ids offset size curr ps
      → curr + total ps ≡ size
  Covers-total [] curr c = omega arith
  Covers-total (p ∷ ps) curr c = omega (arith, Covers-total ps (curr + p.size) c.4)

  pub Covers-Fits :
      (dev_size : ℕ) (ps : List BlockData) (curr : ℕ)
      → ((k : ℕ) → k < size → address data_start ids (offset + k) < dev_size)
      → Covers data_start ids offset size curr ps
      → Fits dev_size ps
  Covers-Fits dev_size [] curr inside c = tt
  Covers-Fits dev_size (p ∷ ps) curr inside c =
      let le = Covers-le data_start ids offset size ps (curr + p.size) c.4 in
      let last : offset + (curr + (p.size - 1)) ≡ offset + curr + (p.size - 1) = omega arith in
      let place : address data_start ids (offset + (curr + (p.size - 1)))
          ≡ address data_start ids (offset + curr) + (p.size - 1) =
        ap (address data_start ids) last
        ∙ address-add data_start ids (offset + curr) p.size (p.size - 1) (omega arith) c.2 in
      let bound = inside (curr + (p.size - 1)) (omega arith) in
      let first : p.dev_offset ≡ address data_start ids (offset + curr) = c.3 in
      (omega (arith, first, place, bound, c.1), Covers-Fits dev_size ps (curr + p.size) inside c.4)

  -- Blocks that differ hold different addresses.
  pub distinct_blocks :
      (n : ℕ)
      → offset + size ≤ n * k_block_size
      → ((i j : ℕ) → i < n → j < n → get_or ids i 0 ≡ get_or ids j 0 → i ≡ j)
      → IsInjective data_start ids offset size
  distinct_blocks n within distinct j k hj hk e =
      let same_id : get_or ids ((offset + j) / k_block_size) 0
          ≡ get_or ids ((offset + k) / k_block_size) 0 =
        omega (arith, e) in
      let same_block =
        distinct ((offset + j) / k_block_size) ((offset + k) / k_block_size) (omega arith)
          (omega arith) same_id in
      omega (arith, e, same_id, same_block)

-- The state behind a transfer of `n` bytes: other bytes on the device, and the position moved.
abbrev pub transferred : ℕ → OpenFile → ℕ → (ℕ → ℕ) → Fs → Fs
transferred fd f n bytes s = record (with_bytes bytes s) {
  file_handle = record s.file_handle {
    open_files =
        insert fd (record f { append_pos = (f.append_pos + n) % u64 }) s.file_handle.open_files;
  };
}

get_file_block_lem :
    (file cut : ℕ) (s : Fs) {fb : ℕ}
    → find cut (s.files file).item_maps ≡ some fb
    → get_file_block file cut s ≡ ok fb s
unfolding get_file_block
get_file_block_lem file cut s e = or_fail_lem (find cut (s.files file).item_maps) s e

get_open_file_lem :
    (fd : ℕ) (s : Fs) {f : OpenFile}
    → find fd s.file_handle.open_files ≡ some f
    → get_open_file fd s ≡ ok f s
unfolding get_open_file
get_open_file_lem fd s e = ap (λ o. or_fail_with o ebadf s) e

advance_lem :
    (fd n : ℕ) (s : Fs) {f : OpenFile}
    → find fd s.file_handle.open_files ≡ some f
    → advance fd n s
      ≡ ok tt (record s {
        file_handle = record s.file_handle {
          open_files =
              insert fd
                (record f { append_pos = (f.append_pos + n) % u64 })
                s.file_handle.open_files;
        };
      })
unfolding advance set_append_pos
advance_lem fd n s {f} e =
    bind-ok (get_open_file fd) (λ x. set_append_pos fd ((x.append_pos + n) % u64))
      (get_open_file_lem fd s e)
    ∙ bind-ok (get_open_file fd)
        (λ x. modify (
          on_file_handle λ h. record h {
            open_files =
                insert fd (record x { append_pos = (f.append_pos + n) % u64 }) h.open_files;
          }))
        (get_open_file_lem fd s e)

module _ (fd file fb offset size : ℕ) (f : OpenFile) (s : Fs) where
  abbrev pub ids_of : List ℕ
  ids_of = (s.file_block_handle.metas fb).block_id

  abbrev pub cut_pieces : Option (List BlockData)
  cut_pieces =
      pieces s.super_meta.block_data_start_offset s.super_meta.block_size ids_of offset size

  pub write_data-pieces :
      (ps : List BlockData) (buffer : ℕ → ℕ)
      → find 0 (s.files file).item_maps ≡ some fb
      → find fd s.file_handle.open_files ≡ some f
      → s.dev.outcomes ≡ []
      → cut_pieces ≡ some ps
      → Fits s.dev.dev_size ps
      → total ps ≡ size
      → write_data fd file buffer size offset s
        ≡ ok size (transferred fd f size (store ps buffer s.dev.bytes) s)
  unfolding write_data
  write_data-pieces ps buffer found opened quiet cut fits all =
      rw (get_file_block_lem file 0 s found, cut, write_pieces-store ps buffer s quiet fits, ◌>>=◌)
        rw
        (
          advance_lem fd (total ps) (with_bytes (store ps buffer s.dev.bytes) s) opened,
          all,
          ◌>>=◌,
          ◌>>◌,
        )

  pub read_data-pieces :
      (ps : List BlockData)
      → find 0 (s.files file).item_maps ≡ some fb
      → find fd s.file_handle.open_files ≡ some f
      → s.dev.outcomes ≡ []
      → cut_pieces ≡ some ps
      → Fits s.dev.dev_size ps
      → length (fetch ps s.dev.bytes) ≡ size
      → read_data fd file size offset s
        ≡ ok (fetch ps s.dev.bytes) (transferred fd f size s.dev.bytes s)
  unfolding read_data
  read_data-pieces ps found opened quiet cut fits all =
      rw (get_file_block_lem file 0 s found, cut, read_pieces-fetch ps s quiet fits, ◌>>=◌) rw
        (
          advance_lem fd (length (fetch ps s.dev.bytes)) (with_bytes s.dev.bytes s) opened,
          all,
          ◌>>=◌,
          ◌>>◌,
        )
