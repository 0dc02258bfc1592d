-- ===== src/FileSystem/ByteFile.antt =====
-- What an open file promises to a caller of lib/file_system.cc: an array of bytes with a position. A
-- run of reads, writes and seeks through one descriptor refines it.
pub mod Reads
pub mod Refines
use blockfs.Prelude.{
  ℕ, ◌+◌, ◌-◌, ◌*◌, ◌%◌, ◌≤◌, ◌<◌, ◌≡◌, inl, inr, refl, List, [], ◌∷◌, some, ◌==◌, if◌then◌else◌,
  arith, nat_eq, u64, min,
}
use blockfs.Prelude.Int.{ℤ, pos}
use blockfs.Prelude.Map.{find}
use blockfs.Meta.{k_block_size, k_file_block_capacity}
use blockfs.Device.{read_bytes, write_bytes}
use blockfs.OpenFile.Bytes.{content}
use blockfs.OpenFile.RoundTrip.{OnDevice, HasDistinctBlocks}
use blockfs.FileSystem.{pread_file, pwrite_file, read_file, seek_file}
use blockfs.State.{Fs, Action, file_meta, ◌>>=◌, ◌>>◌, pure}

-- The abstract file.
pub record ByteFile : Type 0 where
  pub size : ℕ
  pub bytes : ℕ → ℕ
  pub position : ℕ

pub data Request : Type 0 where
  pread_at : ℕ → ℕ → Request
  read_on : ℕ → Request
  pwrite_at : (ℕ → ℕ) → ℕ → ℕ → Request
  seek_to : ℕ → Request

pub data Reply : Type 0 where
  bytes_read : List ℕ → Reply
  bytes_written : ℕ → Reply
  position_set : ℤ → Reply

-- What is left of the file for a read.
abbrev pub available : ByteFile → ℕ → ℕ → ℕ
available a len offset = min len (a.size - offset)

-- A transfer moves the position by its count.
abbrev pub moved : ByteFile → ℕ → ByteFile
moved a n = if n == 0 then a else record a { position = (a.position + n) % u64 }

abbrev read_reply : ByteFile → ℕ → ℕ → Reply
read_reply a len offset = bytes_read (read_bytes a.bytes offset (available a len offset))

abbrev pub reply : Request → ByteFile → Reply
reply (pread_at len offset) a = read_reply a len offset
reply (read_on len) a = read_reply a len a.position
reply (pwrite_at buffer len offset) a = bytes_written len
reply (seek_to offset) a = position_set (pos offset)

abbrev pub next : Request → ByteFile → ByteFile
next (pread_at len offset) a = moved a (available a len offset)
next (read_on len) a = moved a (available a len a.position)
next (pwrite_at buffer len offset) a =
    moved (record a { bytes = write_bytes len buffer offset a.bytes }) len
next (seek_to offset) a = record a { position = offset }

-- An `off_t` is below this.
abbrev pub off_t_limit : ℕ
off_t_limit = 9223372036854775808

-- A write stays within the file, a range within 64 bits, a seek within an `off_t`.
abbrev pub IsWithin : ByteFile → Request → Type 0
IsWithin a (pread_at len offset) = offset + len < u64
IsWithin a (read_on len) = a.position + len < u64
IsWithin a (pwrite_at buffer len offset) = offset + len ≤ a.size
IsWithin a (seek_to offset) = offset < off_t_limit

-- The replies of the array to a list of requests, and the array behind them.
unfoldable pub replay : List Request → ByteFile → List Reply
replay [] a = []
replay (r ∷ rs) a = reply r a ∷ replay rs (next r a)

unfoldable pub behind : List Request → ByteFile → ByteFile
behind [] a = a
behind (r ∷ rs) a = behind rs (next r a)

abbrev pub AllWithin : List Request → ByteFile → Type 0
AllWithin [] a = Unit {0}
AllWithin (r ∷ rs) a = IsWithin a r × AllWithin rs (next r a)

-- The same requests to the file system.
unfoldable pub serve : ℕ → Request → Action Reply
serve fd (pread_at len offset) = do bytes ← pread_file fd len offset; pure (bytes_read bytes)
serve fd (read_on len) = do bytes ← read_file fd len; pure (bytes_read bytes)
serve fd (pwrite_at buffer len offset) = do
  n ← pwrite_file fd buffer len offset
  pure (bytes_written n)
serve fd (seek_to offset) = do p ← seek_file fd (pos offset) 0; pure (position_set p)

unfoldable pub serve_all : ℕ → List Request → Action (List Reply)
serve_all fd [] = pure []
serve_all fd (r ∷ rs) = do first ← serve fd r; rest ← serve_all fd rs; pure (first ∷ rest)

-- A state of the file system shows an array of bytes at a descriptor: the file `file` is open there,
-- its blocks are the first n of the file block `fb`, different and on the device, the device completes
-- its transfers, and size, bytes and position are those of the array.
pub record Shows (fd file fb n : ℕ) (s : Fs) (a : ByteFile) : Type 0 where
  pub found : find 0 (s.files file).item_maps ≡ some fb
  pub opened :
      find fd s.file_handle.open_files ≡ some (record { file = file; append_pos = a.position })
  pub unit : s.super_meta.block_size ≡ k_block_size
  pub quiet : s.dev.outcomes ≡ []
  pub few : n ≤ k_file_block_capacity
  pub inside : OnDevice fb n s
  pub distinct : HasDistinctBlocks fb n s
  pub sized : (file_meta file s).size ≡ a.size
  pub word : a.size < u64
  pub room : a.size ≤ n * k_block_size
  pub same : (x : ℕ) → x < a.size → content fb s x ≡ a.bytes x
