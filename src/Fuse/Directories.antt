-- ===== src/Fuse/Directories.antt =====
-- lib/bfs_fuse.cc: the callbacks for directories, and the open streams that `UDiskBFS` keeps under the
-- addresses of their objects.
pub mod Listing
use blockfs.Prelude.{
  ℕ, zero, suc, ◌+◌, List, [], ◌∷◌, ◌++◌, Option, none, some, Bool, true, false, if◌then◌else◌,
  length, bytes_eq, nat_eq,
}
use blockfs.Prelude.Int.{ℤ, pos}
use blockfs.Prelude.Map.{Map, find, insert, erase}
use blockfs.Paths.{root_path}
use blockfs.Directory.{scan_dir}
use blockfs.DirHandle.Stream.{DirStream, open_directory, read_directory, close_directory}
use blockfs.Fuse.{neg}
use blockfs.State.{Fs, ok, err, einval}

-- `UDiskBFS`; `next_key` stands for the address of the next `BLOCKFS_DIR`.
pub record Session : Type 0 where
  pub fs : Fs
  pub open_dirs : Map ℕ DirStream
  pub next_key : ℕ

abbrev enomem : ℕ
enomem = 12

-- `PushOpenDirectory` and `PopOpenDirectory`.
unfoldable push_open_directory : DirStream → Session → ℕ × Session
push_open_directory dp s = (
  s.next_key,
  record s { open_dirs = insert s.next_key dp s.open_dirs; next_key = s.next_key + 1 },
)

unfoldable pop_open_directory : ℕ → Session → Option DirStream × Session
pop_open_directory key s = (find key s.open_dirs, record s { open_dirs = erase key s.open_dirs })

-- `bfs_opendir`: the answer and the handle that `fi` keeps.
unfoldable opendir : List ℕ → Session → (ℤ × ℕ) × Session
opendir path s = elim (open_directory path s.fs) [
  | err fs ↦ ((neg fs.errno, 0), record s { fs = fs })
  | ok dp fs ↦ let (key, s') = push_open_directory dp (record s { fs = fs }) in ((pos 0, key), s')
]

-- The caller's buffer, and libfuse's answer whether it takes a further name.
abbrev pub Buffer : Type 0
Buffer = List (List ℕ)

abbrev pub Filler : Type 0
Filler = Buffer → List ℕ → Bool

-- The loop of `bfs_readdir`; `none` is the end of the fuel. The stream has moved on behind the entry
-- that the buffer refuses.
unfoldable pub read_entries :
    ℕ → Filler → DirStream → Buffer → Fs → Option (ℤ × Buffer × DirStream × Fs)
read_entries zero takes d buffer s = none
read_entries (suc fuel) takes d buffer s = elim (read_directory d s) [
  | err s' ↦ some (pos 0, buffer, d, s')
  | ok (entry, d') s' ↦ elim entry [
    | none ↦ some (pos 0, buffer, d', s')
    | some e ↦ elim (takes buffer e.d_name) [
      | true ↦ read_entries fuel takes d' (buffer ++ e.d_name ∷ []) s'
      | false ↦ some (neg enomem, buffer, d', s')
    ]
  ]
]

abbrev pub dot : List ℕ
dot = b'.' ∷ []

abbrev pub dot_dot : List ℕ
dot_dot = b'.' ∷ b'.' ∷ []

-- The names that the root gets in front of its entries, and whether the buffer took both.
abbrev root_entries : Filler → Bool × Buffer
root_entries takes =
    if takes [] dot
    then (if takes (dot ∷ []) dot_dot then (true, dot ∷ dot_dot ∷ []) else (false, dot ∷ []))
    else (false, [])

-- More than the entries that a stream can still give.
abbrev pub entries_fuel : DirStream → Fs → ℕ
entries_fuel d s = length (scan_dir d.dir s) + length d.dir_items + 1

-- The entries of a stream that is open under the handle, which moves on.
unfoldable pub read_stream : Filler → ℕ → Buffer → Session → Option ((ℤ × Buffer) × Session)
read_stream takes key buffer s = elim (find key s.open_dirs) [
  | none ↦ some ((neg einval, buffer), s)
  | some d ↦ elim (read_entries (entries_fuel d s.fs) takes d buffer s.fs) [
    | none ↦ none
    | some (res, names, d', fs) ↦
        some ((res, names), record s { fs = fs; open_dirs = insert key d' s.open_dirs })
  ]
]

-- `bfs_readdir`: the answer and the buffer.
unfoldable pub readdir : Filler → List ℕ → ℕ → Session → Option ((ℤ × Buffer) × Session)
readdir takes path key s =
    if bytes_eq path root_path
    then (let (both, buffer) = root_entries takes in
        if both then read_stream takes key buffer s else some ((pos 0, buffer), s))
    else read_stream takes key [] s

-- `bfs_releasedir`: `CloseDirectory` always returns 0.
unfoldable releasedir : ℕ → Session → ℤ × Session
releasedir key s =
    let (found, s') = pop_open_directory key s in
    elim found [
      | none ↦ (neg einval, s')
      | some d ↦ elim (close_directory d s'.fs) [
        | ok a fs ↦ (pos 0, record s' { fs = fs })
        | err fs ↦ (pos 0, record s' { fs = fs })
      ]
    ]
