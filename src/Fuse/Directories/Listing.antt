-- ===== src/Fuse/Directories/Listing.antt =====
-- What a listing through `bfs_readdir` (lib/bfs_fuse.cc) gives.
use blockfs.Prelude.{ℕ, List, [], ◌∷◌, true, false, if◌then◌else◌, drop, bytes_eq, nat_eq}
use mathlib.Core.List.{map}
use blockfs.Paths.{root_path}
use blockfs.Directory.{Dirent}
use blockfs.DirHandle.Stream.{DirStream}
use blockfs.Fuse.Directories.{Buffer, dot, dot_dot}

-- A stream whose entries are listed.
abbrev stream_at : ℕ → ℕ → List Dirent → ℕ → DirStream
stream_at fd dir items i = record {
  inited = true;
  fd = fd;
  index = i;
  dir = dir;
  dir_items = items;
}

abbrev names_from : List Dirent → ℕ → Buffer
names_from items i = map (λ e. e.d_name) (drop i items)

-- A stream that nothing has been read from.
abbrev pub fresh_stream : ℕ → ℕ → DirStream
fresh_stream fd dir = record { inited = false; fd = fd; index = 0; dir = dir; dir_items = [] }

-- The names that come before the entries.
abbrev first_names : List ℕ → Buffer
first_names path = if bytes_eq path root_path then dot ∷ dot_dot ∷ [] else []
