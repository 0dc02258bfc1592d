-- ===== src/State/Monad.antt =====
-- The records of the shared state (lib/file.h, lib/directory.h, lib/inode.h and the handle headers)
-- and the monad of its actions: `none` is a result false, -1 or nullptr, and what was written
-- before a failure stays written.
use blockfs.Prelude.{
  ℕ, ◌+◌, ◌-◌, ◌%◌, List, [], ◌∷◌, Option, none, some, Bool, true, false, ltb, if◌then◌else◌, u32,
}
use blockfs.Prelude.Map.{Map, update}
use blockfs.Meta.{SuperBlockMeta, DirMeta, FileMeta, FileBlockMeta}
use blockfs.FdHandle.{FdHandle}
use blockfs.BlockHandle.{BlockHandle}

-- A File object. `nlink` is the bit pattern of an `atomic_int`; `item_maps` takes a file cut to a
-- file block.
pub record File : Type 0 where
  pub meta : ℕ
  pub nlink : ℕ
  pub locked : Bool
  pub deleted : Bool
  pub item_maps : Map ℕ ℕ

pub record OpenFile : Type 0 where
  pub file : ℕ
  pub append_pos : ℕ

pub record ParentFile : Type 0 where
  pub meta : ℕ
  pub offset : ℕ
  pub fb_maps : Map ℕ ℕ

-- A Directory object, with its files by fh and its directories by dh.
pub record Directory : Type 0 where
  pub meta : ℕ
  pub nlink : ℕ
  pub item_maps : Map ℕ ℕ
  pub child_dir_maps : Map ℕ ℕ

pub record FileHandle : Type 0 where
  pub free_fhs : List ℕ
  pub metas : ℕ → FileMeta
  pub created_files : Map (ℕ × List ℕ) ℕ
  pub created_fhs : Map ℕ ℕ
  pub open_files : Map ℕ OpenFile
  pub parent_files : Map ℕ ParentFile

pub record DirHandle : Type 0 where
  pub free_dhs : List ℕ
  pub metas : ℕ → DirMeta
  pub created_dirs : Map (List ℕ) ℕ
  pub created_dhs : Map ℕ ℕ
  pub open_dirs : Map ℕ ℕ

pub record FileBlockHandle : Type 0 where
  pub free_fbhs : List ℕ
  pub metas : ℕ → FileBlockMeta

-- The block device as the metadata and data that it holds. `outcomes` says of each coming transfer
-- whether the kernel completes it; past the end of the list all do.
pub record Device : Type 0 where
  pub dev_size : ℕ
  pub outcomes : List Bool
  pub super_block : SuperBlockMeta
  pub dir_metas : ℕ → DirMeta
  pub file_metas : ℕ → FileMeta
  pub file_block_metas : ℕ → FileBlockMeta
  pub bytes : ℕ → ℕ

-- zlib's `crc32` over the bytes of a record behind its `crc_` field.
pub record Checksums : Type 0 where
  pub of_dir : DirMeta → ℕ
  pub of_file : FileMeta → ℕ
  pub of_file_block : FileBlockMeta → ℕ

pub record Fs : Type 0 where
  pub errno : ℕ
  pub now : ℕ
  pub crc32 : Checksums
  pub super_meta : SuperBlockMeta
  pub dev : Device
  pub fd_handle : FdHandle
  pub block_handle : BlockHandle
  pub dir_handle : DirHandle
  pub file_handle : FileHandle
  pub file_block_handle : FileBlockHandle
  pub files : ℕ → File
  pub next_file : ℕ
  pub directories : ℕ → Directory
  pub next_directory : ℕ

-- How an action ends, and the state that it leaves.
pub data Outcome (A : Type 0) : Type 0 where
  ok : A → Fs → Outcome A
  err : Fs → Outcome A

abbrev pub Action : Type 0 → Type 0
Action A = Fs → Outcome A

infixl 5 ◌>>=◌ ◌>>◌
abbrev pub ◌>>=◌ : {A B : Type 0} → Action A → (A → Action B) → Action B
◌>>=◌ m f s = elim (m s) [ ok a s' ↦ f a s' | err s' ↦ err s' ]

abbrev pub ◌>>◌ : {A B : Type 0} → Action A → Action B → Action B
m >> k = m >>= λ _. k

module _ {A : Type 0} where
  abbrev pub pure : A → Action A
  pure a s = ok a s

  abbrev pub fail : Action A
  fail s = err s

  abbrev pub fail_with : ℕ → Action A
  fail_with e s = err (record s { errno = e })

  abbrev pub gets : (Fs → A) → Action A
  gets f s = ok (f s) s

  abbrev pub or_fail : Option A → Action A
  or_fail none = fail
  or_fail (some a) = pure a

  abbrev pub or_fail_with : Option A → ℕ → Action A
  or_fail_with none e = fail_with e
  or_fail_with (some a) e = pure a

  -- Runs an action whose failure the caller looks at or ignores.
  abbrev pub attempt : Action A → Action (Option A)
  attempt m s = elim (m s) [ ok a s' ↦ ok (some a) s' | err s' ↦ ok none s' ]

  abbrev pub result : Outcome A → Option A
  result (ok a s) = some a
  result (err s) = none

  abbrev pub final : Outcome A → Fs
  final (ok a s) = s
  final (err s) = s

abbrev pub modify : (Fs → Fs) → Action (Unit {0})
modify f s = ok tt (f s)

abbrev pub fail_if : Bool → ℕ → Action (Unit {0})
fail_if b e s = if b then err (record s { errno = e }) else ok tt s

-- `if (!test) return false;`
abbrev pub check : Bool → Action (Unit {0})
check b s = if b then ok tt s else err s

abbrev pub set_errno : ℕ → Action (Unit {0})
set_errno e = modify λ s. record s { errno = e }

abbrev pub on_fd_handle : (FdHandle → FdHandle) → Fs → Fs
on_fd_handle f s = record s { fd_handle = f s.fd_handle }

abbrev pub on_block_handle : (BlockHandle → BlockHandle) → Fs → Fs
on_block_handle f s = record s { block_handle = f s.block_handle }

abbrev pub on_dir_handle : (DirHandle → DirHandle) → Fs → Fs
on_dir_handle f s = record s { dir_handle = f s.dir_handle }

abbrev pub on_file_handle : (FileHandle → FileHandle) → Fs → Fs
on_file_handle f s = record s { file_handle = f s.file_handle }

abbrev pub on_file_block_handle : (FileBlockHandle → FileBlockHandle) → Fs → Fs
on_file_block_handle f s = record s { file_block_handle = f s.file_block_handle }

-- Through a File pointer: the object, its metadata, and writes to the two.
abbrev pub file_meta : ℕ → Fs → FileMeta
file_meta p s = s.file_handle.metas (s.files p).meta

abbrev pub on_file : ℕ → (File → File) → Fs → Fs
on_file p f s = record s { files = update s.files p (f (s.files p)) }

abbrev pub on_file_slot : ℕ → (FileMeta → FileMeta) → Fs → Fs
on_file_slot i f = on_file_handle λ h. record h { metas = update h.metas i (f (h.metas i)) }

abbrev pub on_file_meta : ℕ → (FileMeta → FileMeta) → Fs → Fs
on_file_meta p f s = on_file_slot (s.files p).meta f s

abbrev pub dir_meta : ℕ → Fs → DirMeta
dir_meta d s = s.dir_handle.metas (s.directories d).meta

abbrev pub on_directory : ℕ → (Directory → Directory) → Fs → Fs
on_directory d f s = record s { directories = update s.directories d (f (s.directories d)) }

abbrev pub on_dir_slot : ℕ → (DirMeta → DirMeta) → Fs → Fs
on_dir_slot i f = on_dir_handle λ h. record h { metas = update h.metas i (f (h.metas i)) }

abbrev pub on_dir_meta : ℕ → (DirMeta → DirMeta) → Fs → Fs
on_dir_meta d f s = on_dir_slot (s.directories d).meta f s

abbrev pub file_block_meta : ℕ → Fs → FileBlockMeta
file_block_meta i s = s.file_block_handle.metas i

abbrev pub on_file_block_meta : ℕ → (FileBlockMeta → FileBlockMeta) → Fs → Fs
on_file_block_meta i f =
    on_file_block_handle λ h. record h { metas = update h.metas i (f (h.metas i)) }

-- A direct write of the device: the bounds test of `PwriteDirect`, then the kernel's transfer. The
-- callers compare the count with the length, so a write that is short or refused is a failure; it
-- leaves the device as it was.
unfoldable pub take_outcome : List Bool → Bool × List Bool
take_outcome [] = (true, [])
take_outcome (b ∷ bs) = (b, bs)

abbrev pub next_outcome : Device → Bool × Device
next_outcome d = let (b, rest) = take_outcome d.outcomes in (b, record d { outcomes = rest })

unfoldable pub pwrite_direct : ℕ → ℕ → (Device → Device) → Action (Unit {0})
pwrite_direct len offset effect s =
    if ltb s.dev.dev_size (offset + len)
    then err s
    else let (done, d) = next_outcome s.dev in
      if done then ok tt (record s { dev = effect d }) else err (record s { dev = d })

-- The kernel's `fsync` of the two descriptors.
unfoldable pub fsync_device : Action (Unit {0})
fsync_device s =
    let (done, d) = next_outcome s.dev in
    if done then ok tt (record s { dev = d }) else err (record s { dev = d })

-- An `int` counter as its bit pattern.
abbrev pub increment : ℕ → ℕ
increment n = (n + 1) % u32

abbrev pub decrement : ℕ → ℕ
decrement n = (n + u32 - 1) % u32

abbrev pub is_positive : ℕ → Bool
is_positive n = if ltb 0 n then ltb n 2147483648 else false
