-- ===== src/Fuse.antt =====
-- lib/bfs_fuse.cc: the callbacks that libfuse calls for files. Each answers with a number that is
-- negative, an error number with its sign changed, where the file system interface fails.
pub mod Directories
pub mod Errors
pub mod Flush
use blockfs.Prelude.{
  ℕ, ◌-◌, ◌%◌, List, [], Option, none, some, true, false, ltb, ◌==◌, if◌then◌else◌, length, u32,
  bytes_eq,
}
use blockfs.Prelude.Int.{ℤ, pos, negsuc}
use blockfs.Paths.{root_path}
use blockfs.File.{Stat, minus_one_64}
use blockfs.FileHandle.Create.{create_file, unlink}
use blockfs.FileHandle.Open.{open_file, close_file, dup, fsync}
use blockfs.DirHandle.Create.{create_directory, delete_directory}
use blockfs.FileSystem.{
  stat_path, stat_fd, rename_path, truncate_path, truncate_fd, pread_file, pwrite_file, seek_file,
  fcntl_file, f_wrlck, StatVfs, stat_vfs,
}
use blockfs.State.{Fs, Action, Outcome, ok, err, ◌>>=◌, ◌>>◌, einval}

-- What a callback gives back to libfuse, and the state behind it.
abbrev Callback : Type 0 → Type 0
Callback A = Fs → A × Fs

-- `-errno`.
abbrev pub neg : ℕ → ℤ
neg ℕ.zero = pos 0
neg (ℕ.suc n) = negsuc n

-- `if (res < 0) return -errno; return 0;`
abbrev pub answer : {A : Type 0} → Action A → Callback ℤ
answer m s = elim (m s) [ ok a s' ↦ (pos 0, s') | err s' ↦ (neg s'.errno, s') ]

-- A 64-bit result in a variable of type `int`.
abbrev to_int : ℕ → ℤ
to_int n = if ltb (n % u32) 2147483648 then pos (n % u32) else negsuc (u32 - 1 - n % u32)

-- `res = ...; if (res < 0) res = -errno;`
abbrev count_answer : ℕ → Fs → ℤ
count_answer n s = elim (to_int n) [ pos k ↦ pos k | negsuc k ↦ neg s.errno ]

-- `ino_t fd = open(...)`: the -1 of a failure is kept as its 64-bit pattern.
abbrev pub open_unsigned : List ℕ → ℕ → Callback ℕ
open_unsigned path flags s = elim (open_file path flags s) [
  | ok fd s' ↦ (fd, s')
  | err s' ↦ (minus_one_64, s')
]

-- `dup(fd)`, likewise.
abbrev pub duplicate : ℕ → Callback ℕ
duplicate fd s = elim (dup fd s) [ ok copy s' ↦ (copy, s') | err s' ↦ (minus_one_64, s') ]

-- The descriptor of a call: that of `fi`, or one that is opened for it.
abbrev descriptor : List ℕ → ℕ → Option ℕ → Callback ℕ
descriptor path flags none s = open_unsigned path flags s
descriptor path flags (some fh) s = (fh, s)

-- `if (!fi) close(fd)`: what the close gives is not looked at.
abbrev close_if_opened : Option ℕ → ℕ → Fs → Fs
close_if_opened (some fh) fd s = s
close_if_opened none fd s = elim (close_file fd s) [ ok a s' ↦ s' | err s' ↦ s' ]

-- `mfs_getattr`: the root has attributes of its own.
abbrev root_stat : Fs → Stat
root_stat s = record {
  st_ino = 0;
  st_nlink = 2;
  st_is_dir = true;
  st_blksize = (stat_vfs s).f_bsize;
  st_blocks = 1;
  st_atime = s.now;
  st_mtime = s.now;
  st_ctime = s.now;
  st_size = 1024;
}

unfoldable pub getattr : List ℕ → Option ℕ → Callback (ℤ × Option Stat)
getattr path fi s =
    let found : Outcome Stat = elim fi [ some fh ↦ stat_fd fh s | none ↦ stat_path path s ] in
    if bytes_eq path root_path
    then ((pos 0, some (root_stat s)), s)
    else (elim found [ ok st s' ↦ ((pos 0, some st), s') | err s' ↦ ((neg s'.errno, none), s') ])

-- `bfs_mknod`, `mfs_mkdir`, `unlink`, `bfs_rmdir`.
unfoldable mknod : List ℕ → Callback ℤ
mknod path = answer (create_file path false)

unfoldable mkdir : List ℕ → Callback ℤ
mkdir path = answer (create_directory path)

unfoldable unlink_callback : List ℕ → Callback ℤ
unlink_callback path = answer (unlink path)

unfoldable rmdir : List ℕ → Callback ℤ
rmdir path = answer (delete_directory path)

-- `mfs_rename`: no flag is known.
unfoldable pub rename_callback : List ℕ → List ℕ → ℕ → Callback ℤ
rename_callback from to flags s =
    if flags == 0 then answer (rename_path from to) s else (neg einval, s)

-- `mfs_truncate`.
unfoldable truncate : List ℕ → ℤ → Option ℕ → Callback ℤ
truncate path (negsuc n) fi s = (neg einval, s)
truncate path (pos size) fi s = elim fi [
  | some fh ↦ answer (truncate_fd fh size) s
  | none ↦ answer (truncate_path path size) s
]

-- `mfs_open` and `mfs_create`: the answer and the handle that `fi` keeps.
unfoldable pub open_callback : List ℕ → ℕ → Callback (ℤ × ℕ)
open_callback path flags s = let (fd, s') = open_unsigned path flags s in ((pos 0, fd), s')

unfoldable create_callback : List ℕ → ℕ → Callback (ℤ × ℕ)
create_callback path flags s = let (fd, s') = open_unsigned path flags s in ((pos 0, fd), s')

-- `mfs_read`: the answer, and the bytes in the caller's buffer.
unfoldable pub read_callback : List ℕ → ℕ → ℕ → Option ℕ → Callback (ℤ × List ℕ)
read_callback path size offset fi s =
    let (fd, s1) = descriptor path 0 fi s in
    elim (pread_file fd size offset s1) [
      | ok bytes s2 ↦ ((count_answer (length bytes) s2, bytes), close_if_opened fi fd s2)
      | err s2 ↦ ((neg s2.errno, []), close_if_opened fi fd s2)
    ]

-- `write`: a file without a handle is opened for reading.
unfoldable write_callback : List ℕ → (ℕ → ℕ) → ℕ → ℕ → Option ℕ → Callback ℤ
write_callback path buffer size offset fi s =
    let (fd, s1) = descriptor path 0 fi s in
    elim (pwrite_file fd buffer size offset s1) [
      | ok n s2 ↦ (count_answer n s2, close_if_opened fi fd s2)
      | err s2 ↦ (neg s2.errno, close_if_opened fi fd s2)
    ]

-- `mfs_statfs`.
unfoldable statfs : Callback (ℤ × StatVfs)
statfs s = ((pos 0, stat_vfs s), s)

-- `flush`: a duplicate is closed at once. Where that fails a descriptor of its own stays open.
unfoldable pub flush : List ℕ → Option ℕ → Callback ℤ
flush path fi s =
    let (fd, s1) = descriptor path 0 fi s in
    let (copy, s2) = duplicate fd s1 in
    elim (close_file copy s2) [
      | ok a s3 ↦ (pos 0, close_if_opened fi fd s3)
      | err s3 ↦ (neg s3.errno, s3)
    ]

-- `bfs_release`.
unfoldable release_callback : Option ℕ → Callback ℤ
release_callback none s = (pos 0, s)
release_callback (some fh) s = answer (close_file fh) s

-- `mfs_fsync`.
unfoldable fsync_callback : List ℕ → Option ℕ → Callback ℤ
fsync_callback path fi s =
    let (fd, s1) = descriptor path 0 fi s in
    elim (fsync fd s1) [ ok a s2 ↦ (pos 0, close_if_opened fi fd s2) | err s2 ↦ (neg s2.errno, s2) ]

-- `bfs_lock` and `bfs_flock`: the command and the operation are not looked at.
unfoldable lock_callback : ℕ → ℕ → Callback ℤ
lock_callback cmd fh = answer (fcntl_file fh f_wrlck)

unfoldable pub flock : List ℕ → ℕ → Option ℕ → Callback ℤ
flock path op fi s =
    let (fd, s1) = descriptor path 1 fi s in
    elim (fcntl_file fd f_wrlck s1) [
      | ok a s2 ↦ (pos 0, close_if_opened fi fd s2)
      | err s2 ↦ (neg s2.errno, s2)
    ]

-- `bfs_copy_file_range` between open files. The descriptors of the file system, kept in variables of
-- type `int`, are tested, and then go to the kernel's call of that name, which is a parameter.
unfoldable copy_file_range : (ℕ → ℕ → ℕ → Option ℕ) → ℕ → ℕ → ℕ → Callback ℤ
copy_file_range kernel fh_in fh_out size s =
    if fh_in % u32 == u32 - 1
    then (neg s.errno, s)
    else (if fh_out % u32 == u32 - 1
        then elim (close_file fh_in s) [
          | ok a s' ↦ (neg s'.errno, s')
          | err s' ↦ (neg s'.errno, s')
        ]
        else elim (kernel fh_in fh_out size) [ some n ↦ (pos n, s) | none ↦ (neg s.errno, s) ])

-- `bfs_lseek`.
unfoldable lseek_callback : List ℕ → ℤ → ℕ → Option ℕ → Callback ℤ
lseek_callback path off whence fi s =
    let (fd, s1) = descriptor path 0 fi s in
    elim (seek_file fd off whence s1) [
      | ok n s2 ↦ elim n [
        | pos k ↦ (pos k, close_if_opened fi fd s2)
        | negsuc k ↦ (neg s2.errno, s2)
      ]
      | err s2 ↦ (neg s2.errno, s2)
    ]
