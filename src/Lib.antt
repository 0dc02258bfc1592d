-- ===== src/Lib.antt =====
-- BlockFS: a file system in user space on a raw block device (lib/ of the repository).
--
-- The program. A device is formatted into a super block, a region of directory records, one of file
-- records, one of file block records, and data blocks of 4 MiB. At run time all records are in memory;
-- the handles of lib/ keep free lists and maps over them, and each change of a record is written to
-- its place on the device. `FileSystem` (lib/file_system.cc) is the interface: it finds the file or
-- the directory through `FileHandle` and `DirHandle`, and `OpenFile` (lib/file.cc) cuts reads and
-- writes into pieces that stay within a data block. Descriptors come from `FdHandle`, data blocks
-- from `BlockHandle`.
--
-- The files of this library.
--   Logging     lib/logging.cc: levels, the line buffer, what a line shows; Logging/Digits has the
--               digits of numbers.
--   Config      lib/config_load.cc: the settings of a configuration file.
--   Prelude     Boolean tests, lists over the native numbers, keys, association lists, integers.
--   Meta        lib/meta_defines.h: constants and metadata records.
--   Paths       lib/comm_utils.h: ALIGN_UP, ROUND_UP, GetFileName, GetDirName.
--   FdHandle    lib/fd_handle.h: the descriptor pool.
--   BlockHandle lib/block_handle.h and .cc: the pool of block ids.
--   State       the state that the objects share and the actions on it; errno numbers.
--   Device      lib/device.cc: reads and writes; Device/Loop has the retry loop `wrapFull`, and
--               Device/Open opens and closes a device and searches for that of a file system.
--   FileBlock   lib/file_block.h, .cc and lib/file_block_handle.*: block lists and their slots.
--   Directory   lib/directory.h and .cc: children, listing, metadata writes.
--   File        lib/file.h and .cc: metadata writes, file blocks; File/Extend has ExtendFile,
--               File/Shrink has ShrinkFile, CopyData and ParentFile::Recycle, File/Truncate the cut
--               to nothing, File/Rename has rename.
--   DirHandle   lib/dir_handle.cc: lookup and allocation; Create has create, delete and rename,
--               Stream has open, read and close of a directory, Mount formats and loads the records.
--   FileHandle  lib/file_handle.cc: lookup and allocation; Create has create and unlink, Open has open,
--               dup, close and fsync, Mount formats and loads the records; File/Mount does so for
--               the file block records of lib/file_block_handle.cc.
--   OpenFile    OpenFile of lib/file.cc: seek, read, pread, pwrite and the cut into pieces.
--   FileSystem  lib/file_system.cc: the interface above; Mount loads the regions of all handles, Format
--               formats and loads a device, Start goes from the configuration to the mount point, Zeroes
--               clears the data region, ByteFile is the abstract file that a descriptor shows.
--   SuperBlock  lib/super_block.cc: the layout that formatting computes (its check at a mount is in
--               FileSystem/Mount).
--   Shm         lib/shm_manager.cc: the metadata of the device, read into memory.
--   Fuse        lib/bfs_fuse.cc: the callbacks; Directories has those for directories and the streams
--               that stay open between them.
--   Tool        tool/block_fs_tool.cc: the options; Tool/Run has the calls and the exit status, Tool/Export
--               the export of a range of the device, also that of tool/block_fs_extract_device.cc, whose
--               options are in Tool/Extract; Tool/Mount has those of tool/block_fs_mount.cc.
--   Tests       a small file system and the theorems at it.
--
-- State and operations. `Fs` is the state of the process and the device. A pointer to a File or
-- Directory object is its address in a heap of the state; a pointer to a metadata record is the number
-- of its slot; a FileBlock object is its slot number. A function of the source that can fail is an
-- action `Fs → Outcome A`: `ok` is success and `err` a result false, -1 or nullptr, each with the
-- state that it leaves, so what was written before a failure stays written. Names are those of the
-- source in snake_case. Unsigned fields are natural numbers, and arithmetic that wraps is written with
-- its modulus; `nlink` is the bit pattern of an int. A hash map is an association list and an unordered
-- set a list in its iteration order.
--
-- The device. Metadata regions are held as records and data as bytes. Each transfer takes its outcome
-- from the list `outcomes`, past whose end all transfers complete: a transfer moves all of its bytes or
-- none. Within the bounds that the code tests first, `wrapFull` returns a short count only where the
-- kernel reports the end of the device. zlib's `crc32` is a parameter of the state (`Checksums`), one
-- function for each kind of record, and an argument where the super block is checked. Where records are
-- formatted and loaded, a hypothesis says that it does not read the checksum field of a record.
--
-- Bounds and fuel. `pieces` runs on the number of whole blocks of a transfer and two more, since the
-- first and the last piece may be partial; `copy_chunks` likewise on the number of 4 MiB chunks, and
-- `decimal` on the number itself; `format_fs_data` runs on the number of whole 4 MiB buffers and one
-- more. The list of kernel answers bounds `wrap_full`, and a run that has
-- used them up counts as still going on.
--
-- The programs around it. Of the log, floating point values are left out, and `none` stands for a read or
-- a write outside of an array. What `getopt_long` reports, the parser of the configuration file, the time,
-- and the kernel's answers to open, stat and ioctl are parameters. `export_loop` runs on the number of
-- whole 16 KiB chunks and two more, `digit_loop` on the number itself and one more, and `split_loop` on
-- the length of the text and one more.
--
-- Not modelled: locks and threads (each operation runs alone), mapping shared memory, dumps, starting the
-- FUSE loop, the daemon that the mount tool does not start, and the third-party copies config_parser and
-- token_bucket.
pub mod Prelude
pub mod Logging
pub mod Config
pub mod Meta
pub mod Paths
pub mod FdHandle
pub mod BlockHandle
pub mod State
pub mod Device
pub mod FileBlock
pub mod Directory
pub mod File
pub mod DirHandle
pub mod FileHandle
pub mod OpenFile
pub mod FileSystem
pub mod SuperBlock
pub mod Shm
pub mod Fuse
pub mod Tool
pub mod Tests
