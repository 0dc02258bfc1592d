-- ===== src/Tests/Mounting.antt =====
-- Loading a slot of the demonstration device, with checksums that tell slots apart.
use blockfs.Prelude.{false, true, ◌+◌, ◌≡◌, refl, [], arith}
use blockfs.File.Mount.{load_file_block_slot}
use blockfs.File.Leftover.{load_file_block_slot-loses_temporary}
use blockfs.State.{on_file_block_meta, file_block_meta, Fs, ok}
use blockfs.Tests.Demo.{demo, demo_super_meta}

-- Three directories, files and file blocks at most, and nothing loaded.
abbrev pub blank : Fs
blank = record demo {
  super_meta = record demo_super_meta {
    max_file_num = 3;
    max_file_block_num = 3;
    dir_meta_total_size = 4096;
    file_meta_total_size = 4096;
    file_block_meta_offset = 12288;
    file_block_meta_total_size = 12288;
  };
  crc32 = record {
    of_dir = λ m. m.dh + 1;
    of_file = λ m. m.fh + 2;
    of_file_block = λ m. m.index + 3;
  };
  dir_handle = record demo.dir_handle { free_dhs = []; created_dirs = []; created_dhs = [] };
  file_handle = record demo.file_handle {
    free_fhs = [];
    created_files = [];
    created_fhs = [];
    open_files = [];
  };
  file_block_handle = record demo.file_block_handle { free_fbhs = [] };
}

-- Slot 2 holds a block of a temporary file.
abbrev with_temporary : Fs
with_temporary =
    on_file_block_meta 2
      (λ m. record m { crc = 5; index = 2; used = true; is_temp = true; used_block_num = 1 }) blank

load_file_block_slot-loses_temporary_example :
    (t : Fs) × (load_file_block_slot 2 with_temporary ≡ ok tt t)
    × ((file_block_meta 2 t).used ≡ false)
    × (t.dev.file_block_metas 2 ≡ file_block_meta 2 t)
    × (t.file_block_handle.free_fbhs ≡ [])
    × (t.block_handle ≡ demo.block_handle)
    × (t.file_handle ≡ with_temporary.file_handle)
    × (t.files ≡ demo.files)
load_file_block_slot-loses_temporary_example =
    load_file_block_slot-loses_temporary 2 with_temporary refl (omega arith) refl refl refl
