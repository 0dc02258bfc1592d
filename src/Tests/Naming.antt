-- ===== src/Tests/Naming.antt =====
-- Files that are made and removed by path in the demonstration file system.
use blockfs.Prelude.{
  some, ℕ, ◌+◌, ◌≤◌, ◌≡◌, ◌≢◌, refl, List, [], ◌∷◌, true, false, count, arith, nat_eq,
  bytes_eq_inst, key_eq_inst,
}
use blockfs.Prelude.Map.{find, update}
use blockfs.File.Shrink.{ftruncate}
use blockfs.File.Truncate.Entered.{CanEmpty}
use blockfs.File.Truncate.Whole.{ftruncate-empties}
use blockfs.Paths.{
  get_file_name, get_dir_name, ends_with_slash, pop_back, parent_path, strip_slashes,
  before_last_slash,
}
use blockfs.Directory.{page_align_index}
use blockfs.FileHandle.{get_created_file}
use blockfs.FileHandle.Create.{create_file}
use blockfs.FileHandle.Named.{create_file-get_created_file}
use blockfs.FileHandle.Named.Lookup.{IsFilePath}
use blockfs.FileHandle.Exhaust.{
  create, remove, Call, files_made, after_calls, files_made-free_count,
}
use blockfs.FileHandle.Exhaust.Cost.{free_count}
use blockfs.State.{Fs, ok, file_meta}
use blockfs.Tests.Demo.{demo, demo_file_meta}

-- The demonstration file system with a record in slot 4 that is free.
abbrev roomy : Fs
roomy = record demo {
  file_handle = record demo.file_handle {
    metas =
        update demo.file_handle.metas 4 (record demo_file_meta { used = false; fh = 4; size = 0 });
  };
}

abbrev new_path : List ℕ
new_path = b'/' ∷ b'n' ∷ []

new_path-IsFilePath : IsFilePath new_path 0 roomy
unfolding get_file_name get_dir_name ends_with_slash pop_back parent_path strip_slashes
    before_last_slash
new_path-IsFilePath = record {
  no_slash = refl;
  short = omega arith;
  short_dir = omega arith;
  there = refl;
}

create_file-get_created_file_example :
    (t : Fs) × (create_file new_path false roomy ≡ ok 1 t)
    × (get_created_file new_path t ≡ ok 1 t)
    × ((file_meta 1 t).used ≡ true)
    × ((file_meta 1 t).size ≡ 0)
    × (t.dev.file_metas 4 ≡ file_meta 1 t)
    × (t.file_handle.free_fhs ≡ 5 ∷ [])
    × ((key : ℕ × List ℕ)
        → key ≢ (0, b'n' ∷ [])
        → find key t.file_handle.created_files ≡ find key roomy.file_handle.created_files)
unfolding get_file_name page_align_index
create_file-get_created_file_example =
    create_file-get_created_file new_path 0 4 (5 ∷ []) roomy new_path-IsFilePath refl refl refl refl
      refl (omega arith)

can_empty_roomy : CanEmpty 0 1 4 0 (5 ∷ []) roomy
unfolding page_align_index
can_empty_roomy = record {
  items = refl;
  own = refl;
  taken = refl;
  free = refl;
  usable = refl;
  directory = refl;
  parents = refl;
  quiet = refl;
  fits_new = omega arith;
  fits_old = omega arith;
  fits_block = omega arith;
}

-- The demonstration file is cut to nothing: its blocks 5 and 2 and its record 3 are free again.
ftruncate-empties_example :
    (t : Fs) × (ftruncate 0 0 roomy ≡ ok tt t)
    × ((t.files 0).meta ≡ 4)
    × ((t.files 0).item_maps ≡ [])
    × ((file_meta 0 t).size ≡ 0)
    × ((file_meta 0 t).mtime ≡ 0)
    × ((a : ℕ)
        → count a t.block_handle.block_id_pool
          ≡ count a (5 ∷ 2 ∷ []) + count a roomy.block_handle.block_id_pool)
    × (t.file_block_handle.free_fbhs ≡ 2 ∷ 3 ∷ 1 ∷ [])
    × (t.file_handle.free_fhs ≡ 5 ∷ 3 ∷ [])
    × ((t.file_handle.metas 3).used ≡ false)
    × (find (0, b'a' ∷ b'b' ∷ []) t.file_handle.created_files ≡ some 0)
ftruncate-empties_example =
    ftruncate-empties 0 1 4 0 (5 ∷ []) roomy (omega arith) (omega arith) can_empty_roomy
      (λ a. ground arith) (λ a. ground arith)

-- A file that is made, removed and made again takes two of the two slots.
abbrev calls : List Call
calls = create new_path false ∷ remove new_path ∷ create new_path false ∷ []

files_made-free_count_example : files_made calls roomy + free_count (after_calls calls roomy) ≤ 2
files_made-free_count_example = files_made-free_count calls roomy
