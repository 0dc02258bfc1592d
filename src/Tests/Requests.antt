-- ===== src/Tests/Requests.antt =====
-- A run of requests at the demonstration file, across the border of its two blocks.
use blockfs.Prelude.{◌-◌, ◌*◌, ◌≡◌, refl, List, [], ◌∷◌, arith}
use blockfs.Meta.{k_mega}
use blockfs.FileSystem.ByteFile.{
  ByteFile, Request, pread_at, read_on, pwrite_at, seek_to, replay, behind, serve_all, Shows,
}
use blockfs.FileSystem.ByteFile.Refines.{serve_all_refines}
use blockfs.State.{Fs, ok}
use blockfs.Tests.Data.{counting, demo-OnDevice, demo-HasDistinctBlocks}
use blockfs.Tests.Demo.{demo}

abbrev requests : List Request
requests =
    pwrite_at counting 100 4194300
    ∷ seek_to 4194350
    ∷ read_on 20
    ∷ pread_at 50 (6 * k_mega - 7)
    ∷ []

abbrev zeros : ByteFile
zeros = record { size = 6 * k_mega; bytes = λ _. 0; position = 0 }

demo-Shows : Shows 7 0 1 2 demo zeros
demo-Shows = record {
  found = refl;
  opened = refl;
  unit = refl;
  quiet = refl;
  few = omega arith;
  inside = demo-OnDevice;
  distinct = demo-HasDistinctBlocks;
  sized = refl;
  word = omega arith;
  room = omega arith;
  same = λ x h. refl;
}

serve_all_refines_example :
    (t : Fs) × (serve_all 7 requests demo ≡ ok (replay requests zeros) t)
    × Shows 7 0 1 2 t (behind requests zeros)
serve_all_refines_example =
    serve_all_refines 7 0 1 2 requests demo zeros demo-Shows
      (omega arith, (omega arith, (omega arith, (omega arith, tt))))
