-- ===== src/FileHandle/Named/Noted.antt =====
-- What `Directory::AddChildFile` (lib/directory.cc) leaves alone.
use blockfs.Prelude.{
  ℕ, ◌≡◌, inl, inr, refl, ap, ◌∙◌, sym, none, some, ◌==◌, Option, arith, Bool-cases, nat_eq,
  bytes_eq_inst, key_eq_inst,
}
use blockfs.Prelude.Map.{contains, insert, update}
use blockfs.Meta.{FileMeta}
use blockfs.Directory.{add_child_file}
use blockfs.State.{Fs, ok, attempt, ◌>>=◌, file_meta, on_directory}

-- A field of a record that may have been written with that field kept.
pub field_same :
    {A : Type 0} (get : FileMeta → A) (metas : ℕ → FileMeta) (i j : ℕ) (g : FileMeta → FileMeta)
    → ((v : FileMeta) → get (g v) ≡ get v)
    → get (update metas j (g (metas j)) i) ≡ get (metas i)
field_same get metas i j g keeps = elim (Bool-cases (i == j)) [
  | inl e ↦
      let same : i ≡ j = ground arith in rw e (keeps (metas j) ∙ ap (λ k. get (metas k)) (sym same))
  | inr ne ↦ rw ne refl
]

-- What the directory of a file takes note of is not seen by a lookup.
pub record NotesFile (s t : Fs) : Type 0 where
  pub file_handle : t.file_handle ≡ s.file_handle
  pub files : t.files ≡ s.files
  pub dir_handle : t.dir_handle ≡ s.dir_handle
  pub metas : (d : ℕ) → (t.directories d).meta ≡ (s.directories d).meta
  pub dev : t.dev ≡ s.dev

pub add_child_file-NotesFile :
    (d file : ℕ) (s : Fs)
    → (o : Option (Unit {0})) × (t : Fs) × (attempt (add_child_file d file) s ≡ ok o t)
      × NotesFile s t
unfolding add_child_file
add_child_file-NotesFile d file s =
    let fh = (file_meta file s).fh in
    elim (Bool-cases (contains fh (s.directories d).item_maps)) [
      | inl there ↦ (
        none,
        s,
        rw (there, attempt, ◌>>=◌) refl,
        record {
          file_handle = refl;
          files = refl;
          dir_handle = refl;
          metas = λ e. refl;
          dev = refl;
        },
      )
      | inr absent ↦ (
        some tt,
        on_directory d (λ o. record o { item_maps = insert fh file o.item_maps }) s,
        rw (absent, attempt, ◌>>=◌) refl,
        record {
          file_handle = refl;
          files = refl;
          dir_handle = refl;
          metas = λ e. elim (Bool-cases (e == d)) [
            | inl same ↦
                let at_d : e ≡ d = ground arith in
                rw same (ap (λ k. (s.directories k).meta) (sym at_d))
            | inr other ↦ rw other refl
          ];
          dev = refl;
        },
      )
    ]
