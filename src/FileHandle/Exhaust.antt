-- ===== src/FileHandle/Exhaust.antt =====
-- How many files can be made before the next mount (lib/file_handle.cc).
pub mod Cost
use blockfs.Prelude.{
  ℕ, ◌+◌, ◌≤◌, ◌≡◌, ◌++◌, ◌⊎◌, inl, inr, refl, ap, sym, subst, List, [], ◌∷◌, Bool, true, false,
  length, List-cases, Bool-cases, ◌++◌, if◌then◌else◌, arith, nat_eq, key_eq_inst,
}
use blockfs.Prelude.Map.{contains}
use blockfs.DirHandle.{get_created_directory}
use blockfs.File.{write_file_meta}
use blockfs.FileHandle.{
  transform_path, tmpfile_prefix, decimal, claim_slot, front_free_fh, is_free_slot, new_free_file,
  new_free_tmp_file, new_file, add_file_to_directory,
}
use blockfs.FileHandle.Entries.{add_file_to_directory-Keeps}
use blockfs.FileHandle.Create.{create_file, unlink}
use blockfs.FileHandle.Leak.{
  free_fhs_of, free_fhs_of-SkipsEntries, write_file_slot-Keeps, get_created_directory-Keeps,
  transform_path-Keeps, unlink-free_fhs,
}
use blockfs.State.{
  Fs, Outcome, ok, err, ◌>>=◌, ◌>>◌, attempt, gets, modify, pure, final, fail_if, or_fail_with,
  set_errno, dir_meta, on_file_meta, enoent, eexist, enfile, einval, Keeps, bind-Keeps,
  attempt-Keeps, Keeps-plain, fail_if-Keeps, or_fail_with-Keeps, pure-Keeps,
}
use blockfs.FileHandle.Exhaust.Cost.{free_count, Costs, Takes, Keeps-Takes, bind-Takes}

front_free_fh-cases :
    (s : Fs)
    → ((fh : ℕ) × (rest : List ℕ) × (s.file_handle.free_fhs ≡ fh ∷ rest)
        × (front_free_fh s ≡ ok fh s))
      ⊎ ((t : Fs) × (front_free_fh s ≡ err t) × (free_count t ≡ free_count s))
unfolding front_free_fh
front_free_fh-cases s = elim (List-cases s.file_handle.free_fhs) [
  | inl none_left ↦ inr (record s { errno = enfile }, rw none_left refl, refl)
  | inr (fh, rest, free) ↦ elim (Bool-cases (is_free_slot fh (s.file_handle.metas fh))) [
    | inl usable ↦ inl (fh, rest, free, rw (free, usable) refl)
    | inr taken ↦ inr (record s { errno = einval }, rw (free, taken) refl, refl)
  ]
]

front_free_fh-Takes : Takes 0 front_free_fh
front_free_fh-Takes = record {
  takes = λ s. elim (front_free_fh-cases s) [
    | inl (fh, rest, free, run) ↦ subst (Costs 0 (free_count s)) (sym run) (omega arith)
    | inr (t, run, same) ↦ subst (Costs 0 (free_count s)) (sym run) (omega arith)
  ];
}

claim_slot-Takes :
    (dh : ℕ) (filename : List ℕ) (is_temp : Bool) → Takes 1 (claim_slot dh filename is_temp)
claim_slot-Takes dh filename is_temp = record {
  takes = λ s. elim (front_free_fh-cases s) [
    | inl (fh, rest, free, run) ↦
        let popped = ap (λ is. length (elim is [ [] ↦ [] | i ∷ is' ↦ is' ])) free in
        let all = ap length free in rw (run, ◌>>=◌) (omega (arith, popped, all))
    | inr (t, run, same) ↦ rw (run, ◌>>=◌) (omega (arith, same))
  ];
}

new_slot-Takes :
    (dh : ℕ) (filename : List ℕ) (tmpfile : Bool)
    → Takes 1 (if tmpfile then new_free_tmp_file dh else new_free_file dh filename)
unfolding new_free_tmp_file new_free_file
new_slot-Takes dh filename true =
    bind-Takes {m = front_free_fh} 0 1 front_free_fh-Takes
      (λ fh. claim_slot-Takes dh (tmpfile_prefix ++ decimal fh) true)
new_slot-Takes dh filename false = claim_slot-Takes dh filename false

new_file-Takes :
    (dirname filename : List ℕ) (tmpfile : Bool) → Takes 1 (new_file dirname filename tmpfile)
unfolding new_file
new_file-Takes dirname filename tmpfile =
    bind-Takes {m = attempt (get_created_directory dirname)} 0 1
      (Keeps-Takes (attempt-Keeps (get_created_directory-Keeps dirname)))
      (λ found.
        bind-Takes {m = or_fail_with found enoent} 0 1
          (Keeps-Takes (or_fail_with-Keeps (λ s e. refl) found enoent))
          (λ dir.
            bind-Takes {m = gets (λ s. (dir_meta dir s).dh)} 0 1
              (Keeps-Takes (Keeps-plain (λ s. refl)))
              (λ dh.
                bind-Takes {m = gets (λ s. s.file_handle.created_files)} 0 1
                  (Keeps-Takes (Keeps-plain (λ s. refl)))
                  (λ created.
                    let taken = if tmpfile then false else contains (dh, filename) created in
                    bind-Takes {m = fail_if taken eexist} 0 1
                      (Keeps-Takes (fail_if-Keeps (λ s e. refl) taken eexist))
                      (λ _.
                        bind-Takes
                          {m = if tmpfile then new_free_tmp_file dh else new_free_file dh filename}
                          1 0 (new_slot-Takes dh filename tmpfile)
                          (λ file. Keeps-Takes (
                            bind-Keeps
                              {m = modify λ s.
                                on_file_meta file
                                  (λ m. record m { atime = s.now; mtime = s.now; ctime = s.now }) s}
                              (Keeps-plain (λ s. refl)) (λ _. pure-Keeps (dir, file)))))))))

write_file_meta-Keeps : (file : ℕ) → Keeps free_fhs_of (write_file_meta file)
unfolding write_file_meta
write_file_meta-Keeps file = Keeps-plain (λ s. (write_file_slot-Keeps _).keeps s)

path-Keeps :
    (filename : List ℕ) (tmpfile : Bool)
    → Keeps free_fhs_of (if tmpfile then pure (filename, []) else transform_path filename)
path-Keeps filename true = pure-Keeps (filename, [])
path-Keeps filename false = transform_path-Keeps filename

create_file-Takes : (filename : List ℕ) (tmpfile : Bool) → Takes 1 (create_file filename tmpfile)
unfolding create_file
create_file-Takes filename tmpfile =
    bind-Takes {m = if tmpfile then pure (filename, []) else transform_path filename} 0 1
      (Keeps-Takes (path-Keeps filename tmpfile))
      (λ names.
        bind-Takes {m = new_file names.0 names.1 tmpfile} 1 0
          (new_file-Takes names.0 names.1 tmpfile)
          (λ made. Keeps-Takes (
            bind-Keeps {m = write_file_meta made.1} (write_file_meta-Keeps made.1) (λ _.
              bind-Keeps {m = add_file_to_directory made.0 made.1}
                (add_file_to_directory-Keeps free_fhs_of-SkipsEntries made.0 made.1)
                (λ _.
                  bind-Keeps {m = set_errno 0} (Keeps-plain (λ s. refl))
                    (λ _. pure-Keeps made.1))))))

-- A call of the handle: a file is made, a temporary one or not, or a path is removed.
pub data Call : Type 0 where
  create : List ℕ → Bool → Call
  remove : List ℕ → Call

-- The state after the calls, each with whatever it came to.
abbrev pub after_calls : List Call → Fs → Fs
after_calls [] s = s
after_calls (create filename tmpfile ∷ calls) s =
    after_calls calls (final (create_file filename tmpfile s))
after_calls (remove filename ∷ calls) s = after_calls calls (final (unlink filename s))

abbrev successes : {A : Type 0} → Outcome A → ℕ
successes (ok a t) = 1
successes (err t) = 0

-- How many of the calls made a file.
abbrev pub files_made : List Call → Fs → ℕ
files_made [] s = 0
files_made (create filename tmpfile ∷ calls) s =
    let o = create_file filename tmpfile s in successes o + files_made calls (final o)
files_made (remove filename ∷ calls) s = files_made calls (final (unlink filename s))

Costs-successes :
    {A : Type 0} (n : ℕ) (o : Outcome A) → Costs 1 n o → successes o + free_count (final o) ≤ n
Costs-successes n (ok a t) cost = omega arith
Costs-successes n (err t) cost = omega arith

-- However files are made and removed, with whatever success: the files that were made and the slots
-- that are left are together no more than the slots that were free at the start.
pub files_made-free_count :
    (calls : List Call) (s : Fs)
    → files_made calls s + free_count (after_calls calls s) ≤ free_count s
files_made-free_count [] s = omega arith
files_made-free_count (create filename tmpfile ∷ calls) s =
    let o = create_file filename tmpfile s in
    let rest = files_made-free_count calls (final o) in
    let cost = Costs-successes (free_count s) o ((create_file-Takes filename tmpfile).takes s) in
    omega arith
files_made-free_count (remove filename ∷ calls) s =
    let rest = files_made-free_count calls (final (unlink filename s)) in
    let same = ap length (unlink-free_fhs filename s) in omega arith
