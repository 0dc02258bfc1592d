-- ===== src/FileHandle/Exhaust/Cost.antt =====
-- What an action takes out of the free list of file slots (lib/file_handle.cc).
use blockfs.Prelude.{
  ℕ, ◌+◌, ◌≤◌, ◌≡◌, inl, inr, ap, ◌∙◌, sym, subst, length, arith, nat_eq, key_eq_inst,
}
use blockfs.FileHandle.Leak.{free_fhs_of}
use blockfs.State.{Fs, Outcome, ok, err, Action, ◌>>=◌, final, Outcome-cases, Keeps}

abbrev pub free_count : Fs → ℕ
free_count s = length s.file_handle.free_fhs

-- An outcome that has taken at least `k` slots of `n` where it is a success, and none has come back.
abbrev pub Costs : {A : Type 0} → ℕ → ℕ → Outcome A → Type 0
Costs k n (ok a t) = free_count t + k ≤ n
Costs k n (err t) = free_count t ≤ n

pub record Takes {A : Type 0} (k : ℕ) (m : Action A) : Type 0 where
  pub takes : (s : Fs) → Costs k (free_count s) (m s)

pub Keeps-Takes : {A : Type 0} {m : Action A} → Keeps free_fhs_of m → Takes 0 m
Keeps-Takes {m} kept = record {
  takes = λ s. elim (Outcome-cases (m s)) [
    | inl (a, t, e) ↦
        let same : free_count t ≡ free_count s =
          sym (ap (λ o. free_count (final o)) e) ∙ ap length (kept.keeps s) in
        subst (Costs 0 (free_count s)) (sym e) (omega arith)
    | inr (t, e) ↦
        let same : free_count t ≡ free_count s =
          sym (ap (λ o. free_count (final o)) e) ∙ ap length (kept.keeps s) in
        subst (Costs 0 (free_count s)) (sym e) (omega arith)
  ];
}

Costs-less :
    {A : Type 0} (j k n n' : ℕ) (o : Outcome A) → Costs k n' o → n' + j ≤ n → Costs (j + k) n o
Costs-less j k n n' (ok a t) cost less = omega arith
Costs-less j k n n' (err t) cost less = omega arith

pub bind-Takes :
    {A B : Type 0} {m : Action A} {f : A → Action B} (j k : ℕ)
    → Takes j m
    → ((a : A) → Takes k (f a))
    → Takes (j + k) (m >>= f)
bind-Takes {m} {f} j k first next = record {
  takes = λ s. elim (Outcome-cases (m s)) [
    | inl (a, t, e) ↦
        let here = subst (Costs j (free_count s)) e (first.takes s) in
        rw (e, ◌>>=◌) (Costs-less j k (free_count s) (free_count t) (f a t) ((next a).takes t) here)
    | inr (t, e) ↦ let here = subst (Costs j (free_count s)) e (first.takes s) in rw (e, ◌>>=◌) here
  ];
}
