-- ===== src/State/Frame.antt =====
-- Actions that leave a part of the state as it is, whether they succeed or fail.
use blockfs.Prelude.{ℕ, ◌≡◌, ◌∙◌, inl, inr, refl, sym, ap, Option, none, some, Bool, true, false}
use blockfs.State.Monad.{
  Fs, Action, ok, ◌>>=◌, attempt, final, fail_if, modify, check, or_fail, or_fail_with, pure,
}
use blockfs.State.Laws.{Outcome-cases}

pub record Keeps {X A : Type 0} (view : Fs → X) (m : Action A) : Type 0 where
  pub keeps : (s : Fs) → view (final (m s)) ≡ view s

module _ {X : Type 0} {view : Fs → X} where
  pub bind-Keeps :
      {A B : Type 0} {m : Action A} {f : A → Action B}
      → Keeps view m
      → ((a : A) → Keeps view (f a))
      → Keeps view (m >>= f)
  bind-Keeps {m} {f} first next = record {
    keeps = λ s. elim (Outcome-cases (m s)) [
      | inl (a, t, e) ↦
          rw (e, ◌>>=◌) ((next a).keeps t ∙ sym (ap (λ o. view (final o)) e) ∙ first.keeps s)
      | inr (t, e) ↦ rw (e, ◌>>=◌) (sym (ap (λ o. view (final o)) e) ∙ first.keeps s)
    ];
  }

  pub attempt-Keeps : {A : Type 0} {m : Action A} → Keeps view m → Keeps view (attempt m)
  attempt-Keeps {m} first = record {
    keeps = λ s. elim (Outcome-cases (m s)) [
      | inl (a, t, e) ↦ rw (e, attempt) (sym (ap (λ o. view (final o)) e) ∙ first.keeps s)
      | inr (t, e) ↦ rw (e, attempt) (sym (ap (λ o. view (final o)) e) ∙ first.keeps s)
    ];
  }

  -- An action that plainly keeps the view.
  pub Keeps-plain :
      {A : Type 0} {m : Action A} → ((s : Fs) → view (final (m s)) ≡ view s) → Keeps view m
  Keeps-plain same = record { keeps = same }

  pub modify-Keeps : (g : Fs → Fs) → ((s : Fs) → view (g s) ≡ view s) → Keeps view (modify g)
  modify-Keeps g same = Keeps-plain same

  pub check-Keeps : (b : Bool) → Keeps view (check b)
  check-Keeps true = Keeps-plain (λ s. refl)
  check-Keeps false = Keeps-plain (λ s. refl)

  pub or_fail-Keeps : {A : Type 0} (o : Option A) → Keeps view (or_fail o)
  or_fail-Keeps none = Keeps-plain (λ s. refl)
  or_fail-Keeps (some a) = Keeps-plain (λ s. refl)

  -- A view that does not look at the error number.
  module _ (errno_free : (s : Fs) (e : ℕ) → view (record s { errno = e }) ≡ view s) where
    pub fail_if-Keeps : (b : Bool) (e : ℕ) → Keeps view (fail_if b e)
    fail_if-Keeps true e = Keeps-plain (λ s. errno_free s e)
    fail_if-Keeps false e = Keeps-plain (λ s. refl)

    pub or_fail_with-Keeps : {A : Type 0} (o : Option A) (e : ℕ) → Keeps view (or_fail_with o e)
    or_fail_with-Keeps none e = Keeps-plain (λ s. errno_free s e)
    or_fail_with-Keeps (some a) e = Keeps-plain (λ s. refl)

  pub pure-Keeps : {A : Type 0} (a : A) → Keeps view (pure a)
  pure-Keeps a = Keeps-plain (λ s. refl)

  -- An attempt always succeeds, and keeps what its action keeps.
  pub attempt_runs :
      {A : Type 0} (m : Action A)
      → Keeps view m
      → (s : Fs) → (o : Option A) × (t : Fs) × (attempt m s ≡ ok o t) × (view t ≡ view s)
  attempt_runs m kept s = elim (Outcome-cases (m s)) [
    | inl (a, t, e) ↦
        (some a, t, rw (e, attempt) refl, sym (ap (λ o. view (final o)) e) ∙ kept.keeps s)
    | inr (t, e) ↦ (none, t, rw (e, attempt) refl, sym (ap (λ o. view (final o)) e) ∙ kept.keeps s)
  ]
