-- ===== src/State/Laws.antt =====
-- One step of an action, from the outcome of its first part.
use blockfs.Prelude.{ℕ, ◌+◌, ◌≤◌, ◌≡◌, ◌⊎◌, inl, inr, refl, Option, none, some, [], le→ltb_false}
use mathlib.Core.Path.{ap}
use blockfs.State.Monad.{
  Fs, Action, Outcome, ok, err, ◌>>=◌, ◌>>◌, attempt, or_fail, Device, pwrite_direct, take_outcome,
}

module _ {A B : Type 0} where
  pub bind-ok :
      (m : Action A) (f : A → Action B) {s s' : Fs} {a : A} → m s ≡ ok a s' → (m >>= f) s ≡ f a s'
  bind-ok m f e = rw (e, ◌>>=◌)

  pub bind-err : (m : Action A) (f : A → Action B) {s s' : Fs} → m s ≡ err s' → (m >>= f) s ≡ err s'
  bind-err m f e = rw (e, ◌>>=◌)

  pub then-ok :
      (m : Action A) (k : Action B) {s s' : Fs} {a : A} → m s ≡ ok a s' → (m >> k) s ≡ k s'
  then-ok m k e = rw (e, ◌>>=◌)

  pub then-err : (m : Action A) (k : Action B) {s s' : Fs} → m s ≡ err s' → (m >> k) s ≡ err s'
  then-err m k e = rw (e, ◌>>=◌)

module _ {A : Type 0} where
  pub attempt-ok : (m : Action A) {s s' : Fs} {a : A} → m s ≡ ok a s' → attempt m s ≡ ok (some a) s'
  attempt-ok m e = rw (e, attempt)

  pub attempt-err : (m : Action A) {s s' : Fs} → m s ≡ err s' → attempt m s ≡ ok none s'
  attempt-err m e = rw (e, attempt)

  pub or_fail_lem : (o : Option A) (s : Fs) {a : A} → o ≡ some a → or_fail o s ≡ ok a s
  or_fail_lem o s e = ap (λ r. or_fail r s) e

  pub Outcome-cases :
      (o : Outcome A) → ((a : A) × (s : Fs) × (o ≡ ok a s)) ⊎ ((s : Fs) × (o ≡ err s))
  Outcome-cases (ok a s) = inl (a, s, refl)
  Outcome-cases (err s) = inr (s, refl)

-- A transfer on a device that completes it.
pub pwrite_direct_completes :
    (len offset : ℕ) (effect : Device → Device) (s : Fs)
    → s.dev.outcomes ≡ []
    → offset + len ≤ s.dev.dev_size
    → pwrite_direct len offset effect s
      ≡ ok tt (record s { dev = effect (record s.dev { outcomes = [] }) })
unfolding pwrite_direct take_outcome
pwrite_direct_completes len offset effect s quiet fits =
    rw (quiet, le→ltb_false s.dev.dev_size (offset + len) fits)
