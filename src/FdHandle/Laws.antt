-- ===== src/FdHandle/Laws.antt =====
-- The descriptor pool of lib/fd_handle.h: no descriptor is given out twice.
use blockfs.Prelude.{
  ℕ, zero, suc, ◌+◌, ◌≤◌, ◌<◌, ◌≡◌, ◌⊎◌, inl, inr, refl, sym, ap, le→ltb_false, ◌∙◌, List, [], ◌∷◌,
  ◌++◌, some, ltb, if◌then◌else◌, arith, count, count-append, lt_or_ge,
}
use blockfs.FdHandle.{FdHandle, range_from, new_fd_handle, get_fd, put_fd}

count-range_from_out : (a lo n : ℕ) → ((a < lo) ⊎ (lo + n ≤ a)) → count a (range_from lo n) ≡ 0
unfolding range_from
count-range_from_out a lo zero h = refl
count-range_from_out a lo (suc n) h =
    ground (arith, count-range_from_out a (suc lo) n (omega arith))

count-range_from_in : (a lo n : ℕ) → lo ≤ a → a < lo + n → count a (range_from lo n) ≡ 1
unfolding range_from
count-range_from_in a lo zero l h = absurd (omega arith)
count-range_from_in a lo (suc n) l h = elim (lt_or_ge lo a) [
  | inl later ↦ ground (arith, count-range_from_in a (suc lo) n (omega arith) (omega arith))
  | inr here ↦ ground (arith, count-range_from_out a (suc lo) n (omega arith))
]

-- The pool and the descriptors in use: what opens and closes make of a new pool. A close gives back
-- a descriptor that is in use.
pub data Reachable (max_fd_num : ℕ) : FdHandle → List ℕ → Type 0 where
  started : Reachable max_fd_num (new_fd_handle max_fd_num) []
  opened :
      (h h' : FdHandle) (held : List ℕ) (fd : ℕ)
      → Reachable max_fd_num h held
      → get_fd h ≡ (some fd, h')
      → Reachable max_fd_num h' (fd ∷ held)
  closed :
      (h : FdHandle) (before after : List ℕ) (fd : ℕ)
      → Reachable max_fd_num h (before ++ fd ∷ after)
      → Reachable max_fd_num (put_fd h fd) (before ++ after)

get_fd-moves :
    (m : ℕ) (pool held : List ℕ) (h' : FdHandle) (fd a : ℕ)
    → get_fd (record { max_fd_num = m; free_fd_pool = pool }) ≡ (some fd, h')
    → (h'.max_fd_num ≡ m)
      × (count a (fd ∷ held) + count a h'.free_fd_pool ≡ count a held + count a pool)
unfolding get_fd
get_fd-moves m [] held h' fd a e = cc
get_fd-moves m (x ∷ pool) held h' fd a e =
    let same : x ≡ fd = cc in
    let rest : record { max_fd_num = m; free_fd_pool = pool } ≡ h' = ap (λ r. r.1) e in
    (
      sym (ap (λ r. r.max_fd_num) rest),
      ap (λ r. count a (fd ∷ held) + count a r.free_fd_pool) (sym rest)
          ∙ ap (λ y. count a (y ∷ held) + count a pool) (sym same)
          ∙ ground arith,
    )

put_fd-max : (h : FdHandle) (fd : ℕ) → (put_fd h fd).max_fd_num ≡ h.max_fd_num
unfolding put_fd
put_fd-max h fd = ground arith

count-middle :
    (a x : ℕ) (before after : List ℕ)
    → count a (before ++ x ∷ after) ≡ count a (before ++ after) + count a (x ∷ [])
count-middle a x before after =
    ground (arith, count-append a before (x ∷ after), count-append a before after)

Reachable-max : {m : ℕ} (h : FdHandle) (held : List ℕ) → Reachable m h held → h.max_fd_num ≡ m
unfolding new_fd_handle put_fd
Reachable-max _ _ started = refl
Reachable-max _ _ (opened h h' held fd r e) =
    (get_fd-moves h.max_fd_num h.free_fd_pool held h' fd 0 e).0 ∙ Reachable-max h held r
Reachable-max _ _ (closed h before after fd r) =
    put_fd-max h fd ∙ Reachable-max h (before ++ fd ∷ after) r

-- However descriptors are opened and closed, each one below the bound is either in use once or free
-- once, and there are no others: none is in use twice.
pub Reachable-partition :
    (m : ℕ) (h : FdHandle) (held : List ℕ)
    → Reachable m h held
    → (a : ℕ) → count a held + count a h.free_fd_pool ≡ (if ltb a m then 1 else 0)
unfolding new_fd_handle put_fd
Reachable-partition m _ _ started a = elim (lt_or_ge a m) [
  | inl below ↦ ground (arith, count-range_from_in a 0 m (omega arith) (omega arith))
  | inr above ↦ ground (arith, count-range_from_out a 0 m (omega arith))
]
Reachable-partition m _ _ (opened h h' held fd r e) a =
    (get_fd-moves h.max_fd_num h.free_fd_pool held h' fd a e).1 ∙ Reachable-partition m h held r a
Reachable-partition m _ _ (closed h before after fd r) a =
    let here = Reachable-partition m h (before ++ fd ∷ after) r fd in
    let below : fd < h.max_fd_num =
      ground (arith, here, count-middle fd fd before after, Reachable-max h _ r) in
    let all = Reachable-partition m h (before ++ fd ∷ after) r a in
    rw (le→ltb_false h.max_fd_num fd (omega (arith, below)))
      (ground (arith, all, count-middle a fd before after, count-append a h.free_fd_pool (fd ∷ [])))
