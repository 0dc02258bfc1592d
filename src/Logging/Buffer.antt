-- ===== src/Logging/Buffer.antt =====
-- The line buffer of a logger (`Append` of lib/logging.cc): which text it holds.
use blockfs.Prelude.{
  ℕ, zero, suc, ◌+◌, ◌-◌, ◌≤◌, ◌<◌, ◌≡◌, ◌∙◌, refl, ap, sym, List, [], ◌∷◌, ◌++◌, none, some, leb,
  if◌then◌else◌, length, take, drop, replicate, arith, length-append, take-append, drop-append,
  length-replicate, append_assoc, append_nil, le→leb, leb→le, Bool-cases, inl, inr,
}
use blockfs.Logging.{strlen, append, buffer_size, holding}
use blockfs.Logging.Digits.{Clean}

pub append-Clean : (xs ys : List ℕ) → Clean xs → Clean ys → Clean (xs ++ ys)
append-Clean [] ys h k = k
append-Clean (x ∷ xs) ys h k = (h.0, append-Clean xs ys h.1 k)

strlen-Clean : (text rest : List ℕ) → Clean text → strlen (text ++ 0 ∷ rest) ≡ some (length text)
unfolding strlen
strlen-Clean [] rest h = refl
strlen-Clean (c ∷ cs) rest h = ground (arith, strlen-Clean cs rest h.1, h.0)

-- Without a NUL the search leaves the array.
pub strlen-none : (text : List ℕ) → Clean text → strlen text ≡ none
unfolding strlen
strlen-none [] h = refl
strlen-none (c ∷ cs) h = ground (arith, strlen-none cs h.1, h.0)

-- A run of NUL bytes.
unfoldable pub zeros : ℕ → List ℕ
zeros k = replicate k 0

pub drop-zeros : (n k : ℕ) → drop n (zeros k) ≡ zeros (k - n)
unfolding zeros
drop-zeros zero k = ap zeros {x = k} {y = k - 0} (omega arith)
drop-zeros (suc n) zero = ap zeros {x = 0} {y = 0 - suc n} (omega arith)
drop-zeros (suc n) (suc k) = drop-zeros n k ∙ ap zeros {x = k - n} {y = suc k - suc n} (omega arith)

zeros-append : (n k : ℕ) → zeros n ++ zeros k ≡ zeros (n + k)
unfolding zeros
zeros-append zero k = ap zeros {x = k} {y = 0 + k} (omega arith)
zeros-append (suc n) k =
    ap (λ t. 0 ∷ t) (zeros-append n k) ∙ ap zeros {x = suc (n + k)} {y = suc n + k} (omega arith)

take_exact : (xs ys : List ℕ) (n : ℕ) → n ≡ length xs → take n (xs ++ ys) ≡ xs
take_exact xs ys n e = ap (λ k. take k (xs ++ ys)) e ∙ take-append xs ys

unfoldable pub zeros-suc : (k : ℕ) → 0 < k → zeros k ≡ 0 ∷ zeros (k - 1)
unfolding zeros
zeros-suc zero h = elim h [ ]
zeros-suc (suc k) h = ap zeros {x = suc k} {y = suc (suc k - 1)} (omega arith)

-- The search finds the end of the text that a buffer holds.
pub strlen-holding :
    (text : List ℕ)
    → Clean text
    → length text < buffer_size
    → strlen (holding text) ≡ some (length text)
unfolding zeros
strlen-holding text clean h =
    ap (λ z. strlen (text ++ z)) (zeros-suc (buffer_size - length text) (omega arith))
    ∙ strlen-Clean text _ clean

-- A full buffer has no NUL.
strlen-full :
    (text : List ℕ) → Clean text → length text ≡ buffer_size → strlen (holding text) ≡ none
unfolding zeros
strlen-full text clean full =
    ap (λ k. strlen (text ++ zeros k)) {y = 0} (omega arith)
    ∙ ap strlen (append_nil text)
    ∙ strlen-none text clean

-- The bytes of a buffer after an append, part by part.
spliced :
    (text m rest : List ℕ) (z : ℕ)
    → length text + (length m + z) ≤ buffer_size
    → take (length text) (holding text)
        ++ take (length m + z) (m ++ zeros z ++ rest)
        ++ drop (length text + (length m + z)) (holding text)
      ≡ holding (text ++ m)
unfolding zeros
spliced text m rest z fits =
    let free = zeros (buffer_size - length text) in
    let head : take (length text) (text ++ free) ≡ text = take-append text free in
    let middle : take (length m + z) ((m ++ zeros z) ++ rest) ≡ m ++ zeros z =
      take_exact (m ++ zeros z) rest (length m + z)
        (omega (arith, length-append m (zeros z), length-replicate {A = ℕ} z 0)) in
    let tail : drop (length text + (length m + z)) (text ++ free)
        ≡ zeros (buffer_size - length text - (length m + z)) =
      drop-append text free (length m + z) _ refl ∙ drop-zeros (length m + z) _ in
    ap
      (λ x.
        (x ++ take (length m + z) ((m ++ zeros z) ++ rest))
        ++ drop (length text + (length m + z)) (text ++ free))
      head
    ∙ ap (λ x. (text ++ x) ++ drop (length text + (length m + z)) (text ++ free)) middle
    ∙ ap (λ x. (text ++ (m ++ zeros z)) ++ x) tail
    ∙ ap (λ x. x ++ zeros (buffer_size - length text - (length m + z)))
        (sym (append_assoc text m (zeros z)))
    ∙ append_assoc (text ++ m) (zeros z) _
    ∙ ap (λ x. (text ++ m) ++ x) (zeros-append z _ ∙ ap zeros (omega (arith, length-append text m)))

-- An append to a buffer that holds a text, from an array of text with zeros behind it.
pub append-holding :
    (text m rest : List ℕ) (z : ℕ)
    → Clean text
    → length text < buffer_size
    → length text + (length m + z) ≤ buffer_size
    → append (m ++ replicate z 0 ++ rest) (length m + z) (holding text) ≡ some (holding (text ++ m))
unfolding append zeros
append-holding text m rest z clean free fits =
    rw (strlen-holding text clean free, append) rw (le→leb _ _ fits) rw
      (le→leb (length m + z) (length (m ++ replicate z 0 ++ rest)) (
        omega (
          arith,
          length-append (m ++ replicate z 0) rest,
          length-append m (replicate z 0),
          length-replicate {A = ℕ} z 0,
        )))
      (ap some (spliced text m rest z fits))

-- An append of a text to a buffer that holds one: where both have room together the buffer holds
-- both, and else it keeps its text.
pub append-text :
    (text m : List ℕ)
    → Clean text
    → length text < buffer_size
    → append m (length m) (holding text)
      ≡ some (holding (if leb (length text + length m) buffer_size then text ++ m else text))
unfolding append
append-text text m clean free = elim (Bool-cases (leb (length text + length m) buffer_size)) [
  | inl fits ↦
      let room : length text + (length m + 0) ≤ buffer_size =
        omega (arith, leb→le (length text + length m) buffer_size fits) in
      rw fits (
        ap (λ b. append b (length m) (holding text)) (sym (append_nil (m ++ []) ∙ append_nil m))
        ∙ ap (λ n. append (m ++ [] ++ []) n (holding text)) {x = length m} {y = length m + 0}
            (omega arith)
        ∙ append-holding text m [] 0 clean free room)
  | inr full ↦ rw (strlen-holding text clean free, append) rw full refl
]
