-- ===== src/Tool/Export/Text.antt =====
-- The text of the range that -b gives (`StringSplit` and `atol` in tool/block_fs_tool.cc).
use blockfs.Prelude.{
  ℕ, zero, suc, ◌+◌, ◌-◌, ◌*◌, ◌≤◌, ◌<◌, ◌≡◌, ◌⊎◌, inl, inr, refl, ap, sym, ◌∙◌, List, [], ◌∷◌,
  ◌++◌, none, some, true, arith, length, take, drop, min, Bool-cases, Option-cases, append_nil,
  append_assoc, length-append, length-drop, take-append, drop-append,
}
use blockfs.Prelude.Int.{pos}
use blockfs.Tool.Export.{
  starts_with, find_text, split_loop, string_split, colon, long_max, read_digits, atol, blk_range,
}
use blockfs.Logging.{to_base}
use blockfs.Logging.Digits.{Decimal, to_base-Decimal, to_base_pos, read_base, read_base-to_base}

-- The parts with the delimiter behind each.
abbrev delimited : List ℕ → List (List ℕ) → List ℕ
delimited delim [] = []
delimited delim (p ∷ ps) = p ++ (delim ++ delimited delim ps)

starts_with-drop :
    (delim s : List ℕ) → starts_with delim s ≡ true → s ≡ delim ++ drop (length delim) s
starts_with-drop [] s h = refl
starts_with-drop (d ∷ ds) [] h = absurd (cc)
starts_with-drop (d ∷ ds) (c ∷ cs) h =
    let same : c ≡ d = ground arith in
    let rest : starts_with ds cs ≡ true = ground arith in
    λ i. same i ∷ starts_with-drop ds cs rest i

found_here :
    (delim s : List ℕ) (k : ℕ)
    → starts_with delim s ≡ true
    → k ≡ 0
    → s ≡ take k s ++ (delim ++ drop (k + length delim) s)
found_here delim s k h e =
    starts_with-drop delim s h
    ∙ ap (λ n. delim ++ drop n s) {y = 0 + length delim} (omega arith)
    ∙ ap (λ j. take j s ++ (delim ++ drop (j + length delim) s)) (sym e)

found_later :
    (delim : List ℕ) (c : ℕ) (cs : List ℕ) (j k : ℕ)
    → suc j ≡ k
    → cs ≡ take j cs ++ (delim ++ drop (j + length delim) cs)
    → c ∷ cs ≡ take k (c ∷ cs) ++ (delim ++ drop (k + length delim) (c ∷ cs))
found_later delim c cs j k e split =
    ap (λ t. c ∷ t) split
    ∙ ap (λ n. c ∷ (take j cs ++ (delim ++ drop n (c ∷ cs)))) {x = suc (j + length delim)}
        {y = suc j + length delim} (omega arith)
    ∙ ap (λ i. take i (c ∷ cs) ++ (delim ++ drop (i + length delim) (c ∷ cs))) e

some_injective : {i k : ℕ} → some i ≡ some k → i ≡ k
some_injective h = cc

find_text-splits :
    (delim s : List ℕ) (k : ℕ)
    → find_text delim s ≡ some k
    → s ≡ take k s ++ (delim ++ drop (k + length delim) s)
unfolding find_text
find_text-splits [] [] zero h = refl
find_text-splits [] [] (suc k) h = absurd (cc)
find_text-splits (d ∷ ds) [] k h = absurd (cc)
find_text-splits delim (c ∷ cs) k h = elim (Bool-cases (starts_with delim (c ∷ cs))) [
  | inl here ↦ found_here delim (c ∷ cs) k here (ground arith)
  | inr later ↦ elim (Option-cases (find_text delim cs)) [
    | inl none_left ↦
        let no : find_text delim (c ∷ cs) ≡ none = rw later (rw none_left refl) in absurd (cc)
    | inr (j, found) ↦
        let at : find_text delim (c ∷ cs) ≡ some (suc j) = rw later (rw found refl) in
        found_later delim c cs j k (some_injective (sym at ∙ h)) (find_text-splits delim cs j found)
  ]
]

split_loop-joins :
    (fuel : ℕ) (delim s : List ℕ)
    → length s < fuel
    → 0 < length delim
    → (delimited delim (split_loop fuel delim s) ≡ s)
      ⊎ (delimited delim (split_loop fuel delim s) ≡ s ++ delim)
unfolding split_loop
split_loop-joins zero delim s h pos_len = elim h [ ]
split_loop-joins (suc fuel) delim [] h pos_len = inl refl
split_loop-joins (suc fuel) delim (c ∷ cs) h pos_len =
    elim (Option-cases (find_text delim (c ∷ cs))) [
      | inl last ↦ inr (rw (last, split_loop) (ap (λ t. (c ∷ cs) ++ t) (append_nil delim)))
      | inr (k, found) ↦
          let cut = find_text-splits delim (c ∷ cs) k found in
          let rest = drop (k + length delim) (c ∷ cs) in
          let shorter : length rest < fuel =
            omega (arith, h, length-drop (k + length delim) (c ∷ cs)) in
          elim (split_loop-joins fuel delim rest shorter pos_len) [
            | inl whole ↦
                inl (
                  rw (found, split_loop)
                    (ap (λ t. take k (c ∷ cs) ++ (delim ++ t)) whole ∙ sym cut))
            | inr more ↦ inr (
                rw (found, split_loop)
                  (ap (λ t. take k (c ∷ cs) ++ (delim ++ t)) more
                    ∙ ap (λ t. take k (c ∷ cs) ++ t) (sym (append_assoc delim rest delim))
                    ∙ sym (append_assoc (take k (c ∷ cs)) (delim ++ rest) delim)
                    ∙ ap (λ t. t ++ delim) (sym cut)))
          ]
    ]

-- The parts of a text, each with the delimiter behind it, are the text, or the text with the delimiter
-- at its end.
string_split-joins :
    (s delim : List ℕ)
    → 0 < length delim
    → (delimited delim (string_split s delim) ≡ s)
      ⊎ (delimited delim (string_split s delim) ≡ s ++ delim)
unfolding string_split
string_split-joins s [] h = elim h [ ]
string_split-joins s (d ∷ ds) h = split_loop-joins (length s + 1) (d ∷ ds) s (omega arith) h

find_colon : (m r : List ℕ) → Decimal m → find_text colon (m ++ b':' ∷ r) ≡ some (length m)
unfolding find_text
find_colon [] r h = refl
find_colon (c ∷ cs) r h = ground (arith, find_colon cs r h.1)

find_no_colon : (m : List ℕ) → Decimal m → find_text colon m ≡ none
unfolding find_text
find_no_colon [] h = refl
find_no_colon (c ∷ cs) h = ground (arith, find_no_colon cs h.1)

split_one :
    (fuel : ℕ) (r : List ℕ) → Decimal r → 0 < length r → split_loop (suc fuel) colon r ≡ r ∷ []
unfolding split_loop
split_one fuel [] h pos_len = elim pos_len [ ]
split_one fuel (c ∷ cs) h pos_len = rw (find_no_colon (c ∷ cs) h, split_loop) refl

split_two :
    (fuel : ℕ) (m r : List ℕ)
    → Decimal m
    → Decimal r
    → 0 < length m
    → 0 < length r
    → split_loop (suc (suc fuel)) colon (m ++ b':' ∷ r) ≡ m ∷ r ∷ []
unfolding split_loop
split_two fuel [] r h k pos_m pos_r = elim pos_m [ ]
split_two fuel (c ∷ cs) r h k pos_m pos_r =
    rw (find_colon (c ∷ cs) r h, split_loop)
      (ap (λ t. t ∷ split_loop (suc fuel) colon (drop (length (c ∷ cs) + 1) (c ∷ (cs ++ 58 ∷ r))))
          (take-append (c ∷ cs) (58 ∷ r))
        ∙ ap (λ t. (c ∷ cs) ∷ split_loop (suc fuel) colon t)
            (drop-append (c ∷ cs) (58 ∷ r) 1 (length (c ∷ cs) + 1) refl)
        ∙ ap (λ t. (c ∷ cs) ∷ t) (split_one fuel r k pos_r))

read_digits-read_base : (acc : ℕ) (m : List ℕ) → Decimal m → read_digits acc m ≡ read_base 10 acc m
unfolding read_digits read_base
read_digits-read_base acc [] h = refl
read_digits-read_base acc (c ∷ cs) h =
    ground (arith, read_digits-read_base (acc * 10 + (c - b'0')) cs h.1)

atol-Decimal :
    (m : List ℕ) → Decimal m → 0 < length m → atol m ≡ pos (min long_max (read_base 10 0 m))
unfolding atol
atol-Decimal [] h pos_len = elim pos_len [ ]
atol-Decimal (c ∷ cs) h pos_len = ground (arith, read_digits-read_base 0 (c ∷ cs) h)

pub atol-print : (n : ℕ) → n ≤ long_max → atol (to_base 10 n) ≡ pos n
atol-print n fits =
    atol-Decimal (to_base 10 n) (to_base-Decimal n) (to_base_pos 10 n)
    ∙ ap (λ k. pos (min long_max k)) (read_base-to_base 10 n (omega arith) (omega arith))
    ∙ ap pos (omega arith)

-- A printed range is read back, as far as both numbers fit a `long`.
pub blk_range-print :
    (offset size : ℕ)
    → offset ≤ long_max
    → size ≤ long_max
    → blk_range (to_base 10 offset ++ b':' ∷ to_base 10 size) ≡ some (pos offset, pos size)
unfolding blk_range string_split
blk_range-print offset size fits fits' =
    let first = to_base 10 offset in
    let second = to_base 10 size in
    let whole = first ++ b':' ∷ second in
    let parts : split_loop (length whole + 1) colon whole ≡ first ∷ second ∷ [] =
      ap (λ fuel. split_loop fuel colon whole) {y = suc (suc (length whole - 1))}
        (omega (arith, length-append first (b':' ∷ second)))
      ∙ split_two (length whole - 1) first second (to_base-Decimal offset) (to_base-Decimal size)
          (to_base_pos 10 offset) (to_base_pos 10 size) in
    rw (parts, blk_range) (λ i. some (atol-print offset fits i, atol-print size fits' i))
