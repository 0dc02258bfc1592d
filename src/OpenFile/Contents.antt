-- ===== src/OpenFile/Contents.antt =====
-- What the pieces of a transfer do to the bytes of the device, seen through the file's own
-- addresses.
use blockfs.Prelude.{
  ℕ, zero, suc, ◌+◌, ◌-◌, ◌%◌, ◌<◌, ◌≤◌, ◌≡◌, ◌≢◌, ◌⊎◌, inl, inr, refl, sym, ◌∙◌, ap, List, [], ◌∷◌,
  ◌++◌, arith, lt_or_ge,
}
use mathlib.Core.Path.{ap₂}
use blockfs.Meta.{k_block_size}
use blockfs.Device.{read_bytes, write_bytes}
use blockfs.OpenFile.{BlockData}
use blockfs.OpenFile.Pieces.{address, address-add, Covers}

-- All pieces of a write, and all pieces of a read.
unfoldable pub store : List BlockData → (ℕ → ℕ) → (ℕ → ℕ) → ℕ → ℕ
store [] buffer bytes = bytes
store (p ∷ ps) buffer bytes =
    store ps buffer (write_bytes p.size (λ i. buffer (p.buffer_offset + i)) p.dev_offset bytes)

unfoldable pub fetch : List BlockData → (ℕ → ℕ) → List ℕ
fetch [] bytes = []
fetch (p ∷ ps) bytes = read_bytes (λ i. bytes (p.dev_offset + i)) 0 p.size ++ fetch ps bytes

pub write_bytes_in :
    (len : ℕ) (buffer : ℕ → ℕ) (offset : ℕ) (bytes : ℕ → ℕ) (i : ℕ)
    → i < len
    → write_bytes len buffer offset bytes (offset + i) ≡ buffer i
unfolding write_bytes
write_bytes_in len buffer offset bytes i h =
    let e : offset + i - offset ≡ i = omega arith in ground (arith, ap buffer e)

pub write_bytes_out :
    (len : ℕ) (buffer : ℕ → ℕ) (offset : ℕ) (bytes : ℕ → ℕ) (a : ℕ)
    → ((a < offset) ⊎ (offset + len ≤ a))
    → write_bytes len buffer offset bytes a ≡ bytes a
unfolding write_bytes
write_bytes_out len buffer offset bytes a h = ground arith

pub read_bytes_shift :
    (f g : ℕ → ℕ) (n o q : ℕ)
    → ((i : ℕ) → i < n → f (o + i) ≡ g (q + i))
    → read_bytes f o n ≡ read_bytes g q n
unfolding read_bytes
read_bytes_shift f g zero o q h = refl
read_bytes_shift f g (suc n) o q h =
    let zo : o ≡ o + 0 = omega arith in
    let zq : q + 0 ≡ q = omega arith in
    ap₂ ◌∷◌ (ap f zo ∙ h 0 (omega arith) ∙ ap g zq) (
      read_bytes_shift f g n (suc o) (suc q) (λ i l.
        let so : suc o + i ≡ o + suc i = omega arith in
        let sq : q + suc i ≡ suc q + i = omega arith in
        ap f so ∙ h (suc i) (omega arith) ∙ ap g sq))

read_bytes-append :
    (f : ℕ → ℕ) (o m n : ℕ) → read_bytes f o (m + n) ≡ read_bytes f o m ++ read_bytes f (o + m) n
unfolding read_bytes
read_bytes-append f o zero n =
    let start : o ≡ o + 0 = omega arith in
    let count : 0 + n ≡ n = omega arith in ap₂ (read_bytes f) start count
read_bytes-append f o (suc m) n =
    let count : suc m + n ≡ suc (m + n) = omega arith in
    let start : suc o + m ≡ o + suc m = omega arith in
    ap (read_bytes f o) count
    ∙ ap (◌∷◌ (f o)) (
        read_bytes-append f (suc o) m n
        ∙ ap (λ x. read_bytes f (suc o) m ++ read_bytes f x n) start)

module _ (data_start : ℕ) (ids : List ℕ) (offset size : ℕ) where
  -- No two bytes of the transfer share an address.
  abbrev pub IsInjective : Type 0
  IsInjective =
      (j k : ℕ)
      → j < size
      → k < size
      → address data_start ids (offset + j) ≡ address data_start ids (offset + k)
      → j ≡ k

  pub Covers-le :
      (ps : List BlockData) (curr : ℕ) → Covers data_start ids offset size curr ps → curr ≤ size
  Covers-le [] curr c = omega arith
  Covers-le (p ∷ ps) curr c = omega (arith, Covers-le ps (curr + p.size) c.4)

  -- The address of byte i of a piece.
  address_in_piece :
      (p : BlockData) (curr i : ℕ)
      → i < p.size
      → (offset + curr) % k_block_size + p.size ≤ k_block_size
      → p.dev_offset ≡ address data_start ids (offset + curr)
      → address data_start ids (offset + (curr + i)) ≡ p.dev_offset + i
  address_in_piece p curr i h b e =
      let same : offset + (curr + i) ≡ offset + curr + i = omega arith in
      ap (address data_start ids) same
      ∙ address-add data_start ids (offset + curr) p.size i h b
      ∙ sym (ap (λ (n : ℕ). n + i) e)

  -- An address that is not among those of a piece lies outside it.
  outside_piece :
      (p : BlockData) (ps : List BlockData) (curr a : ℕ)
      → Covers data_start ids offset size curr (p ∷ ps)
      → curr + p.size ≤ size
      → ((k : ℕ) → curr ≤ k → k < size → address data_start ids (offset + k) ≢ a)
      → (a < p.dev_offset) ⊎ (p.dev_offset + p.size ≤ a)
  outside_piece p ps curr a c fits apart = elim (lt_or_ge a p.dev_offset) [
    | inl below ↦ inl below
    | inr above ↦ elim (lt_or_ge a (p.dev_offset + p.size)) [
      | inr beyond ↦ inr beyond
      | inl inside ↦
          let i : ℕ = a - p.dev_offset in
          let place : address data_start ids (offset + (curr + i)) ≡ p.dev_offset + i =
            address_in_piece p curr i (omega arith) c.2 c.3 in
          let back : p.dev_offset + i ≡ a = omega arith in
          absurd (apart (curr + i) (omega arith) (omega arith) (place ∙ back))
    ]
  ]

  -- A byte of the device that is none of the transfer's keeps its value.
  pub store_others :
      (ps : List BlockData) (curr : ℕ) (buffer bytes : ℕ → ℕ) (a : ℕ)
      → Covers data_start ids offset size curr ps
      → ((k : ℕ) → curr ≤ k → k < size → address data_start ids (offset + k) ≢ a)
      → store ps buffer bytes a ≡ bytes a
  unfolding store
  store_others [] curr buffer bytes a c apart = refl
  store_others (p ∷ ps) curr buffer bytes a c apart =
      store_others ps (curr + p.size) buffer _ a c.4 (λ k l. apart k (omega arith))
      ∙ write_bytes_out p.size (λ i. buffer (p.buffer_offset + i)) p.dev_offset bytes a
          (outside_piece p ps curr a c (Covers-le ps (curr + p.size) c.4) apart)

  write_piece :
      (p : BlockData) (curr : ℕ) (buffer bytes : ℕ → ℕ) (k : ℕ)
      → p.buffer_offset ≡ curr
      → (offset + curr) % k_block_size + p.size ≤ k_block_size
      → p.dev_offset ≡ address data_start ids (offset + curr)
      → curr ≤ k
      → k < curr + p.size
      → write_bytes p.size
          (λ i. buffer (p.buffer_offset + i))
          p.dev_offset
          bytes
          (address data_start ids (offset + k))
        ≡ buffer k
  write_piece p curr buffer bytes k start b e l h =
      let i : ℕ = k - curr in
      let within : k ≡ curr + i = omega arith in
      let written = write_bytes p.size (λ i. buffer (p.buffer_offset + i)) p.dev_offset bytes in
      ap (λ x. written (address data_start ids (offset + x))) within
      ∙ ap written (address_in_piece p curr i (omega arith) b e)
      ∙ write_bytes_in p.size (λ i. buffer (p.buffer_offset + i)) p.dev_offset bytes i (omega arith)
      ∙ ap buffer (omega arith)

  -- Each byte of the transfer holds what the buffer held.
  pub store_own :
      IsInjective
      → (ps : List BlockData) (curr : ℕ) (buffer bytes : ℕ → ℕ) (k : ℕ)
      → Covers data_start ids offset size curr ps
      → curr ≤ k
      → k < size
      → store ps buffer bytes (address data_start ids (offset + k)) ≡ buffer k
  unfolding store
  store_own inj [] curr buffer bytes k c l h = absurd (omega arith)
  store_own inj (p ∷ ps) curr buffer bytes k c l h = elim (lt_or_ge k (curr + p.size)) [
    | inr later ↦ store_own inj ps (curr + p.size) buffer _ k c.4 later h
    | inl here ↦
        store_others ps (curr + p.size) buffer _ (address data_start ids (offset + k)) c.4
          (λ j lj hj e. omega (arith, inj j k hj h e))
        ∙ write_piece p curr buffer bytes k c.0 c.2 c.3 l here
  ]

  -- What a read of the pieces gives is the file's bytes in order.
  pub fetch-Covers :
      (ps : List BlockData) (curr : ℕ) (bytes : ℕ → ℕ)
      → Covers data_start ids offset size curr ps
      → fetch ps bytes
        ≡ read_bytes (λ j. bytes (address data_start ids (offset + j))) curr (size - curr)
  unfolding fetch read_bytes
  fetch-Covers [] curr bytes c = let e : size - curr ≡ 0 = omega arith in rw e
  fetch-Covers (p ∷ ps) curr bytes c =
      let file = λ (j : ℕ). bytes (address data_start ids (offset + j)) in
      let le = Covers-le ps (curr + p.size) c.4 in
      let parts : size - curr ≡ p.size + (size - (curr + p.size)) = omega arith in
      ap₂ ◌++◌
        (read_bytes_shift (λ i. bytes (p.dev_offset + i)) file p.size 0 curr
          (λ i h.
            let z : 0 + i ≡ i = omega arith in
            ap (λ x. bytes (p.dev_offset + x)) z
            ∙ ap bytes (sym (address_in_piece p curr i h c.2 c.3))))
        (fetch-Covers ps (curr + p.size) bytes c.4)
      ∙ sym (read_bytes-append file curr p.size (size - (curr + p.size)))
      ∙ ap (read_bytes file curr) (sym parts)

  -- A read behind a write of the same range gives the bytes that were written.
  pub fetch-store :
      IsInjective
      → (ps : List BlockData) (buffer bytes : ℕ → ℕ) → Covers data_start ids offset size 0 ps
      → fetch ps (store ps buffer bytes) ≡ read_bytes buffer 0 size
  fetch-store inj ps buffer bytes c =
      let all : size - 0 ≡ size = omega arith in
      fetch-Covers ps 0 (store ps buffer bytes) c
      ∙ ap (read_bytes (λ j. store ps buffer bytes (address data_start ids (offset + j))) 0) all
      ∙ read_bytes_shift (λ j. store ps buffer bytes (address data_start ids (offset + j))) buffer
          size 0 0 (λ i h. store_own inj ps 0 buffer bytes (0 + i) c (omega arith) (omega arith))
