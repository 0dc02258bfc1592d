-- ===== src/File/Copy.antt =====
-- `CopyData` of lib/file.cc, which copies the start of a block in chunks.
use blockfs.Prelude.{
  ℕ, zero, suc, ◌+◌, ◌-◌, ◌*◌, ◌/◌, ◌≤◌, ◌<◌, ◌≡◌, ◌⊎◌, inl, inr, refl, ap, ◌∙◌, sym, subst, [],
  true, false, ◌==◌, min, arith, lt_or_ge, nat_eq,
}
use blockfs.Meta.{k_mega}
use blockfs.Device.{write_bytes, pread_cache, pwrite_cache}
use blockfs.OpenFile.Transfer.{with_bytes, with_bytes_self}
use blockfs.File.Shrink.{block_address, copy_chunks, copy_data}
use blockfs.State.{
  Fs, Action, ok, ◌>>=◌, ◌>>◌, gets, fsync_device, take_outcome, pwrite_direct_completes,
}

abbrev chunk : ℕ
chunk = 4 * k_mega

-- The bytes from `from` stand at `to` too, and no other byte has changed.
abbrev IsCopied : ℕ → ℕ → ℕ → (ℕ → ℕ) → (ℕ → ℕ) → Type 0
IsCopied from to len before after =
    ((i : ℕ) → i < len → after (to + i) ≡ before (from + i))
    × ((a : ℕ) → ((a < to) ⊎ (to + len ≤ a)) → after a ≡ before a)

-- The bytes of a device after one copy.
abbrev copied : ℕ → ℕ → ℕ → (ℕ → ℕ) → ℕ → ℕ
copied from to len bytes = write_bytes len (λ i. bytes (from + i)) to bytes

copied-IsCopied :
    (from to len : ℕ) (bytes : ℕ → ℕ) → IsCopied from to len bytes (copied from to len bytes)
unfolding write_bytes
copied-IsCopied from to len bytes = (
  λ i h. ground arith,
  λ a outside. elim outside [ inl before ↦ ground arith | inr behind ↦ ground arith ],
)

-- One read of the whole range and one write of it, then the sync.
abbrev pub copy_at_once : ℕ → ℕ → ℕ → ℕ → Action (Unit {0})
copy_at_once src dst offset len = do
  from ← gets (block_address src offset)
  buffer ← pread_cache len from
  to ← gets (block_address dst offset)
  pwrite_cache len to buffer
  fsync_device

module _ (src dst : ℕ) where
  abbrev copied_in : ℕ → ℕ → Fs → Fs
  copied_in offset n s =
      with_bytes (copied (block_address src offset s) (block_address dst offset s) n s.dev.bytes) s

  copy_chunks-step :
      (fuel offset len n : ℕ) (s : Fs)
      → s.dev.outcomes ≡ []
      → min len chunk ≡ n
      → 0 < len
      → block_address src offset s + n ≤ s.dev.dev_size
      → block_address dst offset s + n ≤ s.dev.dev_size
      → copy_chunks (suc fuel) src dst offset len s
        ≡ copy_chunks fuel src dst (offset + n) (len - n) (copied_in offset n s)
  unfolding copy_chunks pread_cache pwrite_cache
  copy_chunks-step fuel offset len n s quiet same some fits_src fits_dst =
      let more : (len == 0) ≡ false = ground arith in
      let k = min len chunk in
      let reads =
        pwrite_direct_completes k (block_address src offset s) (λ d. d) s quiet
          (omega (arith, same, fits_src)) in
      let writes =
        pwrite_direct_completes k (block_address dst offset s)
          (λ d. record d {
            bytes =
                write_bytes k (λ i. s.dev.bytes (block_address src offset s + i))
                  (block_address dst offset s) d.bytes;
          })
          (with_bytes s.dev.bytes s) refl (omega (arith, same, fits_dst)) in
      rw (more, ◌>>=◌) rw (reads, ◌>>=◌) rw (writes, ◌>>=◌) refl
      ∙ ap (λ i. copy_chunks fuel src dst (offset + i) (len - i) (copied_in offset i s)) same

  abbrev IsDisjoint : ℕ → ℕ → Fs → Type 0
  IsDisjoint offset len s =
      (block_address src offset s + len ≤ block_address dst offset s)
      ⊎ (block_address dst offset s + len ≤ block_address src offset s)

  IsCopied-next :
      (from to n len : ℕ) (bytes after : ℕ → ℕ)
      → ((from + len ≤ to) ⊎ (to + len ≤ from))
      → n ≤ len
      → IsCopied (from + n) (to + n) (len - n) (copied from to n bytes) after
      → IsCopied from to len bytes after
  IsCopied-next from to n len bytes after apart small (inner, outer) =
      let (first, others) = copied-IsCopied from to n bytes in
      (
        λ i h. elim (lt_or_ge i n) [
          | inl early ↦ outer (to + i) (inl (omega arith)) ∙ first i early
          | inr late ↦
              let at_src : from + n + (i - n) ≡ from + i = omega arith in
              let at_dst : to + n + (i - n) ≡ to + i = omega arith in
              ap after (sym at_dst)
              ∙ inner (i - n) (omega arith)
              ∙ ap (copied from to n bytes) at_src
              ∙ others (from + i) (ground arith)
        ],
        λ a outside. outer a (ground arith) ∙ others a (ground arith),
      )

  -- What a run of the loop comes to.
  abbrev RunsTo : ℕ → ℕ → ℕ → Fs → Type 0
  RunsTo fuel offset len s =
      (bytes : ℕ → ℕ) × (copy_chunks fuel src dst offset len s ≡ ok tt (with_bytes bytes s))
      × IsCopied (block_address src offset s) (block_address dst offset s) len s.dev.bytes bytes

  copy_chunks-none :
      (fuel offset len : ℕ) (s : Fs)
      → s.dev.outcomes ≡ []
      → len ≡ 0
      → RunsTo (suc fuel) offset len s
  unfolding copy_chunks
  copy_chunks-none fuel offset len s quiet empty =
      let stop : (len == 0) ≡ true = ground arith in
      (
        s.dev.bytes,
        rw stop (ap (ok tt) (with_bytes_self s quiet)),
        (λ i h. absurd (omega arith), λ a outside. refl),
      )

  copy_chunks-copies :
      (fuel offset len : ℕ) (s : Fs)
      → s.dev.outcomes ≡ []
      → IsDisjoint offset len s
      → block_address src offset s + len ≤ s.dev.dev_size
      → block_address dst offset s + len ≤ s.dev.dev_size
      → len ≤ fuel * chunk
      → RunsTo (suc fuel) offset len s
  copy_chunks-copies zero offset len s quiet apart fits_src fits_dst enough =
      copy_chunks-none 0 offset len s quiet (omega arith)
  copy_chunks-copies (suc fuel) offset len s quiet apart fits_src fits_dst enough =
      elim (lt_or_ge 0 len) [
        | inr none_left ↦ copy_chunks-none (suc fuel) offset len s quiet (omega arith)
        | inl some ↦
            let n = min len chunk in
            let from = block_address src offset s in
            let to = block_address dst offset s in
            let s' = copied_in offset n s in
            let at_src : block_address src (offset + n) s' ≡ from + n = omega arith in
            let at_dst : block_address dst (offset + n) s' ≡ to + n = omega arith in
            let (bytes, run, inner) =
              copy_chunks-copies fuel (offset + n) (len - n) s' refl
                (elim apart [ inl h ↦ inl (omega arith) | inr h ↦ inr (omega arith) ]) (omega arith)
                (omega arith) (omega arith) in
            (
              bytes,
              copy_chunks-step (suc fuel) offset len n s quiet refl some (omega arith) (omega arith)
                  ∙ run,
              IsCopied-next from to n len s.dev.bytes bytes apart (omega arith) (
                  subst (λ p. IsCopied p (to + n) (len - n) s'.dev.bytes bytes) at_src
                    (subst
                      (λ q.
                        IsCopied (block_address src (offset + n) s') q (len - n) s'.dev.bytes bytes)
                      at_dst inner)),
            )
      ]

  copy_at_once-copied_in :
      (offset len : ℕ) (s : Fs)
      → s.dev.outcomes ≡ []
      → block_address src offset s + len ≤ s.dev.dev_size
      → block_address dst offset s + len ≤ s.dev.dev_size
      → copy_at_once src dst offset len s ≡ ok tt (copied_in offset len s)
  unfolding pread_cache pwrite_cache fsync_device take_outcome
  copy_at_once-copied_in offset len s quiet fits_src fits_dst =
      let reads =
        pwrite_direct_completes len (block_address src offset s) (λ d. d) s quiet fits_src in
      let writes =
        pwrite_direct_completes len (block_address dst offset s)
          (λ d. record d {
            bytes =
                write_bytes len (λ i. s.dev.bytes (block_address src offset s + i))
                  (block_address dst offset s) d.bytes;
          })
          (with_bytes s.dev.bytes s) refl fits_dst in
      rw (reads, ◌>>=◌) rw (writes, ◌>>=◌) refl

  IsCopied-copied :
      (from to len : ℕ) (before after : ℕ → ℕ)
      → IsCopied from to len before after
      → (a : ℕ) → after a ≡ copied from to len before a
  IsCopied-copied from to len before after (inner, outer) a =
      let (inner', outer') = copied-IsCopied from to len before in
      elim (lt_or_ge a to) [
        | inl low ↦ outer a (inl low) ∙ sym (outer' a (inl low))
        | inr high ↦ elim (lt_or_ge a (to + len)) [
          | inr over ↦ outer a (inr over) ∙ sym (outer' a (inr over))
          | inl within ↦
              let here : to + (a - to) ≡ a = omega arith in
              ap after (sym here)
              ∙ inner (a - to) (omega arith)
              ∙ sym (inner' (a - to) (omega arith))
              ∙ ap (copied from to len before) here
        ]
      ]

  -- On a device that completes its transfers, and between two ranges of it that do not overlap, copying
  -- any number of bytes in chunks of 4 MiB and syncing is the same as copying them at once and syncing:
  -- both succeed, and leave the bytes of the one range in the other and all other bytes as they were.
  pub copy_data-copy_at_once :
      (offset len : ℕ) (s : Fs)
      → s.dev.outcomes ≡ []
      → ((block_address src offset s + len ≤ block_address dst offset s)
          ⊎ (block_address dst offset s + len ≤ block_address src offset s))
      → block_address src offset s + len ≤ s.dev.dev_size
      → block_address dst offset s + len ≤ s.dev.dev_size
      → (bytes : ℕ → ℕ) × (copy_data src dst offset len s ≡ ok tt (with_bytes bytes s))
        × (copy_data src dst offset len s ≡ copy_at_once src dst offset len s)
        × ((i : ℕ)
            → i < len
            → bytes (block_address dst offset s + i) ≡ s.dev.bytes (block_address src offset s + i))
        × ((a : ℕ)
            → ((a < block_address dst offset s) ⊎ (block_address dst offset s + len ≤ a))
            → bytes a ≡ s.dev.bytes a)
  unfolding copy_data fsync_device take_outcome
  copy_data-copy_at_once offset len s quiet apart fits_src fits_dst =
      let (bytes, run, same) =
        copy_chunks-copies (len / chunk + 1) offset len s quiet apart fits_src fits_dst
          (omega arith) in
      let chunked : copy_data src dst offset len s ≡ ok tt (with_bytes bytes s) =
        let enough : len / chunk + 2 ≡ suc (len / chunk + 1) = omega arith in
        let loop = ap (λ k. copy_chunks k src dst offset len s) enough ∙ run in
        rw (loop, ◌>>=◌) refl in
      let equal =
        IsCopied-copied (block_address src offset s) (block_address dst offset s) len s.dev.bytes
          bytes same in
      (
        bytes,
        chunked,
        chunked
            ∙ (λ i. ok tt (with_bytes (λ a. equal a i) s))
            ∙ sym (copy_at_once-copied_in offset len s quiet fits_src fits_dst),
        same.0,
        same.1,
      )
