-- ===== src/Tool/Export/Copies.antt =====
-- What an export leaves in its target (the loop of `ExportBlkDeviceContents` in
-- tool/block_fs_tool.cc and of `ExportBlkDevice` in tool/block_fs_extract_device.cc).
use blockfs.Prelude.{
  ℕ, zero, suc, ◌+◌, ◌-◌, ◌*◌, ◌≤◌, ◌<◌, ◌≡◌, ◌⊎◌, inl, inr, refl, ap, ◌∙◌, List, [], some, Bool,
  true, false, ltb, leb, ◌==◌, ◌&&◌, if◌then◌else◌, arith, ==_refl, not, Bool-cases, le→leb,
  lt_or_ge,
}
use blockfs.Device.{write_bytes}
use blockfs.Tool.Export.{
  CallResult, completes, fails, falls_short, take_result, is_complete_call, written_count, put_part,
  Target, size_after, export_buffer_size, move_chunk, export_loop,
}

lt→leb_false : (a b : ℕ) → b < a → leb a b ≡ false
lt→leb_false a b h = ground arith

-- What one round leaves of the range has fuel left for it.
left_over :
    (size fuel : ℕ)
    → 0 < size
    → size + export_buffer_size ≤ suc fuel * export_buffer_size
    → size - (if leb export_buffer_size size then export_buffer_size else size) + export_buffer_size
      ≤ fuel * export_buffer_size
left_over size fuel some_left enough = elim (lt_or_ge size export_buffer_size) [
  | inl part ↦ rw (lt→leb_false export_buffer_size size part) (omega arith)
  | inr full ↦ rw (le→leb export_buffer_size size full) (omega arith)
]

written_count_le : (len : ℕ) (a : CallResult) → written_count len a ≤ len
written_count_le len completes = omega arith
written_count_le len fails = omega arith
written_count_le len (falls_short n) = omega arith

module _ (dev_size : ℕ) (dev : ℕ → ℕ) where
  -- The target with a part of the device, at the place where the device has it.
  abbrev pub copied : ℕ → ℕ → Target → Target
  copied n offset t = put_part n offset (λ i. dev (offset + i)) t

  pub copied_size :
      (n offset : ℕ) (t : Target)
      → (copied n offset t).size ≡ (if n == 0 then t.size else size_after t.size (offset + n))
  unfolding put_part
  copied_size zero offset t = refl
  copied_size (suc n) offset t = ground arith

  pub copied_bytes :
      (n offset a : ℕ) (t : Target)
      → (copied n offset t).bytes a
        ≡ (if leb offset a && ltb a (offset + n) then dev a else t.bytes a)
  unfolding put_part write_bytes
  copied_bytes zero offset a t = ground arith
  copied_bytes (suc n) offset a t = elim (Bool-cases (leb offset a && ltb a (offset + suc n))) [
    | inl inside ↦ rw inside (ap dev (ground arith))
    | inr outside ↦ rw outside refl
  ]

  -- Two parts one after the other are one part.
  copied-copied :
      (k m offset : ℕ) (t : Target)
      → copied m (offset + k) (copied k offset t) ≡ copied (k + m) offset t
  copied-copied k m offset t =
      let sizes : (copied m (offset + k) (copied k offset t)).size
          ≡ (copied (k + m) offset t).size =
        ground (
          arith,
          copied_size m (offset + k) (copied k offset t),
          copied_size k offset t,
          copied_size (k + m) offset t,
        ) in
      let all : (a : ℕ)
          → (copied m (offset + k) (copied k offset t)).bytes a
            ≡ (copied (k + m) offset t).bytes a =
        λ a. ground (
          arith,
          copied_bytes m (offset + k) a (copied k offset t),
          copied_bytes k offset a t,
          copied_bytes (k + m) offset a t,
        ) in
      λ i. record { size = sizes i; bytes = λ a. all a i }

  -- A first part of the chunk is written, all of it where the loop goes on.
  move_chunk-cases :
      (sync : Bool) (len offset : ℕ) (t : Target) (answers : List CallResult)
      → (b : Bool) × (n : ℕ) × (rest : List CallResult) × (move_chunk dev_size dev sync len offset t
            answers
          ≡ (b, copied n offset t, rest))
        × (n ≤ len)
        × ((b ≡ false) ⊎ (n ≡ len))
  unfolding move_chunk put_part
  move_chunk-cases sync len offset t answers =
      let first = take_result answers in
      let second = take_result first.1 in
      let third = take_result second.1 in
      let count = written_count len second.0 in
      let fits : count ≤ len = written_count_le len second.0 in
      elim (Bool-cases (leb (offset + len) dev_size && is_complete_call first.0)) [
        | inr refused ↦ (false, 0, first.1, rw refused refl, omega arith, inl refl)
        | inl read ↦ elim (Bool-cases (count == len)) [
          | inr short ↦ (false, count, second.1, rw read (rw short refl), fits, inl refl)
          | inl whole ↦
              let all : count ≡ len = ground arith in
              elim (Bool-cases sync) [
                | inl last ↦ (
                  is_complete_call third.0,
                  count,
                  third.1,
                  rw read (rw whole (rw last refl)),
                  fits,
                  inr all,
                )
                | inr full ↦
                    (true, count, second.1, rw read (rw whole (rw full refl)), fits, inr all)
              ]
        ]
      ]

  -- With the fuel given the loop ends, whatever the calls answer; the target then holds a first part
  -- of the range, all of it where the export succeeds.
  pub export_loop-copies :
      (fuel size offset : ℕ) (t : Target) (answers : List CallResult)
      → size + export_buffer_size ≤ fuel * export_buffer_size
      → (b : Bool) × (n : ℕ) × (export_loop fuel dev_size dev size offset t answers
          ≡ some (b, copied n offset t))
        × (n ≤ size)
        × ((b ≡ false) ⊎ (n ≡ size))
  unfolding export_loop put_part
  export_loop-copies zero size offset t answers enough = absurd (omega arith)
  export_loop-copies (suc fuel) size offset t answers enough = elim (Bool-cases (size == 0)) [
    | inl done ↦ (true, 0, rw done refl, omega arith, inr (ground arith))
    | inr more ↦
        let full = leb export_buffer_size size in
        let len = if full then export_buffer_size else size in
        let pos_len : 0 < len = ground arith in
        let fits : len ≤ size = ground arith in
        let (b, k, rest, moved, less, whole) = move_chunk-cases (not full) len offset t answers in
        elim (Bool-cases b) [
          | inr failed ↦
              (false, k, rw more (rw moved (rw failed refl)), omega (arith, less, fits), inl refl)
          | inl good ↦
              let all : k ≡ len = elim whole [ inl bad ↦ absurd (cc) | inr e ↦ e ] in
              let put = copied k offset t in
              let (b', n, run, less', whole') =
                export_loop-copies fuel (size - len) (offset + len) put rest
                  (left_over size fuel (ground arith) enough) in
              let joined : copied n (offset + len) put ≡ copied (len + n) offset t =
                ap (λ m. copied n (offset + len) (copied m offset t)) all
                ∙ copied-copied len n offset t in
              (
                b',
                len + n,
                rw more (rw moved (rw good (run ∙ ap (λ u. some (b', u)) joined))),
                omega (arith, less', fits),
                elim whole' [ inl bad ↦ inl bad | inr e ↦ inr (omega (arith, e, fits)) ],
              )
        ]
  ]

  move_chunk-quiet :
      (sync : Bool) (len offset : ℕ) (t : Target)
      → offset + len ≤ dev_size
      → move_chunk dev_size dev sync len offset t [] ≡ (true, copied len offset t, [])
  unfolding move_chunk take_result
  move_chunk-quiet true len offset t h = rw (le→leb (offset + len) dev_size h, ==_refl len) refl
  move_chunk-quiet false len offset t h = rw (le→leb (offset + len) dev_size h, ==_refl len) refl

  pub export_loop-quiet :
      (fuel size offset : ℕ) (t : Target)
      → size + export_buffer_size ≤ fuel * export_buffer_size
      → offset + size ≤ dev_size
      → export_loop fuel dev_size dev size offset t [] ≡ some (true, copied size offset t)
  unfolding export_loop put_part
  export_loop-quiet zero size offset t enough inside = absurd (omega arith)
  export_loop-quiet (suc fuel) size offset t enough inside = elim (Bool-cases (size == 0)) [
    | inl done ↦ rw done (ap (λ n. some (true, copied n offset t)) {x = 0} (ground arith))
    | inr more ↦
        let full = leb export_buffer_size size in
        let len = if full then export_buffer_size else size in
        let put = copied len offset t in
        let fits : len ≤ size = ground arith in
        let run : export_loop fuel dev_size dev (size - len) (offset + len) put []
            ≡ some (true, copied (size - len) (offset + len) put) =
          export_loop-quiet fuel (size - len) (offset + len) put
            (left_over size fuel (ground arith) enough) (omega (arith, fits)) in
        let joined : copied (size - len) (offset + len) put ≡ copied size offset t =
          copied-copied len (size - len) offset t
          ∙ ap (λ n. copied n offset t) (omega (arith, fits)) in
        rw more (
          rw (move_chunk-quiet (not full) len offset t (omega (arith, fits)))
            (run ∙ ap (λ u. some (true, u)) joined))
  ]
