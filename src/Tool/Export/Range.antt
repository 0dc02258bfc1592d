-- ===== src/Tool/Export/Range.antt =====
-- What an export of a range leaves in its target, from the open of the target on
-- (`ExportBlkDeviceContents` in tool/block_fs_tool.cc, `ExportBlkDevice` in
-- tool/block_fs_extract_device.cc).
use blockfs.Prelude.{
  ℕ, zero, suc, ◌+◌, ◌/◌, ◌≤◌, ◌<◌, ◌≡◌, ◌⊎◌, inl, inr, refl, ◌∙◌, List, [], Bool, true, false, ltb,
  leb, ◌==◌, ◌&&◌, if◌then◌else◌, arith, Bool-cases,
}
use blockfs.Prelude.Int.{pos}
use blockfs.Tool.Export.{
  CallResult, take_result, is_complete_call, Target, size_after, export_buffer_size, export_range,
}
use blockfs.Tool.Export.Copies.{
  copied, copied_size, copied_bytes, export_loop-copies, export_loop-quiet,
}

==-suc : (n : ℕ) → (suc n == 0) ≡ false
==-suc n = ground arith

module _ (dev_size : ℕ) (dev : ℕ → ℕ) where
  -- Whatever the calls answer, a write of fewer bytes than asked for included, an export from an offset
  -- ends with a first part of the range in the target, at the offset that the part has on the device, and
  -- all else as it was; an export that succeeds has written the whole range.
  pub export_range-copies :
      (offset size : ℕ) (t : Target) (answers : List CallResult)
      → (b : Bool) × (n : ℕ) × (out : Target) × (export_range dev_size dev
            (pos offset)
            (pos size)
            t
            answers
          ≡ (b, out))
        × ((a : ℕ)
            → out.bytes a ≡ (if leb offset a && ltb a (offset + n) then dev a else t.bytes a))
        × (n ≤ size)
        × ((b ≡ false) ⊎ (n ≡ size))
  unfolding export_range
  export_range-copies offset zero t answers =
      (false, 0, t, refl, λ a. ground arith, omega arith, inl refl)
  export_range-copies offset (suc size) t answers =
      elim (Bool-cases (is_complete_call (take_result answers).0)) [
        | inr refused ↦ (false, 0, t, rw refused refl, λ a. ground arith, omega arith, inl refl)
        | inl allocated ↦
            let reserved = record t { size = size_after t.size (suc size) } in
            let (b, n, run, less, whole) =
              export_loop-copies dev_size dev (suc size / export_buffer_size + 2) (suc size) offset
                reserved (take_result answers).1 (omega arith) in
            (
              b,
              n,
              copied dev_size dev n offset reserved,
              rw allocated (rw run refl),
              λ a. copied_bytes dev_size dev n offset a reserved,
              less,
              whole,
            )
      ]

  -- Where every call completes and the range lies on the device, the export succeeds.
  pub export_range-quiet :
      (offset size : ℕ) (t : Target)
      → 0 < size
      → offset + size ≤ dev_size
      → (out : Target) × (export_range dev_size dev (pos offset) (pos size) t [] ≡ (true, out))
        × (out.size ≡ size_after (size_after t.size size) (offset + size))
  unfolding export_range take_result
  export_range-quiet offset zero t some_bytes inside = elim some_bytes [ ]
  export_range-quiet offset (suc size) t some_bytes inside =
      let reserved = record t { size = size_after t.size (suc size) } in
      (
        copied dev_size dev (suc size) offset reserved,
        rw
            (export_loop-quiet dev_size dev (suc size / export_buffer_size + 2) (suc size) offset
              reserved (omega arith) inside)
            refl,
        copied_size dev_size dev (suc size) offset reserved ∙ rw (==-suc size) refl,
      )
