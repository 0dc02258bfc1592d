-- ===== src/FileSystem/Zeroes.antt =====
-- `FileSystem::FormatFSData` of lib/file_system.cc, which fills the data region with zeros.
use blockfs.Prelude.{
  ℕ, zero, suc, ◌+◌, ◌-◌, ◌*◌, ◌/◌, ◌%◌, ◌≤◌, ◌<◌, ◌≡◌, ◌⊎◌, inl, inr, refl, ap, ◌∙◌, [], true,
  false, ltb, ◌==◌, if◌then◌else◌, arith, le→ltb_false, lt→ltb, lt_or_ge, u64, nat_eq,
}
use blockfs.Meta.{k_mega}
use blockfs.Device.{write_bytes}
use blockfs.OpenFile.Transfer.{with_bytes}
use blockfs.State.{
  Fs, Action, ok, ◌>>=◌, ◌>>◌, pure, fail, gets, pwrite_direct, pwrite_direct_completes,
}

abbrev zero_buffer_len : ℕ
zero_buffer_len = 4 * k_mega

-- What the next write takes: the whole buffer, or the rest of the device.
abbrev zero_len : ℕ → ℕ → ℕ → ℕ
zero_len device_size len offset =
    if ltb device_size (offset + zero_buffer_len) then (device_size + u64 - offset) % u64 else len

-- The loop, from `offset`, with the length of the write before.
unfoldable pub zero_data : ℕ → ℕ → ℕ → Action (Unit {0})
zero_data zero len offset = fail
zero_data (suc fuel) len offset = do
  device_size ← gets (λ s. s.super_meta.device_size)
  let n = zero_len device_size len offset
  let rest = zero_data fuel n (offset + n)
  pwrite_direct n offset (λ d. record d { bytes = write_bytes n (λ _. 0) offset d.bytes })
  if offset + n == device_size then pure tt else rest

-- `FormatFSData`.
unfoldable pub format_fs_data : Action (Unit {0})
format_fs_data = do
  start ← gets (λ s. s.super_meta.block_data_start_offset)
  device_size ← gets (λ s. s.super_meta.device_size)
  zero_data (suc ((device_size - start) / zero_buffer_len)) zero_buffer_len start

-- Bytes that are 0 from `offset` up to `device_size` and else as before.
abbrev IsZeroed : ℕ → ℕ → (ℕ → ℕ) → (ℕ → ℕ) → Type 0
IsZeroed offset device_size before after =
    ((a : ℕ) → offset ≤ a → a < device_size → after a ≡ 0)
    × ((a : ℕ) → ((a < offset) ⊎ (device_size ≤ a)) → after a ≡ before a)

-- The state and the rest of the loop once `n` bytes from `offset` are written.
abbrev zeroed : ℕ → ℕ → ℕ → Action (Unit {0})
zeroed fuel offset n s =
    (if offset + n == s.super_meta.device_size then pure tt else zero_data fuel n (offset + n))
      (with_bytes (write_bytes n (λ _. 0) offset s.dev.bytes) s)

zero_data-step :
    (fuel len offset n : ℕ) (s : Fs)
    → s.dev.outcomes ≡ []
    → zero_len s.super_meta.device_size len offset ≡ n
    → offset + n ≤ s.dev.dev_size
    → zero_data (suc fuel) len offset s ≡ zeroed fuel offset n s
unfolding zero_data
zero_data-step fuel len offset n s quiet same fits =
    let k = zero_len s.super_meta.device_size len offset in
    let written =
      pwrite_direct_completes k offset
        (λ d. record d { bytes = write_bytes k (λ _. 0) offset d.bytes }) s quiet
        (omega (arith, same, fits)) in
    rw (written, ◌>>=◌) refl ∙ ap (λ i. zeroed fuel offset i s) same

write_bytes-in :
    (n offset a : ℕ) (bytes : ℕ → ℕ)
    → offset ≤ a
    → a < offset + n
    → write_bytes n (λ _. 0) offset bytes a ≡ 0
unfolding write_bytes
write_bytes-in n offset a bytes from to = ground arith

write_bytes-out :
    (n offset a : ℕ) (bytes : ℕ → ℕ)
    → ((a < offset) ⊎ (offset + n ≤ a))
    → write_bytes n (λ _. 0) offset bytes a ≡ bytes a
unfolding write_bytes
write_bytes-out n offset a bytes (inl before) = ground arith
write_bytes-out n offset a bytes (inr behind) = ground arith

-- What a run of the loop from `offset` comes to.
abbrev Clears : ℕ → ℕ → Fs → Type 0
Clears fuel offset s =
    (bytes : ℕ → ℕ) × (zero_data fuel zero_buffer_len offset s ≡ ok tt (with_bytes bytes s))
    × IsZeroed offset s.super_meta.device_size s.dev.bytes bytes

-- The last write.
zero_data-last :
    (fuel offset n : ℕ) (s : Fs)
    → s.dev.outcomes ≡ []
    → zero_len s.super_meta.device_size zero_buffer_len offset ≡ n
    → offset + n ≡ s.super_meta.device_size
    → s.super_meta.device_size ≤ s.dev.dev_size
    → Clears (suc fuel) offset s
zero_data-last fuel offset n s quiet same end inside =
    let stop : (offset + n == s.super_meta.device_size) ≡ true = ground arith in
    (
      write_bytes n (λ _. 0) offset s.dev.bytes,
      zero_data-step fuel zero_buffer_len offset n s quiet same (omega arith) ∙ rw stop refl,
      (
        λ a from to. write_bytes-in n offset a s.dev.bytes from (omega arith),
        λ a outside. write_bytes-out n offset a s.dev.bytes (ground arith),
      ),
    )

-- A write of a whole buffer, with more to come.
zero_data-next :
    (fuel offset : ℕ) (s : Fs)
    → s.dev.outcomes ≡ []
    → offset + zero_buffer_len < s.super_meta.device_size
    → s.super_meta.device_size ≤ s.dev.dev_size
    → Clears fuel
        (offset + zero_buffer_len)
        (with_bytes (write_bytes zero_buffer_len (λ _. 0) offset s.dev.bytes) s)
    → Clears (suc fuel) offset s
zero_data-next fuel offset s quiet more inside (bytes, run, (zeros, others)) =
    let same : zero_len s.super_meta.device_size zero_buffer_len offset ≡ zero_buffer_len =
      rw (le→ltb_false s.super_meta.device_size (offset + zero_buffer_len) (omega arith)) refl in
    let go_on : (offset + zero_buffer_len == s.super_meta.device_size) ≡ false = ground arith in
    (
      bytes,
      zero_data-step fuel zero_buffer_len offset zero_buffer_len s quiet same (omega arith)
          ∙ rw go_on run,
      (
        λ a from to. elim (lt_or_ge a (offset + zero_buffer_len)) [
          | inl first ↦
              others a (inl first) ∙ write_bytes-in zero_buffer_len offset a s.dev.bytes from first
          | inr later ↦ zeros a later to
        ],
        λ a outside.
            others a (ground arith)
            ∙ write_bytes-out zero_buffer_len offset a s.dev.bytes (ground arith),
      ),
    )

-- The last write is short, or there is nothing left to write.
zero_data-short :
    (fuel offset : ℕ) (s : Fs)
    → s.dev.outcomes ≡ []
    → offset ≤ s.super_meta.device_size
    → s.super_meta.device_size ≤ s.dev.dev_size
    → s.super_meta.device_size < u64
    → s.super_meta.device_size < offset + zero_buffer_len
    → Clears (suc fuel) offset s
zero_data-short fuel offset s quiet below inside word short =
    let device_size = s.super_meta.device_size in
    let rest : (device_size + u64 - offset) % u64 ≡ device_size - offset = omega arith in
    zero_data-last fuel offset (device_size - offset) s quiet
      (rw (lt→ltb device_size (offset + zero_buffer_len) short) rest) (omega arith) inside

zero_data-zeroes :
    (fuel offset : ℕ) (s : Fs)
    → s.dev.outcomes ≡ []
    → offset ≤ s.super_meta.device_size
    → s.super_meta.device_size ≤ s.dev.dev_size
    → s.super_meta.device_size < u64
    → s.super_meta.device_size < offset + (fuel + 1) * zero_buffer_len
    → Clears (suc fuel) offset s
zero_data-zeroes zero offset s quiet below inside word enough =
    zero_data-short 0 offset s quiet below inside word (omega arith)
zero_data-zeroes (suc fuel) offset s quiet below inside word enough =
    let device_size = s.super_meta.device_size in
    elim (lt_or_ge device_size (offset + zero_buffer_len)) [
      | inl short ↦ zero_data-short (suc fuel) offset s quiet below inside word short
      | inr long ↦ elim (lt_or_ge (offset + zero_buffer_len) device_size) [
        | inl more ↦
            let written = write_bytes zero_buffer_len (λ _. 0) offset s.dev.bytes in
            zero_data-next (suc fuel) offset s quiet more inside (
              zero_data-zeroes fuel (offset + zero_buffer_len) (with_bytes written s) refl
                (omega arith) inside word (omega arith))
        | inr all ↦
            zero_data-last (suc fuel) offset zero_buffer_len s quiet
              (rw (le→ltb_false device_size (offset + zero_buffer_len) (omega arith)) refl)
              (omega arith) inside
      ]
    ]

-- On a device that completes its transfers, the filling of a data region that ends with the device
-- ends and succeeds: every byte of the region is 0, and no other byte and nothing else has changed.
pub format_fs_data-zeroes :
    (s : Fs)
    → s.dev.outcomes ≡ []
    → s.super_meta.block_data_start_offset ≤ s.super_meta.device_size
    → s.super_meta.device_size ≤ s.dev.dev_size
    → s.super_meta.device_size < u64
    → (bytes : ℕ → ℕ) × (format_fs_data s ≡ ok tt (with_bytes bytes s))
      × ((a : ℕ)
          → s.super_meta.block_data_start_offset ≤ a
          → a < s.super_meta.device_size
          → bytes a ≡ 0)
      × ((a : ℕ)
          → ((a < s.super_meta.block_data_start_offset) ⊎ (s.super_meta.device_size ≤ a))
          → bytes a ≡ s.dev.bytes a)
unfolding format_fs_data
format_fs_data-zeroes s quiet below inside word =
    let start = s.super_meta.block_data_start_offset in
    let steps = (s.super_meta.device_size - start) / zero_buffer_len in
    let (bytes, run, (zeros, others)) =
      zero_data-zeroes steps start s quiet below inside word (omega arith) in
    (bytes, run, zeros, others)
