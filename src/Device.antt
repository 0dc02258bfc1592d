-- ===== src/Device.antt =====
-- lib/device.cc: the transfer loop over short reads and writes, and the cached transfers of data.
pub mod Loop
pub mod Open
use blockfs.Prelude.{ℕ, ◌+◌, ◌-◌, List, [], ◌∷◌, ltb, leb, ◌&&◌, if◌then◌else◌}
use blockfs.State.{Action, ◌>>=◌, ◌>>◌, gets, pwrite_direct}

-- Bytes `offset`, `offset + 1`, ... of a buffer or a device.
unfoldable pub read_bytes : (ℕ → ℕ) → ℕ → ℕ → List ℕ
read_bytes bytes offset ℕ.zero = []
read_bytes bytes offset (ℕ.suc n) = bytes offset ∷ read_bytes bytes (ℕ.suc offset) n

-- The device after a write of the first `len` bytes of a buffer.
unfoldable pub write_bytes : ℕ → (ℕ → ℕ) → ℕ → (ℕ → ℕ) → ℕ → ℕ
write_bytes len buffer offset bytes a =
    if leb offset a && ltb a (offset + len) then buffer (a - offset) else bytes a

-- `PreadCache` into a buffer; a short or refused read is a failure for every caller.
unfoldable pub pread_cache : ℕ → ℕ → Action (ℕ → ℕ)
pread_cache len offset = do
  pwrite_direct len offset (λ d. d)
  gets (λ s i. s.dev.bytes (offset + i))

-- `PwriteCache` from a buffer.
unfoldable pub pwrite_cache : ℕ → ℕ → (ℕ → ℕ) → Action (Unit {0})
pwrite_cache len offset buffer =
    pwrite_direct len offset (λ d. record d { bytes = write_bytes len buffer offset d.bytes })

-- `PreadDirect`: through the descriptor that was opened with O_DIRECT.
unfoldable pread_direct : ℕ → ℕ → Action (ℕ → ℕ)
pread_direct len offset = do
  pwrite_direct len offset (λ d. d)
  gets (λ s i. s.dev.bytes (offset + i))
