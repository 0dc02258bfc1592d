-- ===== src/Device/Open.antt =====
-- Opening and closing of a device (`Device::Open` and `Device::Close` of lib/device.cc) and the search
-- for the device of a file system (`FileSystem::OpenTarget` of lib/file_system.cc). The kernel's
-- answers come with each device, and what the devices store is a function of their names.
pub mod Search
use blockfs.Meta.{SuperBlockMeta, k_super_block_size, k_super_block_offset}
use blockfs.State.{Device, take_outcome}
use blockfs.Prelude.{
  ltb, ℕ, zero, suc, ◌+◌, refl, List, [], ◌∷◌, ◌++◌, Option, none, some, Bool, true, false, not,
  ◌==◌, ◌||◌, ◌&&◌, if◌then◌else◌, bytes_eq, is_empty, arith, inl, inr,
}

-- What the kernel answers about a device.
pub record Node : Type 0 where
  pub entry : List ℕ
  pub is_blk_dev : Bool
  pub fd_direct : Option ℕ
  pub fd_cache : Option ℕ
  pub blk_size : Option ℕ
  pub blk_sector : Option ℕ

-- A `Device` object, with the descriptors that the process has open on devices. A descriptor of the
-- object is `none` where the object holds -1.
pub record Holder : Type 0 where
  pub dev_name : List ℕ
  pub direct : Option ℕ
  pub cache : Option ℕ
  pub dev_size : ℕ
  pub sector_size : ℕ
  pub open_fds : List ℕ

abbrev pub dev_prefix : List ℕ
dev_prefix = b'/' ∷ b'd' ∷ b'e' ∷ b'v' ∷ b'/' ∷ []

-- The names that `Open` refuses.
unfoldable pub is_refused : List ℕ → Bool
is_refused name =
    is_empty name
    || bytes_eq name (dev_prefix ++ b's' ∷ b'd' ∷ b'a' ∷ [])
    || bytes_eq name (dev_prefix ++ b'v' ∷ b'd' ∷ b'a' ∷ [])
    || bytes_eq name (dev_prefix ++ b'.' ∷ [])
    || bytes_eq name (dev_prefix ++ b'.' ∷ b'.' ∷ [])

abbrev pub opened_fds : Option ℕ → List ℕ → List ℕ
opened_fds none fds = fds
opened_fds (some fd) fds = fd ∷ fds

-- `BlkDevGetSize` and `BlkDevGetSectorSize`.
unfoldable pub read_sizes : Node → Holder → Bool × Holder
read_sizes node s = elim node.blk_size [
  | none ↦ (false, s)
  | some size ↦ elim node.blk_sector [
    | none ↦ (false, record s { dev_size = size })
    | some sector ↦ (true, record s { dev_size = size; sector_size = sector })
  ]
]

-- The second open of `Open`, through the cache.
unfoldable pub open_cache : Node → Holder → Bool × Holder
open_cache node s =
    let next = record s { cache = node.fd_cache; open_fds = opened_fds node.fd_cache s.open_fds } in
    elim node.fd_cache [ none ↦ (false, next) | some fd ↦ read_sizes node next ]

-- The first open of `Open`, past the cache.
unfoldable pub open_direct : Node → Holder → Bool × Holder
open_direct node s =
    let next = record s {
      direct = node.fd_direct;
      open_fds = opened_fds node.fd_direct s.open_fds;
    } in
    elim node.fd_direct [ none ↦ (false, next) | some fd ↦ open_cache node next ]

-- `Device::Open`.
unfoldable pub open_device : Node → List ℕ → Holder → Bool × Holder
open_device node name s =
    let named = record s { dev_name = name } in
    if is_refused name
    then (false, s)
    else if node.is_blk_dev
    then open_direct node named
    else (false, named)

-- A descriptor is gone from the process.
unfoldable pub close_fd : ℕ → List ℕ → List ℕ
close_fd fd [] = []
close_fd fd (g ∷ fds) = let rest = g ∷ close_fd fd fds in if fd == g then fds else rest

-- A descriptor is closed where it is above 0.
unfoldable pub close_held : Option ℕ → List ℕ → List ℕ
close_held none fds = fds
close_held (some zero) fds = fds
close_held (some (suc fd)) fds = close_fd (suc fd) fds

abbrev held_after_close : Option ℕ → Option ℕ
held_after_close none = none
held_after_close (some zero) = some zero
held_after_close (some (suc fd)) = none

-- `Device::Close`.
unfoldable pub close_device : Holder → Holder
close_device s = record s {
  cache = held_after_close s.cache;
  direct = held_after_close s.direct;
  open_fds = close_held s.direct (close_held s.cache s.open_fds);
}

-- `PrefetchSuperMeta(meta)` on the device that is open: the super block that is stored there, where the
-- device has room for it and completes the read.
unfoldable pub stored_super_block : ℕ → Device → Option SuperBlockMeta
stored_super_block dev_size device =
    if ltb dev_size (k_super_block_offset + k_super_block_size)
    then none
    else if (take_outcome device.outcomes).0
    then some device.super_block
    else none

-- The super block can be read and has the uuid that is looked for.
abbrev pub has_uuid : List ℕ → ℕ → Device → Bool
has_uuid wanted dev_size device = elim (stored_super_block dev_size device) [
  | none ↦ false
  | some meta ↦ bytes_eq meta.uuid wanted
]

-- `OpenTarget`, over the entries of /sys/block in the order in which they are listed, with what is
-- stored on a device of a name.
unfoldable pub open_target : List ℕ → (List ℕ → Device) → List Node → Holder → Bool × Holder
open_target wanted stored [] s = (false, s)
open_target wanted stored (node ∷ nodes) s =
    let opened = open_device node (dev_prefix ++ node.entry) s in
    let skipped = open_target wanted stored nodes opened.1 in
    let closed = open_target wanted stored nodes (close_device opened.1) in
    if opened.0
    then if has_uuid wanted opened.1.dev_size (stored opened.1.dev_name)
      then (true, opened.1)
      else closed
    else skipped

abbrev pub is_some : {A : Type 0} → Option A → Bool
is_some none = false
is_some (some a) = true

-- An open of the device completes.
abbrev pub can_open : Node → Bool
can_open node =
    not (is_refused (dev_prefix ++ node.entry))
    && (node.is_blk_dev
        && (is_some node.fd_direct
            && (is_some node.fd_cache && (is_some node.blk_size && is_some node.blk_sector))))

abbrev pub size_of : Node → ℕ
size_of node = elim node.blk_size [ none ↦ 0 | some size ↦ size ]

-- The device of this entry stores a super block with the uuid.
abbrev pub holds_uuid : List ℕ → (List ℕ → Device) → Node → Bool
holds_uuid wanted stored node = has_uuid wanted (size_of node) (stored (dev_prefix ++ node.entry))

-- The first entry that opens and has the uuid.
unfoldable pub first_match : List ℕ → (List ℕ → Device) → List Node → Option Node
first_match wanted stored [] = none
first_match wanted stored (node ∷ nodes) =
    let later = first_match wanted stored nodes in
    if can_open node && holds_uuid wanted stored node then some node else later

-- What a search has found: the name and the sizes of the device that it leaves open.
abbrev Found : Type 0
Found = List ℕ × Option ℕ × Option ℕ × Option ℕ × Option ℕ

abbrev pub outcome : Bool × Holder → Option Found
outcome r =
    if r.0
    then some (r.1.dev_name, r.1.direct, r.1.cache, some r.1.dev_size, some r.1.sector_size)
    else none

abbrev pub node_found : Option Node → Option Found
node_found none = none
node_found (some node) =
    some (dev_prefix ++ node.entry, node.fd_direct, node.fd_cache, node.blk_size, node.blk_sector)
