-- ===== src/Device/Open/Search.antt =====
-- What the search for a device finds and which descriptors it leaves open (`OpenTarget` of
-- lib/file_system.cc over `Device::Open` and `Device::Close` of lib/device.cc).
use blockfs.Prelude.{
  ℕ, ◌≡◌, ◌∙◌, refl, ap, List, [], ◌∷◌, ◌++◌, Option, none, some, Bool, true, false, not, ◌==◌,
  ◌||◌, ◌&&◌, arith, Bool-cases, inl, inr,
}
use blockfs.State.{Device}
use blockfs.Device.Open.{
  size_of, holds_uuid, Node, Holder, dev_prefix, is_refused, opened_fds, read_sizes, open_cache,
  open_direct, open_device, close_fd, close_held, close_device, has_uuid, open_target, can_open,
  is_some, first_match, outcome, node_found,
}

open_device-can_open :
    (node : Node) (s : Holder) → (open_device node (dev_prefix ++ node.entry) s).0 ≡ can_open node
unfolding open_device open_direct open_cache read_sizes
open_device-can_open node s = ground arith

open_device-found :
    (node : Node) (s : Holder)
    → can_open node ≡ true
    → outcome (true, (open_device node (dev_prefix ++ node.entry) s).1) ≡ node_found (some node)
unfolding open_device open_direct open_cache read_sizes
open_device-found node s h = ground arith

-- The device that is open is read where the node's device is.
has_uuid-holds_uuid :
    (wanted : List ℕ) (stored : List ℕ → Device) (node : Node) (s : Holder)
    → can_open node ≡ true
    → let opened = (open_device node (dev_prefix ++ node.entry) s).1 in
      has_uuid wanted opened.dev_size (stored opened.dev_name) ≡ holds_uuid wanted stored node
unfolding open_device open_direct open_cache read_sizes
has_uuid-holds_uuid wanted stored node s opens =
    let opened = (open_device node (dev_prefix ++ node.entry) s).1 in
    let size : opened.dev_size ≡ size_of node = ground arith in
    let name : opened.dev_name ≡ dev_prefix ++ node.entry = ground arith in
    λ i. has_uuid wanted (size i) (stored (name i))

pub open_target-first :
    (wanted : List ℕ) (stored : List ℕ → Device) (nodes : List Node) (s : Holder)
    → outcome (open_target wanted stored nodes s) ≡ node_found (first_match wanted stored nodes)
unfolding open_target first_match
open_target-first wanted stored [] s = refl
open_target-first wanted stored (node ∷ nodes) s =
    let name = dev_prefix ++ node.entry in
    elim (Bool-cases (can_open node)) [
      | inr shut ↦
          rw (open_device-can_open node s ∙ shut)
            (rw shut (open_target-first wanted stored nodes (open_device node name s).1))
      | inl opens ↦ rw (open_device-can_open node s ∙ opens) (
          rw opens (elim (Bool-cases (holds_uuid wanted stored node)) [
            | inl same ↦
                rw (has_uuid-holds_uuid wanted stored node s opens ∙ same)
                  (rw same (open_device-found node s opens))
            | inr other ↦ rw (has_uuid-holds_uuid wanted stored node s opens ∙ other) (
                rw other (
                  open_target-first wanted stored nodes (close_device (open_device node name s).1)))
          ]))
    ]

-- A device that opens at both descriptors and tells its sizes, or is given up before the first
-- descriptor; no descriptor is 0.
abbrev is_above_zero : Option ℕ → Bool
is_above_zero none = true
is_above_zero (some fd) = not (fd == 0)

abbrev is_whole : Node → Bool
is_whole node =
    (can_open node
      || (is_refused (dev_prefix ++ node.entry)
          || (not node.is_blk_dev || not (is_some node.fd_direct))))
    && (is_above_zero node.fd_direct && is_above_zero node.fd_cache)

abbrev pub all_whole : List Node → Bool
all_whole [] = true
all_whole (node ∷ nodes) = is_whole node && all_whole nodes

open_device-shut_fds :
    (node : Node) (s : Holder)
    → is_whole node ≡ true
    → can_open node ≡ false
    → (open_device node (dev_prefix ++ node.entry) s).1.open_fds ≡ s.open_fds
unfolding open_device open_direct open_cache read_sizes
open_device-shut_fds node s whole shut = ground arith

open_device-opened_fds :
    (node : Node) (s : Holder)
    → can_open node ≡ true
    → (open_device node (dev_prefix ++ node.entry) s).1.open_fds
      ≡ opened_fds node.fd_cache (opened_fds node.fd_direct s.open_fds)
unfolding open_device open_direct open_cache read_sizes
open_device-opened_fds node s opens = ground arith

close_device-open_fds :
    (node : Node) (s : Holder)
    → is_whole node ≡ true
    → can_open node ≡ true
    → (close_device (open_device node (dev_prefix ++ node.entry) s).1).open_fds ≡ s.open_fds
unfolding close_device close_held close_fd open_device open_direct open_cache read_sizes
close_device-open_fds node s whole opens = ground arith

-- The descriptors of a device that was found.
unfoldable pub found_fds : Option Node → List ℕ → List ℕ
found_fds none fds = fds
found_fds (some node) fds = opened_fds node.fd_cache (opened_fds node.fd_direct fds)

-- Where every device either opens whole or is given up before its first descriptor, and no
-- descriptor is 0, a search leaves open the two descriptors of the device that it finds and no others.
pub open_target-open_fds :
    (wanted : List ℕ) (stored : List ℕ → Device) (nodes : List Node) (s : Holder)
    → all_whole nodes ≡ true
    → (open_target wanted stored nodes s).1.open_fds
      ≡ found_fds (first_match wanted stored nodes) s.open_fds
unfolding open_target first_match found_fds
open_target-open_fds wanted stored [] s whole = refl
open_target-open_fds wanted stored (node ∷ nodes) s whole =
    let name = dev_prefix ++ node.entry in
    let one : is_whole node ≡ true = ground arith in
    let others : all_whole nodes ≡ true = ground arith in
    elim (Bool-cases (can_open node)) [
      | inr shut ↦ rw (open_device-can_open node s ∙ shut) (
          rw shut (
            open_target-open_fds wanted stored nodes (open_device node name s).1 others
            ∙ ap (found_fds (first_match wanted stored nodes))
                (open_device-shut_fds node s one shut)))
      | inl opens ↦ rw (open_device-can_open node s ∙ opens) (
          rw opens (elim (Bool-cases (holds_uuid wanted stored node)) [
            | inl same ↦
                rw (has_uuid-holds_uuid wanted stored node s opens ∙ same)
                  (rw same (open_device-opened_fds node s opens))
            | inr other ↦ rw (has_uuid-holds_uuid wanted stored node s opens ∙ other) (
                rw other (
                  open_target-open_fds wanted stored nodes
                    (close_device (open_device node name s).1) others
                  ∙ ap (found_fds (first_match wanted stored nodes))
                      (close_device-open_fds node s one opens)))
          ]))
    ]
