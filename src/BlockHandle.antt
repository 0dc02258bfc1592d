-- ===== src/BlockHandle.antt =====
-- lib/block_handle.h and lib/block_handle.cc: the pool of free block ids. The unordered set is a
-- list in its iteration order; a new id comes to the front, and an id that is there stays.
pub mod Counts
pub mod Laws
use blockfs.Prelude.{
  ℕ, zero, suc, ◌-◌, List, [], ◌∷◌, Option, none, some, Bool, true, false, ◌==◌, ltb, if◌then◌else◌,
  length, take, drop,
}

pub record BlockHandle : Type 0 where
  pub max_block_num : ℕ
  pub block_id_pool : List ℕ

abbrev empty_block_handle : BlockHandle
empty_block_handle = record { max_block_num = 0; block_id_pool = [] }

-- `unordered_set::contains`, `emplace` and `erase`.
abbrev pub set_contains : ℕ → List ℕ → Bool
set_contains a [] = false
set_contains a (x ∷ xs) = if a == x then true else set_contains a xs

abbrev pub set_emplace : ℕ → List ℕ → List ℕ
set_emplace a xs = if set_contains a xs then xs else a ∷ xs

abbrev pub set_erase : ℕ → List ℕ → List ℕ
set_erase a [] = []
set_erase a (x ∷ xs) = if a == x then xs else x ∷ set_erase a xs

-- The loop of `emplace` over the ids lo, lo + 1, ..., lo + n - 1.
unfoldable pub emplace_range : ℕ → ℕ → List ℕ → List ℕ
emplace_range lo zero pool = pool
emplace_range lo (suc n) pool = emplace_range (suc lo) n (set_emplace lo pool)

-- Adds the ids from the old bound up to the superblock's `curr_block_num`.
unfoldable pub initialize_meta : ℕ → BlockHandle → BlockHandle
initialize_meta new_max h = record {
  max_block_num = new_max;
  block_id_pool = emplace_range h.max_block_num (new_max - h.max_block_num) h.block_id_pool;
}

unfoldable pub get_free_block_num : BlockHandle → ℕ
get_free_block_num h = length h.block_id_pool

-- Takes an id that a loaded file block holds out of the pool; false if it is not in the pool.
unfoldable pub get_specific_block_id : BlockHandle → ℕ → Bool × BlockHandle
get_specific_block_id h block_id =
    if set_contains block_id h.block_id_pool
    then (true, record h { block_id_pool = set_erase block_id h.block_id_pool })
    else (false, h)

-- Takes the first ids in iteration order; `none` is the result false, with the pool as it was.
unfoldable pub get_free_block_id_lock : BlockHandle → ℕ → Option (List ℕ) × BlockHandle
get_free_block_id_lock h block_id_num =
    if ltb (length h.block_id_pool) block_id_num then (none, h) else (
      some (take block_id_num h.block_id_pool),
      record h { block_id_pool = drop block_id_num h.block_id_pool },
    )

-- Puts one id back.
unfoldable pub put_free_block_id : BlockHandle → ℕ → BlockHandle
put_free_block_id h block_id = record h { block_id_pool = set_emplace block_id h.block_id_pool }

unfoldable pub emplace_all : List ℕ → List ℕ → List ℕ
emplace_all [] pool = pool
emplace_all (id ∷ ids) pool = emplace_all ids (set_emplace id pool)

-- Puts a list of ids back; an empty list is refused.
unfoldable pub put_free_block_id_lock : BlockHandle → List ℕ → Bool × BlockHandle
put_free_block_id_lock h block_ids = elim block_ids [
  | [] ↦ (false, h)
  | id ∷ ids ↦ (true, record h { block_id_pool = emplace_all (id ∷ ids) h.block_id_pool })
]
