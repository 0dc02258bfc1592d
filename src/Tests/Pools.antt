-- ===== src/Tests/Pools.antt =====
-- The theorems on the pools of ids and descriptors, on the layout and on the transfer loop, at small
-- instances.
use blockfs.Prelude.{
  ℕ, ◌+◌, ◌*◌, ◌%◌, ◌<◌, ◌≤◌, ◌≡◌, ◌≢◌, ◌⊎◌, refl, List, [], ◌∷◌, none, some, true, count, length,
  arith,
}
use blockfs.Meta.{k_mega}
use blockfs.BlockHandle.{BlockHandle, get_free_block_id_lock}
use blockfs.BlockHandle.Laws.{IsPool, get_free_block_id_lock-partition}
use blockfs.FdHandle.{new_fd_handle, range_from, get_fd, put_fd}
use blockfs.FdHandle.Laws.{Reachable, started, opened, closed, Reachable-partition}
use blockfs.SuperBlock.{format_super_block, data_start}
use blockfs.SuperBlock.Layout.{format_super_block-layout}
use blockfs.Device.Loop.{
  Answer, moved, interrupted, going_on, wrap_full, Consecutive, meets_end, wrap_full-Consecutive,
  wrap_full-ends,
}

abbrev three : BlockHandle
three = record { max_block_num = 6; block_id_pool = 5 ∷ 0 ∷ 3 ∷ [] }

three-IsPool : IsPool three
three-IsPool = ((λ a. ground arith), (λ a l. ground arith))

get_free_block_id_lock-partition_example :
    let (ids, h') = get_free_block_id_lock three 2 in
    ((3 < 2) × (ids ≡ none) × (h' ≡ three))
    ⊎ ((2 ≤ 3)
        × (h'.max_block_num ≡ 6)
        × ((taken : List ℕ) × (ids ≡ some taken)
            × (length taken ≡ 2)
            × ((a : ℕ) → count a taken + count a h'.block_id_pool ≡ count a three.block_id_pool)))
get_free_block_id_lock-partition_example = get_free_block_id_lock-partition three 2

-- Two opens and a close, from a pool of three descriptors.
run : Reachable 3 (put_fd (record { max_fd_num = 3; free_fd_pool = 2 ∷ [] }) 0) (1 ∷ [])
unfolding new_fd_handle range_from get_fd
run =
    closed (record { max_fd_num = 3; free_fd_pool = 2 ∷ [] }) (1 ∷ []) [] 0
      (opened (record { max_fd_num = 3; free_fd_pool = 1 ∷ 2 ∷ [] })
        (record { max_fd_num = 3; free_fd_pool = 2 ∷ [] }) (0 ∷ []) 1
        (opened (new_fd_handle 3) (record { max_fd_num = 3; free_fd_pool = 1 ∷ 2 ∷ [] }) [] 0
          started refl)
        refl)

Reachable-partition_example :
    count 0 (1 ∷ [])
      + count 0 (put_fd (record { max_fd_num = 3; free_fd_pool = 2 ∷ [] }) 0).free_fd_pool
    ≡ 1
Reachable-partition_example =
    Reachable-partition 3 (put_fd (record { max_fd_num = 3; free_fd_pool = 2 ∷ [] }) 0) (1 ∷ []) run
      0

format_super_block-layout_example :
    let m = format_super_block 0 [] (data_start + 9 * k_mega) in
    (m.super_block_offset + m.super_block_size ≤ m.dir_meta_offset)
    × (m.dir_meta_size * m.max_file_num ≤ m.dir_meta_total_size)
    × (m.dir_meta_offset + m.dir_meta_total_size ≤ m.file_meta_offset)
    × (m.file_meta_size * m.max_file_num ≤ m.file_meta_total_size)
    × (m.file_meta_offset + m.file_meta_total_size ≤ m.file_block_meta_offset)
    × (m.file_block_meta_size * m.max_file_block_num ≤ m.file_block_meta_total_size)
    × (m.file_block_meta_offset + m.file_block_meta_total_size ≤ m.block_data_start_offset)
    × (m.block_data_start_offset % m.block_size ≡ 0)
    × (m.block_data_start_offset + m.block_size * m.curr_block_num ≤ data_start + 9 * k_mega)
    × (data_start + 9 * k_mega < m.block_data_start_offset + m.block_size * (m.curr_block_num + 1))
format_super_block-layout_example =
    format_super_block-layout 0 [] (data_start + 9 * k_mega) (omega arith) (omega arith)

abbrev ten : ℕ
ten = 10

abbrev answers : List Answer
answers = moved 4 ∷ interrupted ∷ moved 6 ∷ []

wrap_full-Consecutive_example :
    (0 ≤ 10)
    × Consecutive 0 100 (wrap_full answers 0 10 100 0).1 10
    × ((ten ≡ ten) ⊎ ((10 < 10) × (meets_end answers ≡ true)))
unfolding wrap_full
wrap_full-Consecutive_example =
    wrap_full-Consecutive answers 0 10 100 0 10 (omega arith) (omega arith, (omega arith, tt)) refl

wrap_full-ends_example : (wrap_full (interrupted ∷ moved 1 ∷ moved 0 ∷ []) 0 1 100 0).0 ≢ going_on
wrap_full-ends_example =
    wrap_full-ends (interrupted ∷ moved 1 ∷ moved 0 ∷ []) 0 1 100 0 (omega arith)
      (omega arith, (omega arith, tt)) (omega arith)
