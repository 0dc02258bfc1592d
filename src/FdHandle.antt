-- ===== src/FdHandle.antt =====
-- lib/fd_handle.h: the pool of file descriptors, a list that is popped at the front and pushed at
-- the back.
pub mod Laws
use blockfs.Prelude.{
  ℕ, zero, suc, ◌*◌, List, [], ◌∷◌, ◌++◌, Option, none, some, ltb, leb, if◌then◌else◌, Bool, not,
  ◌+◌, ◌-◌, ◌%◌, u32, u64,
}
use blockfs.Meta.{k_max_file_num}

pub record FdHandle : Type 0 where
  pub max_fd_num : ℕ
  pub free_fd_pool : List ℕ

-- lo, lo + 1, ..., lo + n - 1.
unfoldable pub range_from : ℕ → ℕ → List ℕ
range_from lo zero = []
range_from lo (suc n) = lo ∷ range_from (suc lo) n

-- The constructor: every descriptor below `max_fd_num` is free.
unfoldable pub new_fd_handle : ℕ → FdHandle
new_fd_handle max_fd_num = record {
  max_fd_num = max_fd_num;
  free_fd_pool = range_from 0 max_fd_num;
}

-- `kMaxFileNum << 1`.
abbrev pub default_max_fd_num : ℕ
default_max_fd_num = k_max_file_num * 2

-- `none` is the result -1 with errno EMFILE.
unfoldable pub get_fd : FdHandle → Option ℕ × FdHandle
get_fd h = elim h.free_fd_pool [
  | [] ↦ (none, h)
  | fd ∷ rest ↦ (some fd, record h { free_fd_pool = rest })
]

-- The guard lets the descriptor `max_fd_num` itself through.
unfoldable pub put_fd : FdHandle → ℕ → FdHandle
put_fd h fd =
    if ltb h.max_fd_num fd then h else record h { free_fd_pool = h.free_fd_pool ++ fd ∷ [] }

-- An entry of 2^64 - k stands for the int -k.
abbrev pub is_negative : ℕ → Bool
is_negative fd = leb (u64 - 2147483648) fd

-- `put_fd` of a 64-bit number, which becomes an int: a negative one passes the guard. The greatest
-- descriptor is itself an int, so a number up to it is its own int.
unfoldable pub put_unsigned : FdHandle → ℕ → FdHandle
put_unsigned h fd =
    let low = fd % u32 in
    if not (ltb h.max_fd_num fd)
    then put_fd h fd
    else if ltb low 2147483648
    then put_fd h low
    else record h { free_fd_pool = h.free_fd_pool ++ (u64 - u32 + low) ∷ [] }
