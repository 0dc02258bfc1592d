-- ===== src/State/Errno.antt =====
-- The error numbers that the program sets. Two of its settings join numbers by a bitwise or.
use blockfs.Prelude.{ℕ}
use Prim.Native.Nat.{bit_or}

abbrev eperm : ℕ
eperm = 1

abbrev pub enoent : ℕ
enoent = 2

abbrev pub ebadf : ℕ
ebadf = 9

abbrev pub eacces : ℕ
eacces = 13

abbrev pub ebusy : ℕ
ebusy = 16

abbrev pub eexist : ℕ
eexist = 17

abbrev pub enotdir : ℕ
enotdir = 20

abbrev pub eisdir : ℕ
eisdir = 21

abbrev pub einval : ℕ
einval = 22

abbrev pub enfile : ℕ
enfile = 23

abbrev pub emfile : ℕ
emfile = 24

abbrev pub enametoolong : ℕ
enametoolong = 36

abbrev pub enolck : ℕ
enolck = 37

abbrev enotempty : ℕ
enotempty = 39

abbrev pub eperm_or_ebusy : ℕ
eperm_or_ebusy = bit_or eperm ebusy

abbrev pub enotempty_or_eexist : ℕ
enotempty_or_eexist = bit_or enotempty eexist
