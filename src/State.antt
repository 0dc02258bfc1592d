-- ===== src/State.antt =====
-- The state that the objects of lib/ share through pointers and through `FileSystem::Instance()`,
-- and the actions on it. A pointer to a File or Directory object is its address in a heap; a pointer
-- to a metadata record is the number of its slot in the region at `base_addr`. A FileBlock object
-- is its slot number, since its index and its metadata pointer always belong together.
mod Errno
mod Monad
mod Laws
mod Frame
pub use Errno.*
unfoldable pub use Monad.*
pub use Laws.*
pub use Frame.*
