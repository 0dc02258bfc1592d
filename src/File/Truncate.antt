-- ===== src/File/Truncate.antt =====
-- `File::ShrinkFile` (lib/file.cc) for a file that is cut to nothing: the new record, and the whole.
pub mod Finish
pub mod Split
pub mod Emptied
pub mod Entered
pub mod Whole
