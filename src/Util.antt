-- ===== src/Util.antt =====
-- pkg/util/strings and pkg/ptr: functions on lists of strings and on pointers.
pub mod Address
pub mod Reflect
pub mod Strings
pub mod Ptr
pub mod File
