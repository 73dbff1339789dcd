-- ===== src/Version.antt =====
-- pkg/util/version/version.go: version numbers, their parser and printer, and their order.
-- A version string is a list of bytes. A uint has 64 bits, and a component is kept below 2 ^ 64.
pub mod Parse
pub mod Print
pub mod Compare
pub mod Access
mod Examples
use public_pkg.Common.{ℕ, Bool, List}
use public_pkg.Text.{Bytes}

pub record Version : Type 0 where
  pub components : List ℕ
  pub semver : Bool
  pub pre_release : Bytes
  pub build_metadata : Bytes
