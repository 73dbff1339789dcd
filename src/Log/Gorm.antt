-- ===== src/Log/Gorm.antt =====
-- pkg/log/gorm.go: the logger as the one of gorm. A duration is a number of nanoseconds.
pub mod Traces
use public_pkg.Common.{
  ℕ, Bool, true, false, ◌&&◌, String, List, [], ◌∷◌, ◌++◌, Option, none, some, str_eq, ltb, leb,
  if◌then◌else◌,
}
use public_pkg.Common.Int.{ℤ, pos, negsuc, eqb_ℤ, leb_ℤ}
use public_pkg.Log.{Options, Zap, ZapLogger, Entry, formatted, Level, info, warn, error, new_logger}

-- The levels of gorm: 1 is silent, 2 error, 3 warn, 4 info. A missing key of `levelM` reads as 0.
abbrev pub level_m : String → ℕ
level_m level =
    if str_eq level "panic"
    then 1
    else if str_eq level "error"
    then 2
    else if str_eq level "warn"
    then 3
    else if str_eq level "info"
    then 4
    else 0

abbrev pub slow_threshold : ℕ
slow_threshold = 200_000_000

-- The options of `LogMode`, for a level of gorm.
abbrev pub mode_options : Options → ℤ → Options
mode_options opts level =
    if leb_ℤ level (pos 1)
    then record opts { level = "panic" }
    else if leb_ℤ level (pos 2)
    then record opts { level = "error" }
    else if leb_ℤ level (pos 3)
    then record opts { level = "warn" }
    else if leb_ℤ level (pos 4)
    then record opts { level = "info" }
    else opts

-- What a statement did: its text, the rows that it affected, -1 where that is unknown.
pub record Done : Type 0 where
  pub sql : String
  pub rows : ℤ

-- A report of `Trace`: of an error, of a slow statement, or of any. Unknown rows are `none`.
pub data Report (F : Type 0) : Type 0 where
  failed : F → ℕ → Option ℤ → String → Report F
  slow : ℕ → Option ℤ → String → Report F
  traced : ℕ → Option ℤ → String → Report F

abbrev pub known : ℤ → Option ℤ
known rows = if eqb_ℤ rows (negsuc 0) then none else some rows

-- The third case of the `switch` of `Trace`, the second one before it, and the first, at a level of gorm.
abbrev pub trace_all : {F : Type 0} → ℕ → ℕ → Done → Option (Report F)
trace_all level elapsed d = if leb 4 level then some (traced elapsed (known d.rows) d.sql) else none

abbrev pub trace_slow : {F : Type 0} → ℕ → ℕ → Done → Option (Report F)
trace_slow level elapsed d =
    if ltb slow_threshold elapsed && leb 3 level
    then some (slow elapsed (known d.rows) d.sql)
    else trace_all level elapsed d

abbrev pub trace_failed : {F : Type 0} → ℕ → ℕ → Option F → Done → Option (Report F)
trace_failed level elapsed none d = trace_slow level elapsed d
trace_failed level elapsed (some e) d =
    if leb 2 level then some (failed e elapsed (known d.rows) d.sql) else trace_slow level elapsed d

abbrev pub trace_at : {F : Type 0} → ℕ → ℕ → Option F → Done → Option (Report F)
trace_at level elapsed e d = if leb level 1 then none else trace_failed level elapsed e d

-- `Trace` of a logger with a level's name.
unfoldable pub trace : {F : Type 0} → String → ℕ → Option F → Done → Option (Report F)
trace level elapsed e d = trace_at (level_m level) elapsed e d

module _ (z : Zap) (Ctx : Type 0) where
  -- `LogMode`
  unfoldable pub log_mode : ZapLogger z Ctx → ℤ → Option (ZapLogger z Ctx)
  unfolding new_logger
  log_mode l level = new_logger z Ctx (some (mode_options l.opts level)) []

  -- `Info`, `Warn` and `Error`; `line` is `fileWithLineNum`, and `append` joins the format's texts.
  unfoldable pub gorm_log :
      (String → String → String)
      → z.Arg
      → ZapLogger z Ctx
      → Level
      → String
      → List z.Arg
      → List (Entry z)
  gorm_log append line l info msg keyvals =
      formatted l.zap info (append "%s[info] " msg) (line ∷ keyvals) ∷ []
  gorm_log append line l warn msg keyvals =
      formatted l.zap warn (append "%s[warn] " msg) (line ∷ keyvals) ∷ []
  gorm_log append line l error msg keyvals =
      formatted l.zap error (append "%s[error] " msg) (line ∷ keyvals) ∷ []
  gorm_log append line l level msg keyvals = []

-- The frames of the call stack that `fileWithLineNum` looks at: a file that is no test, with its line.
unfoldable pub file_with_line_num :
    {F : Type 0} → (String → Bool) → (String → ℕ → F) → List (Option (String × ℕ)) → Option F
file_with_line_num is_test format [] = none
file_with_line_num is_test format (none ∷ frames) = file_with_line_num is_test format frames
file_with_line_num is_test format (some (file, line) ∷ frames) =
    let rest = file_with_line_num is_test format frames in
    if is_test file then rest else some (format file line)
