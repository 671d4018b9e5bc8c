-- ===== src/Log.antt =====
-- source/core/log.c: the cut of a line to its buffer, the level and suspension of the log, and the
-- rotation of its file. The printed head and message are given, as long as `snprintf` says they are.
pub mod Bounds
use sys_autopilot.Base.{
  ℕ, zero, suc, ◌+◌, ◌-◌, ◌*◌, ◌≤◌, ◌<◌, ◌≡◌, Bool, true, false, not, ◌&&◌, ◌||◌, List, [], ◌∷◌,
  ◌++◌, length, take, ltb, leb, ◌==◌, if◌then◌else◌, length-take, if_both, length-append, arith,
}
use sys_autopilot.Base.Text.{Bytes}

-- LOG_FILE_SIZE_MAX
abbrev pub log_file_size_max : ℕ
log_file_size_max = 256 * 1024

-- The line in a buffer of `size` bytes.
unfoldable pub log_format_line : ℕ → Bytes → Bytes → Bytes
log_format_line size head message =
    let room = size - 1 in
    let len = (if ltb (length head) room then length head else room - 1) in
    if ltb size 2
    then []
    else if ltb len (room - 1)
    then take len head ++ take (room - len - 1) message ++ (10 ∷ [])
    else take len head ++ (10 ∷ [])

-- A level is its number, 0 for debug and 4 for off. A file is none or its bytes.
pub record LogState : Type 0 where
  pub level : ℕ
  pub suspended : Bool
  pub file : Bytes
  pub old_file : Bytes

abbrev pub log_level_off : ℕ
log_level_off = 4

unfoldable pub rotate : LogState → LogState
rotate st = record st { file = []; old_file = st.file }

unfoldable pub log_set_level : LogState → ℕ → LogState
log_set_level st level =
    let st' = record st { level = level } in
    if level == log_level_off || st.suspended
    then st'
    else if leb log_file_size_max (length st.file)
    then rotate st'
    else st'

abbrev pub log_set_suspended : LogState → Bool → LogState
log_set_suspended st suspended = record st { suspended = suspended }

-- `opens` is whether the file can be opened.
unfoldable pub log_write : LogState → Bool → ℕ → Bytes → Bytes → LogState
log_write st opens level head message =
    let written = st.file ++ log_format_line 512 head message in
    let st' = record st { file = written } in
    if ltb level st.level || st.level == log_level_off || st.suspended || not opens
    then st
    else if leb log_file_size_max (length written)
    then rotate st'
    else st'
