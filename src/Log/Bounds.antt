-- ===== src/Log/Bounds.antt =====
-- The sizes of the lines and files that source/core/log.c writes.
use sys_autopilot.Base.{
  ℕ, ◌+◌, ◌-◌, ◌≤◌, ◌<◌, Bool, [], ◌∷◌, ◌++◌, length, take, ltb, if◌then◌else◌, length-take,
  if_both, length-append, arith,
}
use sys_autopilot.Base.Text.{Bytes}
use sys_autopilot.Log.{LogState, log_file_size_max, log_format_line, log_write, rotate}

-- A line of any head and message fits its buffer of two bytes or more, with the terminator.
pub length-log_format_line :
    (size : ℕ) (head message : Bytes) → 2 ≤ size → length (log_format_line size head message) < size
unfolding log_format_line
length-log_format_line size head message h =
    if_both (λ (s : Bytes). length s < size) (ltb size 2) (omega (arith, h))
      (if_both (λ (s : Bytes). length s < size) (ltb len (room - 1))
        (omega (
          arith,
          h,
          len_le,
          length-take len head,
          length-take (room - len - 1) message,
          length-append (take len head ++ take (room - len - 1) message) (10 ∷ []),
          length-append (take len head) (take (room - len - 1) message),
        ))
        (omega (arith, h, len_le, length-take len head, length-append (take len head) (10 ∷ []))))
  where
    room : ℕ
    room = size - 1

    len : ℕ
    len = if ltb (length head) room then length head else room - 1

    len_le : len ≤ room - 1
    len_le = ground arith

-- From a log below the size limit and an old one below a line more, whatever is logged keeps both
-- files within those sizes.
pub log_write_bounded :
    (st : LogState) (opens : Bool) (level : ℕ) (head message : Bytes)
    → length st.file < log_file_size_max
    → length st.old_file < log_file_size_max + 512
    → let st' = log_write st opens level head message in
      (length st'.file < log_file_size_max) × (length st'.old_file < log_file_size_max + 512)
unfolding log_write rotate
log_write_bounded st opens level head message h k = ground (
  arith,
  h,
  k,
  length-log_format_line 512 head message (omega arith),
  length-append st.file (log_format_line 512 head message),
)
