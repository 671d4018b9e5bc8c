-- ===== src/Jstream/Bounds.antt =====
-- The arrays and buffers of source/features/mcp/jstream.c, and the states that keep within them.
use sys_autopilot.Base.{ℕ, ◌≤◌, ◌≡◌, length, arith}
use sys_autopilot.Jstream.{Jstream, jstream_init, key_complete}

-- The depth is an index of both arrays, the key fits `key` with its NUL, and the document fits the
-- buffer that `jstream_init` was given.
pub record IsValid (cap : ℕ) (js : Jstream) : Type 0 where
  pub depth_le : js.depth ≤ 15
  pub on_path_size : length js.on_path ≡ 16
  pub is_obj_size : length js.is_obj ≡ 16
  pub key_le : length js.key ≤ 39
  pub same_cap : js.doc_cap ≡ cap
  pub doc_le : length js.doc ≤ cap

module _ (cap : ℕ) (js : Jstream) (v : IsValid cap js) where
  key_complete-IsValid : IsValid cap (key_complete js)
  unfolding key_complete
  key_complete-IsValid = ground (arith, v)

pub jstream_init-IsValid : (cap : ℕ) → IsValid cap (jstream_init cap)
jstream_init-IsValid cap = omega arith
