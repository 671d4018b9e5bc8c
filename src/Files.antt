-- ===== src/Files.antt =====
-- source/features/files/files.c: paths, ranges and the search of the wait. A file is the list of its
-- bytes; `fread` gives what is left up to the room, and less only at the end, as C says.
pub mod Resolve
pub mod Search
pub mod Disk
use sys_autopilot.Base.{
  ℕ, zero, suc, ◌+◌, ◌-◌, Bool, true, false, not, ◌&&◌, ◌||◌, ◌⊎◌, inl, inr, Option, none, some,
  List, [], ◌∷◌, ◌++◌, length, take, drop, ltb, leb, ◌==◌, if◌then◌else◌,
}
use sys_autopilot.Base.Text.{Bytes, codes, streq, starts_with}

-- What `*err` is set to.
pub data FilesError : Type 0 where
  missing_path : FilesError
  not_absolute : FilesError
  path_traversal : FilesError
  path_too_long : FilesError
  no_such_file : FilesError
  directory_not_empty : FilesError
  rmdir_failed : FilesError
  delete_failed : FilesError
  destination_exists : FilesError
  move_failed : FilesError

-- FILES_ROOT
abbrev pub files_root : Bytes
files_root = codes "sdmc:"

-- p[2] == '\0' || p[2] == '/'
unfoldable pub segment_ends : Bytes → Bool
segment_ends [] = true
segment_ends (c ∷ cs) = c == b'/'

-- The loop over the places of "..", with the character before the text; a match is stepped over.
unfoldable pub traversal_loop : ℕ → Bytes → Bool
traversal_loop before [] = false
traversal_loop before (a ∷ []) = false
traversal_loop before (a ∷ b ∷ rest) = elim (a == b'.' && b == b'.') as (λ _. Bool) [
  | true ↦ before == b'/' && segment_ends rest || traversal_loop b rest
  | false ↦ traversal_loop a (b ∷ rest)
]

unfoldable pub files_resolve : Bytes → ℕ → FilesError ⊎ Bytes
files_resolve [] outsz = inl missing_path
files_resolve (c ∷ cs) outsz =
    if not (c == b'/')
    then inl not_absolute
    else if traversal_loop b'/' (c ∷ cs)
    then inl path_traversal
    else if leb outsz (length (files_root ++ (c ∷ cs)))
    then inl path_too_long
    else inr (files_root ++ (c ∷ cs))

-- A `long long`: `pos n` is n, `negsuc n` is -(n + 1).
pub data ℤ : Type 0 where
  pos : ℕ → ℤ
  negsuc : ℕ → ℤ

-- `*offset` made a place in the file.
unfoldable pub clamp_offset : ℕ → ℤ → ℕ
clamp_offset fsize (pos n) = if ltb fsize n then fsize else n
clamp_offset fsize (negsuc n) = fsize - suc n

unfoldable pub clamp_length : ℕ → ℤ → ℕ
clamp_length avail (pos n) = if ltb avail n then avail else n
clamp_length avail (negsuc n) = avail

unfoldable pub files_clamp_range : ℕ → ℤ → ℤ → ℕ × ℕ
files_clamp_range fsize offset len =
    let start = clamp_offset fsize offset in (start, clamp_length (fsize - start) len)

-- `mem_find` from each place on.
unfoldable pub mem_find : Bytes → Bytes → Bool
mem_find [] needle = starts_with [] needle
mem_find (c ∷ hay) needle = starts_with (c ∷ hay) needle || mem_find hay needle

-- The loop of `search_file`, with the bytes kept in `buf` and those that are left in the file. Each
-- round but the last reads a byte at least.
unfoldable pub search_loop : ℕ → Bytes → Bytes → Bytes → ℕ → Bool
search_loop zero kept left needle bufsz = false
search_loop (suc fuel) kept [] needle bufsz = false
search_loop (suc fuel) kept (c ∷ left) needle bufsz =
    let room = bufsz - length kept in
    let chunk = kept ++ take room (c ∷ left) in
    let keep =
      (if ltb (length needle - 1) (length chunk) then length needle - 1 else length chunk) in
    let rest =
      search_loop fuel (drop (length chunk - keep) chunk) (drop room (c ∷ left)) needle bufsz in
    if room == 0 then false else if mem_find chunk needle then true else rest

-- `none` is a file that does not open.
unfoldable pub search_file : Option Bytes → ℕ → Bytes → ℕ → Bool
search_file none from needle bufsz = false
search_file (some file) from needle bufsz =
    let off = (if ltb (length needle - 1) from then from - (length needle - 1) else 0) in
    search_loop (suc (length file)) [] (drop off file) needle bufsz
