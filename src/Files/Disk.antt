-- ===== src/Files/Disk.antt =====
-- `files_trim_slash`, `files_mkdirs_for`, `files_delete_path` and `files_move_path` of
-- source/features/files/files.c. The card answers as the record Disk says; the calls that change it
-- are listed in order.
use sys_autopilot.Base.{
  ◌+◌, ◌-◌, ◌≡◌, ◌≢◌, ◌↔◌, ◌⊎◌, Bool, true, false, not, ◌&&◌, ◌||◌, Option, none, some, List, [],
  ◌∷◌, ◌++◌, length, take, get_or, leb, ◌==◌, if◌then◌else◌, arith,
}
use sys_autopilot.Base.Text.{Bytes, codes, streq, streq_iff}
use sys_autopilot.Files.{
  FilesError, files_root, no_such_file, directory_not_empty, rmdir_failed, delete_failed,
  destination_exists, move_failed,
}

-- stat (whether it is a directory), readdir, and what the changing calls return.
pub record Disk : Type 0 where
  pub stat_dir : Bytes → Option Bool
  pub entries : Bytes → Option (List Bytes)
  pub rmdir_ok : Bytes → Bool
  pub remove_ok : Bytes → Bool
  pub rename_ok : Bytes → Bytes → Bool

pub data Change : Type 0 where
  mkdir : Bytes → Change
  rmdir : Bytes → Change
  remove : Bytes → Change
  rename : Bytes → Bytes → Change

-- The path, and whether it lost its last character.
unfoldable pub files_trim_slash : Bytes → Bytes × Bool
files_trim_slash path =
    if leb (length path) (length files_root + 1) || not (get_or path (length path - 1) 0 == b'/')
    then (path, false)
    else (take (length path - 1) path, true)

-- The loop behind the root's slash, with the text up to here.
unfoldable pub mkdirs_loop : Bytes → Bytes → List Change
mkdirs_loop front [] = []
mkdirs_loop front (c ∷ cs) =
    let rest = mkdirs_loop (front ++ (c ∷ [])) cs in if c == b'/' then mkdir front ∷ rest else rest

-- strchr(tmp, '/') + 1, on both sides.
unfoldable pub behind_slash : Bytes → Bytes → Option (Bytes × Bytes)
behind_slash front [] = none
behind_slash front (c ∷ cs) =
    let rest = behind_slash (front ++ (c ∷ [])) cs in
    if c == b'/' then some (front ++ (c ∷ []), cs) else rest

unfoldable pub files_mkdirs_for : Bytes → List Change
files_mkdirs_for path = elim (behind_slash [] (take 767 path)) as (λ _. List Change) [
  | none ↦ []
  | some halves ↦ mkdirs_loop halves.0 halves.1
]

-- No entry but "." and "..".
unfoldable pub only_dots : List Bytes → Bool
only_dots [] = true
only_dots (name ∷ names) = (streq name (codes ".") || streq name (codes "..")) && only_dots names

module _ (disk : Disk) where
  -- A directory that does not open counts as empty; `rmdir` then decides.
  unfoldable pub is_empty_dir : Bytes → Bool
  is_empty_dir path = elim (disk.entries path) as (λ _. Bool) [
    | none ↦ true
    | some names ↦ only_dots names
  ]

  unfoldable pub files_delete_path : Bytes → List Change × Option FilesError
  files_delete_path path = elim (disk.stat_dir path) as (λ _. List Change × Option FilesError) [
    | none ↦ ([], some no_such_file)
    | some dir ↦
        if dir
        then (if not (is_empty_dir path)
            then ([], some directory_not_empty)
            else (rmdir path ∷ [], if disk.rmdir_ok path then none else some rmdir_failed))
        else (remove path ∷ [], if disk.remove_ok path then none else some delete_failed)
  ]

  unfoldable pub files_move_path : Bytes → Bytes → List Change × Option FilesError
  files_move_path src dst = elim (disk.stat_dir src) as (λ _. List Change × Option FilesError) [
    | none ↦ ([], some no_such_file)
    | some _ ↦
        if streq src dst
        then ([], none)
        else elim (disk.stat_dir dst) as (λ _. List Change × Option FilesError) [
          | some _ ↦ ([], some destination_exists)
          | none ↦ (
            files_mkdirs_for dst ++ (rename src dst ∷ []),
            if disk.rename_ok src dst then none else some move_failed,
          )
        ]
  ]

module _ (disk : Disk) (src dst : Bytes) where
  -- A move succeeds exactly when the source exists and either is the destination, or the
  -- destination does not exist and the rename works.
  pub files_move_path_iff : ((files_move_path disk src dst).1 ≡ none) ↔ (
      (disk.stat_dir src ≢ none)
      × ((src ≡ dst) ⊎ ((disk.stat_dir dst ≡ none) × (disk.rename_ok src dst ≡ true))))
  unfolding files_move_path
  files_move_path_iff = ground (arith, streq_iff src dst)
