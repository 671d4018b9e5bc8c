-- ===== src/Oauth/Tokens.antt =====
-- The token store of source/features/oauth/oauth.c. tokens.txt is its bytes, `none` when it does not
-- open, with the time of its last change; the random bytes and the note's time stamp are parameters.
pub mod Digest
pub mod Lines
pub mod Table
pub mod Revoke
use sys_autopilot.Base.{
  ℕ, zero, suc, ◌+◌, bit_or, bit_xor, Bool, true, false, not, ◌&&◌, ◌||◌, Option, none, some, List,
  [], ◌∷◌, ◌++◌, length, take, ltb, leb, ◌==◌, if◌then◌else◌,
}
use sys_autopilot.Base.Text.{Bytes, codes, c_str, streq}
use sys_autopilot.Sha256.{sha256_hash, hex_encode}
use sys_autopilot.Config.{fgets}

abbrev pub max_tokens : ℕ
max_tokens = 32

abbrev pub token_hex_len : ℕ
token_hex_len = 64

-- The loop of digest_eq: a byte's difference at each place.
unfoldable pub digest_diff : ℕ → Bytes → Bytes → ℕ
digest_diff diff [] b = diff
digest_diff diff (x ∷ a) [] = diff
digest_diff diff (x ∷ a) (y ∷ b) = digest_diff (bit_or diff (bit_xor x y)) a b

unfoldable pub digest_eq : Bytes → Bytes → Bool
digest_eq a b = digest_diff 0 a b == 0

-- g_tokens with g_token_count, and g_tokens_mtime.
pub record Store : Type 0 where
  pub digests : List Bytes
  pub mtime : ℕ

-- tokens.txt: what stat gives, and what fopen for reading gives.
pub record File : Type 0 where
  pub stat : Option ℕ
  pub bytes : Option Bytes

-- The lines that fgets gives until the file ends; each holds a byte at least, so the length is fuel
-- enough.
unfoldable pub lines_loop : ℕ → Bytes → List Bytes
lines_loop zero file = []
lines_loop (suc fuel) [] = []
lines_loop (suc fuel) (c ∷ file) =
    let (line, rest) = fgets 255 (c ∷ file) in line ∷ lines_loop fuel rest

unfoldable pub file_lines : Bytes → List Bytes
file_lines file = lines_loop (length file) file

unfoldable pub skip_blanks : Bytes → Bytes
skip_blanks [] = []
skip_blanks (c ∷ t) = if c == b' ' || c == 9 then skip_blanks t else c ∷ t

-- The characters in front of one of " \t\r\n#".
unfoldable pub first_field : Bytes → Bytes
first_field [] = []
first_field (c ∷ t) =
    if c == b' ' || c == 9 || c == 13 || c == 10 || c == b'#' then [] else c ∷ first_field t

unfoldable pub line_token : Bytes → Bytes
line_token line = first_field (skip_blanks (c_str line))

-- The length rule of tokens_load and of oauth_token_valid.
unfoldable pub length_ok : Bytes → Bool
length_ok token = not (ltb (length token) 16 || ltb token_hex_len (length token))

-- The loop of tokens_load, with `room` entries free.
unfoldable pub load_loop : ℕ → List Bytes → List Bytes
load_loop zero lines = []
load_loop (suc room) [] = []
load_loop (suc room) (line ∷ lines) =
    let skipped = load_loop (suc room) lines in
    let kept = load_loop room lines in
    if length_ok (line_token line) then sha256_hash (line_token line) ∷ kept else skipped

-- The time of the last change is noted even where the file does not open.
unfoldable pub tokens_load : File → Store → Store
tokens_load file store = record {
  digests = elim file.bytes as (λ _. List Bytes) [
    | none ↦ []
    | some bytes ↦ load_loop max_tokens (file_lines bytes)
  ];
  mtime = elim file.stat as (λ _. ℕ) [ none ↦ store.mtime | some time ↦ time ];
}

unfoldable pub tokens_refresh : File → Store → Store
tokens_refresh file store =
    let mtime = (elim file.stat as (λ _. ℕ) [ none ↦ 0 | some time ↦ time ]) in
    if mtime == store.mtime then store else tokens_load file store

-- The loop of oauth_token_valid over every entry.
unfoldable pub match_loop : Bool → Bytes → List Bytes → Bool
match_loop ok digest [] = ok
match_loop ok digest (d ∷ ds) = match_loop (if digest_eq digest d then true else ok) digest ds

unfoldable pub oauth_token_valid : File → Bytes → Store → Bool × Store
oauth_token_valid file token store =
    let store' = tokens_refresh file store in
    if length_ok token
    then (match_loop false (sha256_hash token) store'.digests, store')
    else (false, store')

-- The line that is appended; `stamp` is "" or " issued <date>".
unfoldable pub token_line : Bytes → Bytes → Bytes → Bytes
token_line token stamp note = token ++ codes " #" ++ stamp ++ (b' ' ∷ note) ++ (10 ∷ [])

-- The file opens for appending when `opens`; `time` is what stat gives behind the write.
unfoldable pub tokens_append :
    Bool → Bytes → Option ℕ → Bytes → Bytes → Bytes → Store → Bool × Bytes × Store
tokens_append opens stamp time old token note store =
    if opens
    then (
      true,
      old ++ token_line token stamp note,
      record {
        digests =
            if ltb (length store.digests) max_tokens
            then store.digests ++ (sha256_hash token ∷ [])
            else store.digests;
        mtime = elim time as (λ _. ℕ) [ none ↦ store.mtime | some t ↦ t ];
      },
    )
    else (false, old, store)

-- The token that is handed out, with the file and the store.
unfoldable pub oauth_mint_token :
    Bool → Bytes → Option ℕ → Bytes → Bytes → ℕ → Bytes → Store → Option Bytes × Bytes × Store
oauth_mint_token opens stamp time old rnd outsz note store =
    let (ok, file, store') = tokens_append opens stamp time old (hex_encode rnd) note store in
    if ltb outsz (token_hex_len + 1)
    then (none, old, store)
    else (if ok then some (hex_encode rnd) else none, file, store')

-- The lines kept, as they are written.
unfoldable pub rewrite_lines : Bytes → List Bytes → Bytes
rewrite_lines token [] = []
rewrite_lines token (line ∷ lines) =
    let rest = rewrite_lines token lines in
    if streq (line_token line) token then rest else c_str line ++ rest

-- What the calls on the card answer: fopen of the temporary file, rename over tokens.txt, and the
-- time that stat gives behind it.
pub record Answers : Type 0 where
  pub tmp_opens : Bool
  pub renamed : Bool
  pub time : Option ℕ

-- The result, tokens.txt and the store. When the rename fails tokens.txt is gone, the lines being in
-- the temporary file, and the store is as before.
unfoldable pub oauth_revoke_token : Answers → File → Bytes → Store → Bool × Option Bytes × Store
oauth_revoke_token card file token store =
    let (valid, store') = oauth_token_valid file token store in
    if not valid
    then (false, file.bytes, store')
    else elim file.bytes as (λ _. Bool × Option Bytes × Store) [
      | none ↦ (false, file.bytes, store')
      | some bytes ↦
          let rewritten = rewrite_lines token (file_lines bytes) in
          if not card.tmp_opens
          then (false, some bytes, store')
          else if not card.renamed
          then (false, none, store')
          else (
            true,
            some rewritten,
            tokens_load (record { stat = card.time; bytes = some rewritten }) store',
          )
    ]
