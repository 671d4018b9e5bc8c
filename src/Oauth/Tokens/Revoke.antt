-- ===== src/Oauth/Tokens/Revoke.antt =====
-- What `oauth_revoke_token` of source/features/oauth/oauth.c leaves of tokens.txt and of the table.
use sys_autopilot.Base.{
  ℕ, zero, suc, ◌≡◌, ◌≢◌, refl, sym, ap, ◌∙◌, true, false, Option, some, List, [], ◌∷◌, All,
  if_both, arith, Bool-cases, inl, inr, subst,
}
use sys_autopilot.Base.Text.{Bytes, IsChar, streq, streq_refl}
use sys_autopilot.Sha256.{sha256_hash}
use sys_autopilot.Oauth.Tokens.{
  Store, File, file_lines, line_token, length_ok, load_loop, tokens_load, tokens_refresh,
  match_loop, oauth_token_valid, rewrite_lines, Answers, oauth_revoke_token,
}
use sys_autopilot.Oauth.Tokens.Digest.{IsDigest, Listed, match_loop_iff, length-sha256_hash}
use sys_autopilot.Oauth.Tokens.Lines.{without, file_lines-rewrite_lines}

load_loop-IsDigest : (room : ℕ) (lines : List Bytes) → All IsDigest (load_loop room lines)
unfolding load_loop
load_loop-IsDigest zero lines = tt
load_loop-IsDigest (suc room) [] = tt
load_loop-IsDigest (suc room) (line ∷ lines) =
    if_both (All IsDigest) (length_ok (line_token line))
      (length-sha256_hash (line_token line), load_loop-IsDigest room lines)
      (load_loop-IsDigest (suc room) lines)

-- No other token among the lines has the token's digest.
abbrev pub NoCollision : Bytes → List Bytes → Type 0
NoCollision token lines =
    All (λ line. sha256_hash token ≡ sha256_hash (line_token line) → token ≡ line_token line) lines

module _ (room : ℕ) (line : Bytes) (lines : List Bytes) where
  load_loop-kept :
      length_ok (line_token line) ≡ true
      → load_loop (suc room) (line ∷ lines) ≡ sha256_hash (line_token line) ∷ load_loop room lines
  unfolding load_loop
  load_loop-kept ok = rw ok refl

  load_loop-skipped :
      length_ok (line_token line) ≡ false
      → load_loop (suc room) (line ∷ lines) ≡ load_loop (suc room) lines
  unfolding load_loop
  load_loop-skipped bad = rw bad refl

load_loop-without :
    (token : Bytes) (room : ℕ) (lines : List Bytes)
    → NoCollision token lines
    → Listed (sha256_hash token) (load_loop room (without token lines))
    → ⊥
load_loop-without token zero lines n l = unfold load_loop in l
load_loop-without token (suc room) [] n l = unfold load_loop in l
load_loop-without token (suc room) (line ∷ lines) n l =
    elim (Bool-cases (streq (line_token line) token)) [
      | inl is ↦ load_loop-without token (suc room) lines n.1 (rw is at l)
      | inr other ↦
          kept other (rw other at l) (load_loop-without token room lines n.1)
            (load_loop-without token (suc room) lines n.1)
    ]
  where
    differs : streq (line_token line) token ≡ false → token ≢ line_token line
    differs other e =
        ground (arith, other, subst (λ (t : Bytes). streq t token ≡ true) e (streq_refl token))

    kept :
        streq (line_token line) token ≡ false
        → Listed (sha256_hash token) (load_loop (suc room) (line ∷ without token lines))
        → (Listed (sha256_hash token) (load_loop room (without token lines)) → ⊥)
        → (Listed (sha256_hash token) (load_loop (suc room) (without token lines)) → ⊥)
        → ⊥
    kept other m one two = elim (Bool-cases (length_ok (line_token line))) [
      | inl ok ↦ elim (rw (load_loop-kept room line (without token lines) ok) at m) [
        | inl e ↦ differs other (n.0 e)
        | inr more ↦ one more
      ]
      | inr bad ↦ two (rw (load_loop-skipped room line (without token lines) bad) at m)
    ]

-- A table just loaded stays as it is while the file does.
refresh-load :
    (file : File) (store : Store)
    → (tokens_refresh file (tokens_load file store)).digests ≡ (tokens_load file store).digests
unfolding tokens_refresh
refresh-load file store =
    let again : (tokens_load file (tokens_load file store)).digests
        ≡ (tokens_load file store).digests =
      (unfold tokens_load in refl) in
    if_both (λ (s : Store). s.digests ≡ (tokens_load file store).digests) _ refl again

load-digests :
    (time : Option ℕ) (bytes : Bytes) (store : Store)
    → (tokens_load (record { stat = time; bytes = some bytes }) store).digests
      ≡ load_loop 32 (file_lines bytes)
unfolding tokens_load
load-digests time bytes store = refl

module _ (card : Answers) (file : File) (token : Bytes) (store : Store) (bytes : Bytes) where
  kept_bytes : Bytes
  kept_bytes = rewrite_lines token (file_lines bytes)

  kept_file : File
  kept_file = record { stat = card.time; bytes = some kept_bytes }

  oauth_revoke_token_step :
      file.bytes ≡ some bytes
      → (oauth_revoke_token card file token store).0 ≡ true
      → oauth_revoke_token card file token store
        ≡ (true, some kept_bytes, tokens_load kept_file (oauth_token_valid file token store).1)
  unfolding oauth_revoke_token kept_file kept_bytes
  oauth_revoke_token_step b e = ground (arith, b, e)

  kept-lines : All IsChar bytes → file_lines kept_bytes ≡ without token (file_lines bytes)
  unfolding kept_bytes
  kept-lines a = file_lines-rewrite_lines token bytes a

  kept-digests :
      (before : Store)
      → (tokens_load kept_file before).digests ≡ load_loop 32 (file_lines kept_bytes)
  unfolding kept_file
  kept-digests before = load-digests card.time kept_bytes before

-- When `oauth_revoke_token` succeeds on a file without NUL bytes, tokens.txt then holds exactly the
-- lines whose first field is not the token, and the table is what `load_loop` makes of those lines, the
-- digests of the first 32 tokens of 16 to 64 characters among them.
pub oauth_revoke_token-without :
    (card : Answers) (file : File) (token : Bytes) (store : Store) (bytes : Bytes)
    → All IsChar bytes
    → file.bytes ≡ some bytes
    → (oauth_revoke_token card file token store).0 ≡ true
    → (kept : Bytes) × ((oauth_revoke_token card file token store).1 ≡ some kept)
      × (file_lines kept ≡ without token (file_lines bytes))
      × ((oauth_revoke_token card file token store).2.digests
          ≡ load_loop 32 (without token (file_lines bytes)))
oauth_revoke_token-without card file token store bytes a b e =
    rw (oauth_revoke_token_step card file token store bytes b e) (
      (
        kept_bytes card file token store bytes,
        refl,
        kept-lines card file token store bytes a,
        kept-digests card file token store bytes _
            ∙ ap (λ (t : List Bytes). load_loop 32 t) (kept-lines card file token store bytes a),
      ))

oauth_token_valid-short :
    (file : File) (token : Bytes) (store : Store)
    → length_ok token ≡ false
    → (oauth_token_valid file token store).0 ≡ false
unfolding oauth_token_valid
oauth_token_valid-short file token store bad = rw bad refl

oauth_token_valid-long :
    (file : File) (token : Bytes) (store : Store)
    → length_ok token ≡ true
    → (oauth_token_valid file token store).0
      ≡ match_loop false (sha256_hash token) (tokens_refresh file store).digests
unfolding oauth_token_valid
oauth_token_valid-long file token store ok = rw ok refl

oauth_token_valid-Listed :
    (file : File) (token : Bytes) (store : Store)
    → All IsDigest (tokens_refresh file store).digests
    → (oauth_token_valid file token store).0 ≡ true
    → Listed (sha256_hash token) (tokens_refresh file store).digests
oauth_token_valid-Listed file token store a e = elim (Bool-cases (length_ok token)) [
  | inl ok ↦
      (match_loop_iff (sha256_hash token) _ (length-sha256_hash token) a).0
        (sym (oauth_token_valid-long file token store ok) ∙ e)
  | inr bad ↦ absurd (ground (arith, sym (oauth_token_valid-short file token store bad) ∙ e))
]

-- When `oauth_revoke_token` succeeds on a file without NUL bytes in which no other token has the same
-- digest, the next check of the token refuses it, the file being as the revocation left it.
pub oauth_revoke_token-refused :
    (card : Answers) (file : File) (token : Bytes) (store : Store) (bytes : Bytes)
    → All IsChar bytes
    → NoCollision token (file_lines bytes)
    → file.bytes ≡ some bytes
    → (oauth_revoke_token card file token store).0 ≡ true
    → let after = oauth_revoke_token card file token store in
      let file' : File = record { stat = card.time; bytes = after.1 } in
      (oauth_token_valid file' token after.2).0 ≢ true
unfolding kept_file
oauth_revoke_token-refused card file token store bytes a n b e =
    rw (oauth_revoke_token_step card file token store bytes b e) refused
  where
    after : Store
    after =
        tokens_load (kept_file card file token store bytes) (oauth_token_valid file token store).1

    table :
        (tokens_refresh (kept_file card file token store bytes) after).digests
        ≡ load_loop 32 (without token (file_lines bytes))
    table =
        refresh-load (kept_file card file token store bytes) _
        ∙ kept-digests card file token store bytes _
        ∙ ap (λ (t : List Bytes). load_loop 32 t) (kept-lines card file token store bytes a)

    refused : (oauth_token_valid (kept_file card file token store bytes) token after).0 ≢ true
    refused v =
        let sizes = subst (All IsDigest) (sym table) (load_loop-IsDigest 32 _) in
        load_loop-without token 32 (file_lines bytes) n (
          subst (Listed (sha256_hash token)) table
            (oauth_token_valid-Listed (kept_file card file token store bytes) token after sizes v))
