-- ===== src/Oauth/Tokens/Table.antt =====
-- Which tokens source/features/oauth/oauth.c accepts after it has minted or revoked one.
use sys_autopilot.Base.{
  ℕ, ◌+◌, ◌≤◌, ◌<◌, ◌≡◌, ◌⊎◌, ◌↔◌, refl, sym, true, Option, some, List, [], ◌∷◌, ◌++◌, length, All,
  ltb, ==_iff, if◌then◌else◌, if_both, arith, Bool-cases, inl, inr, subst, All-append,
}
use sys_autopilot.Base.Text.{Bytes}
use sys_autopilot.Sha256.{sha256_hash, hex_encode}
use sys_autopilot.Oauth.Tokens.{
  Store, File, length_ok, tokens_refresh, oauth_token_valid, tokens_append, oauth_mint_token,
  token_line, max_tokens,
}
use sys_autopilot.Oauth.Tokens.Digest.{IsDigest, Listed, match_loop_iff, length-sha256_hash}

length-hex_encode : (bs : Bytes) → length (hex_encode bs) ≡ length bs + length bs
unfolding hex_encode
length-hex_encode [] = refl
length-hex_encode (b ∷ bs) = omega (arith, length-hex_encode bs)

length_ok-hex_encode : (rnd : Bytes) → length rnd ≡ 32 → length_ok (hex_encode rnd) ≡ true
unfolding length_ok
length_ok-hex_encode rnd h =
    let n : length (hex_encode rnd) ≡ 64 = omega (arith, length-hex_encode rnd, h) in rw n refl

tokens_refresh-same :
    (store : Store) (file : File) (time : ℕ)
    → file.stat ≡ some time
    → store.mtime ≡ time
    → tokens_refresh file store ≡ store
unfolding tokens_refresh
tokens_refresh-same store file time e f = rw e (rw ((==_iff time store.mtime).1 (sym f)) refl)

Listed-append :
    (digest d : Bytes) (ds : List Bytes)
    → Listed digest (ds ++ (d ∷ [])) ↔ (Listed digest ds ⊎ (digest ≡ d))
Listed-append digest d [] = (
  λ l. elim l [ inl e ↦ inr e | inr never ↦ absurd never ],
  λ l. elim l [ inl never ↦ absurd never | inr e ↦ inl e ],
)
Listed-append digest d (x ∷ ds) = (
  λ l. elim l [
    | inl e ↦ inl (inl e)
    | inr more ↦ elim ((Listed-append digest d ds).0 more) [
      | inl old ↦ inl (inr old)
      | inr e ↦ inr e
    ]
  ],
  λ l. elim l [
    | inl old ↦ elim old [
      | inl e ↦ inl e
      | inr more ↦ inr ((Listed-append digest d ds).1 (inl more))
    ]
    | inr e ↦ inr ((Listed-append digest d ds).1 (inr e))
  ],
)

valid-Listed :
    (file : File) (token : Bytes) (store : Store)
    → length_ok token ≡ true
    → All IsDigest (tokens_refresh file store).digests
    → ((oauth_token_valid file token store).0 ≡ true)
      ↔ Listed (sha256_hash token) (tokens_refresh file store).digests
unfolding oauth_token_valid
valid-Listed file token store ok a =
    rw ok (match_loop_iff (sha256_hash token) _ (length-sha256_hash token) a)

-- What the store has after the append.
unfoldable appended : List Bytes → Bytes → List Bytes
appended digests d = if ltb (length digests) max_tokens then digests ++ (d ∷ []) else digests

appended-IsDigest :
    (digests : List Bytes) (d : Bytes)
    → IsDigest d
    → All IsDigest digests
    → All IsDigest (appended digests d)
unfolding appended
appended-IsDigest digests d h a =
    if_both (All IsDigest) (ltb (length digests) max_tokens)
      (All-append IsDigest digests (d ∷ []) a (h, tt)) a

appended-Listed :
    (digests : List Bytes) (d : Bytes)
    → Listed d (appended digests d) ↔ ((length digests < 32) ⊎ Listed d digests)
unfolding appended
appended-Listed digests d = elim (Bool-cases (ltb (length digests) 32)) [
  | inl room ↦
      rw room ((λ l. inl (ground (arith, room)), λ l. (Listed-append d d digests).1 (inr refl)))
  | inr full ↦
      rw full
        ((λ l. inr l, λ l. elim l [ inl lt ↦ absurd (ground (arith, full, lt)) | inr old ↦ old ]))
]

module _ (stamp old rnd note : Bytes) (outsz time : ℕ) (store : Store) where
  minted : Store
  minted = record { digests = appended store.digests (sha256_hash (hex_encode rnd)); mtime = time }

  oauth_mint_token_step :
      65 ≤ outsz
      → oauth_mint_token true stamp (some time) old rnd outsz note store
        ≡ (some (hex_encode rnd), old ++ token_line (hex_encode rnd) stamp note, minted)
  unfolding oauth_mint_token tokens_append appended minted
  oauth_mint_token_step fits = ground (arith, fits)

  minted-Listed :
      (bytes : Option Bytes)
      → length rnd ≡ 32
      → All IsDigest store.digests
      → ((oauth_token_valid (record { stat = some time; bytes = bytes }) (hex_encode rnd) minted).0
          ≡ true)
        ↔ ((length store.digests < 32) ⊎ Listed (sha256_hash (hex_encode rnd)) store.digests)
  unfolding minted
  minted-Listed bytes h a =
      let file : File = record { stat = some time; bytes = bytes } in
      let same : tokens_refresh file minted ≡ minted =
        tokens_refresh-same minted file time refl refl in
      let d = sha256_hash (hex_encode rnd) in
      let table = appended-IsDigest store.digests d (length-sha256_hash (hex_encode rnd)) a in
      let valid : ((oauth_token_valid file (hex_encode rnd) minted).0 ≡ true)
          ↔ Listed d minted.digests =
        subst
          (λ (t : Store).
            All IsDigest t.digests
            → ((oauth_token_valid file (hex_encode rnd) minted).0 ≡ true) ↔ Listed d t.digests)
          same (valid-Listed file (hex_encode rnd) minted (length_ok-hex_encode rnd h)) table in
      let grown = appended-Listed store.digests d in
      (λ e. grown.0 (valid.0 e), λ l. valid.1 (grown.1 l))

-- A token that `oauth_mint_token` has handed out is accepted exactly when the table had a free entry,
-- or held the same digest before.
pub oauth_mint_token-valid_iff :
    (stamp old rnd note : Bytes) (outsz time : ℕ) (store : Store)
    → length rnd ≡ 32
    → 65 ≤ outsz
    → All IsDigest store.digests
    → let after = oauth_mint_token true stamp (some time) old rnd outsz note store in
      let file : File = record { stat = some time; bytes = some after.1 } in
      (after.0 ≡ some (hex_encode rnd))
      × (((oauth_token_valid file (hex_encode rnd) after.2).0 ≡ true)
          ↔ ((length store.digests < 32) ⊎ Listed (sha256_hash (hex_encode rnd)) store.digests))
oauth_mint_token-valid_iff stamp old rnd note outsz time store h fits a =
    rw (oauth_mint_token_step stamp old rnd note outsz time store fits)
      ((refl, minted-Listed stamp old rnd note outsz time store _ h a))
