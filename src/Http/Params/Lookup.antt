-- ===== src/Http/Params/Lookup.antt =====
-- `http_param_get` of source/core/http.c against the list of pairs that a query string writes.
use sys_autopilot.Base.{
  ℕ, zero, suc, ◌+◌, ◌/◌, ◌%◌, ◌≤◌, ◌<◌, ◌≡◌, ◌≢◌, refl, ap, sym, ◌∙◌, true, not, ◌&&◌, Option,
  none, some, List, [], ◌∷◌, ◌++◌, length, length-append, All, All-append, drop, get_or, arith,
  Bool-cases, inl, inr, ◌==◌, if◌then◌else◌, append_assoc,
}
use sys_autopilot.Base.Tables.{all_below, all_below→at}
use sys_autopilot.Base.Text.{Bytes, IsByte, starts_with, streq, streq_iff}
use sys_autopilot.Json.Escape.{hex_digit}
use sys_autopilot.Http.Params.{split_amp, param_loop, http_param_get, url_decode}
use sys_autopilot.Http.Params.Decode.{
  is_unreserved, percent, percent_encoded, url_decode-percent_encoded,
}

-- No character that separates pairs, or a key from its value.
abbrev pub IsToken : Bytes → Type 0
IsToken = All (λ c. (c ≢ b'&') × (c ≢ b'='))

-- One pair as a form or a query string writes it.
abbrev pub pair_text : Bytes → Bytes → Bytes
pair_text k v = k ++ (b'=' ∷ percent_encoded v)

abbrev pub query_text : List (Bytes × Bytes) → Bytes
query_text [] = []
query_text ((k, v) ∷ []) = pair_text k v
query_text ((k, v) ∷ kv ∷ more) = pair_text k v ++ (b'&' ∷ query_text (kv ∷ more))

-- The decoded value of the first pair with that key.
abbrev pub first_value : Bytes → List (Bytes × Bytes) → Option Bytes
first_value key [] = none
first_value key ((k, v) ∷ more) = if streq k key then some v else first_value key more

-- Pairs whose keys need no escapes, and whose values fit the buffer.
pub record Fits (outsz : ℕ) (kv : Bytes × Bytes) : Type 0 where
  pub key_token : IsToken kv.0
  pub value_bytes : All IsByte kv.1
  pub value_fits : length kv.1 < outsz

abbrev NoAmp : Bytes → Type 0
NoAmp = All (λ c. c ≢ b'&')

hex_table : all_below 16 (λ d. not (hex_digit d == b'&')) ≡ true
unfolding all_below hex_digit
hex_table = refl

hex_digit-ne-amp : (d : ℕ) → d < 16 → hex_digit d ≢ b'&'
hex_digit-ne-amp d h = let e = all_below→at 16 _ d hex_table h in ground (arith, e)

percent_encoded-NoAmp : (cs : Bytes) → All IsByte cs → NoAmp (percent_encoded cs)
percent_encoded-NoAmp [] h = tt
percent_encoded-NoAmp (c ∷ cs) h =
    All-append (λ x. x ≢ b'&') (percent c) (percent_encoded cs) (one c h.0)
      (percent_encoded-NoAmp cs h.1)
  where
    one : (c : ℕ) → c < 256 → NoAmp (percent c)
    one c h = elim (Bool-cases (is_unreserved c)) [
      | inl plain ↦ rw plain (ground (arith, plain), tt)
      | inr other ↦ rw other (
        ground arith,
        (hex_digit-ne-amp (c / 16) (omega arith), (hex_digit-ne-amp (c % 16) (omega arith), tt)),
      )
    ]

split_amp-NoAmp : (pair : Bytes) → NoAmp pair → split_amp pair ≡ (pair, none)
unfolding split_amp
split_amp-NoAmp [] h = refl
split_amp-NoAmp (c ∷ cs) h = ground (arith, split_amp-NoAmp cs h.1, h.0)

split_amp-append :
    (pair rest : Bytes) → NoAmp pair → split_amp (pair ++ (b'&' ∷ rest)) ≡ (pair, some rest)
unfolding split_amp
split_amp-append [] rest h = refl
split_amp-append (c ∷ cs) rest h = ground (arith, split_amp-append cs rest h.1, h.0)

-- The test of the loop finds the key before the first '=', and nothing else.
key_matches :
    (k key rest : Bytes)
    → IsToken k
    → IsToken key
    → (starts_with (k ++ (b'=' ∷ rest)) key && get_or (k ++ (b'=' ∷ rest)) (length key) 0 == b'=')
      ≡ streq k key
key_matches [] [] rest p q = refl
key_matches [] (x ∷ key) rest p q = ground (arith, q.0)
key_matches (a ∷ k) [] rest p q = ground (arith, p.0)
key_matches (a ∷ k) (x ∷ key) rest p q = ground (arith, key_matches k key rest p.1 q.1)

key_before_sign :
    (k key rest : Bytes)
    → IsToken key
    → starts_with (k ++ (b'=' ∷ rest)) key ≡ true
    → length key ≤ length k
key_before_sign k [] rest q h = omega arith
key_before_sign [] (x ∷ key) rest q h = ground (arith, q.0)
key_before_sign (a ∷ k) (x ∷ key) rest q h = ground (arith, key_before_sign k key rest q.1)

drop_key : (k rest : Bytes) → drop (suc (length k)) (k ++ (b'=' ∷ rest)) ≡ rest
drop_key [] rest = refl
drop_key (c ∷ k) rest = drop_key k rest

-- What follows a pair that does not match.
abbrev further : ℕ → Option Bytes → Bytes → ℕ → Option Bytes
further fuel none key outsz = none
further fuel (some rest) key outsz = param_loop fuel rest key outsz

module _ (fuel c : ℕ) (p key : Bytes) (outsz : ℕ) where
  -- One round over the pair `k=v`, with `tail` behind the pair's text.
  param_round :
      (k v tail : Bytes) (after : Option Bytes)
      → IsToken k
      → IsToken key
      → c ∷ p ≡ k ++ (b'=' ∷ tail)
      → split_amp (c ∷ p) ≡ (pair_text k v, after)
      → param_loop (suc fuel) (c ∷ p) key outsz ≡ (
          if streq k key
          then some (url_decode (drop (length key + 1) (pair_text k v)) outsz)
          else further fuel after key outsz)
  unfolding param_loop
  param_round k v tail after tk tkey e split =
      let found : (starts_with (c ∷ p) key && get_or (c ∷ p) (length key) 0 == b'=') ≡ streq k key =
        ap (λ (t : Bytes). starts_with t key && get_or t (length key) 0 == b'=') e
        ∙ key_matches k key tail tk tkey in
      let before : starts_with (c ∷ p) key ≡ true → length key ≤ length k =
        λ h. key_before_sign k key tail tkey (sym (ap (λ (t : Bytes). starts_with t key) e) ∙ h) in
      let size = length-append k (b'=' ∷ percent_encoded v) in
      rw split (elim (Bool-cases (streq k key)) [
        | inl same ↦
            let len = ap length ((streq_iff k key).0 same) in ground (arith, same, found, size, len)
        | inr other ↦ ground (arith, other, found, size, before)
      ])

-- The value behind a key that matches.
matched_value :
    (k v key : Bytes) (outsz : ℕ)
    → streq k key ≡ true
    → All IsByte v
    → length v < outsz
    → url_decode (drop (length key + 1) (pair_text k v)) outsz ≡ v
matched_value k v key outsz same bytes fits =
    ap (λ (t : Bytes). url_decode t outsz) behind ∙ url_decode-percent_encoded v outsz bytes fits
  where
    count : length key + 1 ≡ suc (length k)
    count = omega (arith, ap length ((streq_iff k key).0 same))

    behind : drop (length key + 1) (pair_text k v) ≡ percent_encoded v
    behind = rw count (drop_key k (percent_encoded v))

-- The round at any text that begins with a pair, for a value that fits.
param_at :
    (fuel outsz : ℕ) (t key k v tail : Bytes) (after : Option Bytes)
    → IsToken key
    → Fits outsz (k, v)
    → t ≡ k ++ (b'=' ∷ tail)
    → split_amp t ≡ (pair_text k v, after)
    → param_loop (suc fuel) t key outsz
      ≡ (if streq k key then some v else further fuel after key outsz)
param_at fuel outsz [] key k v tail after tkey f e split =
    absurd (omega (arith, ap length e, length-append k (b'=' ∷ tail)))
param_at fuel outsz (c ∷ p) key k v tail after tkey f e split =
    param_round fuel c p key outsz k v tail after f.key_token tkey e split
    ∙ (elim (Bool-cases (streq k key)) [
      | inl same ↦ rw same (ap some (matched_value k v key outsz same f.value_bytes f.value_fits))
      | inr other ↦ rw other
    ])

pair_text-NoAmp : (outsz : ℕ) (k v : Bytes) → Fits outsz (k, v) → NoAmp (pair_text k v)
pair_text-NoAmp outsz k v f =
    All-append (λ c. c ≢ b'&') k (b'=' ∷ percent_encoded v) (tokens k f.key_token)
      (ground arith, percent_encoded-NoAmp v f.value_bytes)
  where
    tokens : (k : Bytes) → IsToken k → NoAmp k
    tokens = elim [ [] ↦ λ h. tt | c ∷ (k → ih) ↦ λ h. (h.0.0, ih h.1) ]

param_loop-query_text :
    (kvs : List (Bytes × Bytes)) (fuel outsz : ℕ) (key : Bytes)
    → IsToken key
    → All (Fits outsz) kvs
    → length kvs ≤ fuel
    → param_loop fuel (query_text kvs) key outsz ≡ first_value key kvs
param_loop-query_text [] fuel outsz key tkey fits h = unfold param_loop in refl
param_loop-query_text (kv ∷ kvs) zero outsz key tkey fits h = absurd (omega arith)
param_loop-query_text ((k, v) ∷ []) (suc fuel) outsz key tkey fits h =
    param_at fuel outsz (pair_text k v) key k v (percent_encoded v) none tkey fits.0 refl
      (split_amp-NoAmp (pair_text k v) (pair_text-NoAmp outsz k v fits.0))
param_loop-query_text ((k, v) ∷ kv ∷ more) (suc fuel) outsz key tkey fits h =
    param_at fuel outsz (query_text ((k, v) ∷ kv ∷ more)) key k v
      (percent_encoded v ++ (b'&' ∷ query_text (kv ∷ more))) (some (query_text (kv ∷ more))) tkey
      fits.0 (append_assoc k (b'=' ∷ percent_encoded v) (b'&' ∷ query_text (kv ∷ more)))
      (split_amp-append (pair_text k v) (query_text (kv ∷ more)) (pair_text-NoAmp outsz k v fits.0))
    ∙ ap (λ (r : Option Bytes). if streq k key then some v else r)
        (param_loop-query_text (kv ∷ more) fuel outsz key tkey fits.1 (omega arith))

length-le-query_text : (kvs : List (Bytes × Bytes)) → length kvs ≤ length (query_text kvs)
length-le-query_text [] = omega arith
length-le-query_text ((k, v) ∷ []) = omega (arith, length-append k (b'=' ∷ percent_encoded v))
length-le-query_text ((k, v) ∷ kv ∷ more) = omega (
  arith,
  length-append (pair_text k v) (b'&' ∷ query_text (kv ∷ more)),
  length-le-query_text (kv ∷ more),
)

-- In a query or form text, pairs of a plain key and a percent-encoded value, `http_param_get` gives
-- the decoded value of the first pair with that key, and fails when there is none.
pub http_param_get-query_text :
    (kvs : List (Bytes × Bytes)) (key : Bytes) (outsz : ℕ)
    → IsToken key
    → All (Fits outsz) kvs
    → http_param_get (query_text kvs) key outsz ≡ first_value key kvs
unfolding http_param_get
http_param_get-query_text kvs key outsz tkey fits =
    param_loop-query_text kvs _ outsz key tkey fits (length-le-query_text kvs)
