-- ===== src/Tests/Codec.antt =====
-- Runs and instances for Base64, Json and Request.
use sys_autopilot.Base.{
  ℕ, zero, suc, ◌≤◌, ◌<◌, ◌≡◌, refl, true, none, some, List, [], ◌∷◌, All, arith, get_or,
}
use sys_autopilot.Base.Text.{Bytes, codes}
use sys_autopilot.Base64
use sys_autopilot.Base64.{
  B64Decoder, b64_encode, b64url_encode, b64dec_update, b64dec_init, b64dec_finish, b64_decode,
  b64_encoded_len,
}
use sys_autopilot.Base64.RoundTrip.{b64_decode-b64_encode}
use sys_autopilot.Json.Escape.{
  json_escape, unescape, escape_char, escape_loop, unescape_loop, next_piece, escape_sequence,
  simple_escape, unicode_escape, utf8, strtoul16, hex_prefixed, hex_digits, hex_value, hex_digit,
}
use sys_autopilot.Json.Escape.Size.{escaped}
use sys_autopilot.Json.Escape.RoundTrip.{unescape-escaped}
use sys_autopilot.Json.Document.{
  Token, JsonDoc, TokenType, object, array, string, primitive, json_obj_get,
}
use sys_autopilot.Json.Document.Lookup.{
  Members, Elements, Spans, member, element, json_obj_get-Members,
}
use sys_autopilot.Request.Arena.{
  Op, perform_all-Separate, perform_all, released, InRegion, Separate,
}

-- RFC 4648 test vectors.
foobar : b64_encode (codes "fooba") ≡ codes "Zm9vYmE="
unfolding b64_encode Base64.symbol
foobar = refl

foobar_url : b64url_encode (codes "fooba") ≡ codes "Zm9vYmE"
unfolding b64url_encode b64_encode Base64.symbol Base64.url_safe
foobar_url = refl

-- Line breaks are skipped; more padding than the group wants is an error.
decode_wrapped : b64_decode (codes "Zm9v\r\nYmE=") 64 ≡ some (codes "fooba")
unfolding b64_decode b64dec_update Base64.update_loop Base64.take_char Base64.take_symbol
    Base64.b64_val b64dec_finish
decode_wrapped = refl

decode_padded : b64_decode (codes "Zm9=") 64 ≡ none
unfolding b64_decode b64dec_update Base64.update_loop Base64.take_char Base64.take_symbol
    Base64.b64_val b64dec_finish
decode_padded = refl

b64_decode-b64_encode_example : b64_decode (b64_encode (codes "fooba")) 64 ≡ some (codes "fooba")
b64_decode-b64_encode_example = b64_decode-b64_encode (codes "fooba") 64 (omega arith) (omega arith)

escape_run : json_escape (codes "a\"\n\u{1}") 64 ≡ some (codes "a\\\"\\n\\u0001")
unfolding json_escape escape_loop escape_char hex_digit
escape_run = refl

-- é is two bytes of UTF-8.
unescape_run : unescape (codes "\\u00e9\\/") 16 ≡ some (0xc3 ∷ 0xa9 ∷ b'/' ∷ [])
unfolding unescape unescape_loop next_piece escape_sequence simple_escape unicode_escape utf8
    strtoul16 hex_prefixed hex_digits hex_value
unescape_run = refl

abbrev accented : Bytes
accented = 0xc3 ∷ 0xa9 ∷ b'/' ∷ []

unescape-escaped_example : unescape (escaped (codes "a\"b")) 7 ≡ some (codes "a\"b")
unescape-escaped_example = unescape-escaped (codes "a\"b") 7 (omega arith)

-- What jsmn leaves of {"a":[1,2],"b":"x"}.
abbrev token : TokenType → ℕ → ℕ → ℕ → Token
token kind start stop size = record { kind = kind; start = start; stop = stop; size = size }

abbrev tokens : List Token
tokens =
    token object 0 19 2
    ∷ token string 2 3 1
    ∷ token array 5 10 2
    ∷ token primitive 6 7 0
    ∷ token primitive 8 9 0
    ∷ token string 12 13 1
    ∷ token string 16 17 0
    ∷ []

abbrev sample : JsonDoc
sample = record {
  src = codes "{\"a\":[1,2],\"b\":\"x\"}";
  tok = λ i. get_or tokens i (token primitive 0 0 0);
  ntok = 7;
}

leaf-Spans :
    (i : ℕ)
    → i < 7
    → (i < 6 → (sample.tok i).stop ≤ (sample.tok (suc i)).start)
    → Spans sample i (suc i)
leaf-Spans i h k = record {
  after = omega arith;
  within = h;
  inside = λ m p q. absurd (omega arith);
  next = λ p. k (omega arith);
}

array-Spans : Spans sample 2 5
array-Spans = record {
  after = omega arith;
  within = omega arith;
  inside = below;
  next = λ p. omega arith;
}
  where
    below : (k : ℕ) → 2 < k → k < 5 → (sample.tok k).start < 10
    below zero p q = absurd (omega arith)
    below (suc zero) p q = absurd (omega arith)
    below (suc (suc zero)) p q = absurd (omega arith)
    below (suc (suc (suc zero))) p q = omega arith
    below (suc (suc (suc (suc zero)))) p q = omega arith
    below (suc (suc (suc (suc (suc k))))) p q = absurd (omega arith)

sample-Members : Members sample 1 ((codes "a", 2) ∷ (codes "b", 6) ∷ [])
sample-Members = member 5 refl (omega arith) array-Spans (
    member 7 refl (omega arith) (leaf-Spans 6 (omega arith) (λ p. absurd (omega arith)))
      Members.none_left)

json_obj_get-Members_example : json_obj_get sample (some 0) (codes "b") ≡ some 6
json_obj_get-Members_example =
    json_obj_get-Members sample (codes "b") (omega arith) refl refl sample-Members

sample-Elements : Elements sample 3 (3 ∷ 4 ∷ [])
sample-Elements =
    element 4 (leaf-Spans 3 (omega arith) (λ p. omega arith))
      (element 5 (leaf-Spans 4 (omega arith) (λ p. omega arith)) Elements.none_left)

abbrev some_ops : List Op
some_ops = Op.alloc 100 ∷ Op.alloc 7 ∷ Op.rewind 112 ∷ Op.alloc_rest ∷ Op.trim 112 5 ∷ []

perform_all-Separate_example :
    All (InRegion true) (perform_all true some_ops released).live
    × Separate (perform_all true some_ops released).live
perform_all-Separate_example = perform_all-Separate true some_ops
