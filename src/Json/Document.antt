-- ===== src/Json/Document.antt =====
-- source/util/json.c: navigation in the token array that jsmn leaves, and reading of strings,
-- booleans and raw text. An `int` index of -1 is `none`. Offsets are as jsmn sets them in a
-- document it accepted, none of them negative.
pub mod Lookup
use sys_autopilot.Base.{
  ℕ, zero, suc, ◌+◌, ◌-◌, Bool, true, false, ◌&&◌, ◌||◌, Option, none, some, List, [], ◌∷◌, length,
  take, drop, ltb, leb, ◌==◌, if◌then◌else◌,
}
use sys_autopilot.Base.Text.{Bytes, codes, streq}
use sys_autopilot.Json.Escape.{unescape}

pub data TokenType : Type 0 where
  undefined object array string primitive : TokenType

abbrev pub is_object : TokenType → Bool
is_object object = true
is_object _ = false

abbrev pub is_array : TokenType → Bool
is_array array = true
is_array _ = false

abbrev pub is_string : TokenType → Bool
is_string string = true
is_string _ = false

abbrev pub is_primitive : TokenType → Bool
is_primitive primitive = true
is_primitive _ = false

-- jsmntok_t
pub record Token : Type 0 where
  pub kind : TokenType
  pub start : ℕ
  pub stop : ℕ
  pub size : ℕ

-- The array holds something at every index; only the first `ntok` entries are the document's.
pub record JsonDoc : Type 0 where
  pub src : Bytes
  pub tok : ℕ → Token
  pub ntok : ℕ

-- tok_ptr and tok_len: the text of a token.
abbrev pub text : JsonDoc → ℕ → Bytes
text doc t = take ((doc.tok t).stop - (doc.tok t).start) (drop (doc.tok t).start doc.src)

abbrev pub json_streq : JsonDoc → ℕ → Bytes → Bool
json_streq doc t s = (length s == (doc.tok t).stop - (doc.tok t).start) && streq (text doc t) s

-- The loop of `json_skip` at `i`, with `rounds` tokens from there to `ntok`.
unfoldable pub skip_loop : ℕ → JsonDoc → ℕ → ℕ → ℕ
skip_loop zero doc stop i = i
skip_loop (suc rounds) doc stop i =
    let rest = skip_loop rounds doc stop (i + 1) in if ltb (doc.tok i).start stop then rest else i

unfoldable pub json_skip : JsonDoc → ℕ → ℕ
json_skip doc t = skip_loop (doc.ntok - (t + 1)) doc (doc.tok t).stop (t + 1)

-- The loop of `json_obj_get` with `rounds` members left, the next key at `i`.
unfoldable pub obj_loop : ℕ → JsonDoc → Bytes → ℕ → Option ℕ
obj_loop zero doc key i = none
obj_loop (suc rounds) doc key i =
    let rest = obj_loop rounds doc key (json_skip doc (i + 1)) in
    if leb doc.ntok (i + 1)
    then none
    else if is_string (doc.tok i).kind && json_streq doc i key
    then some (i + 1)
    else rest

unfoldable pub json_obj_get : JsonDoc → Option ℕ → Bytes → Option ℕ
json_obj_get doc none key = none
json_obj_get doc (some obj) key =
    if leb doc.ntok obj || (if is_object (doc.tok obj).kind then false else true)
    then none
    else obj_loop (doc.tok obj).size doc key (obj + 1)

unfoldable pub json_arr_len : JsonDoc → Option ℕ → Option ℕ
json_arr_len doc none = none
json_arr_len doc (some arr) =
    if leb doc.ntok arr || (if is_array (doc.tok arr).kind then false else true)
    then none
    else some (doc.tok arr).size

unfoldable pub arr_loop : ℕ → JsonDoc → ℕ → ℕ
arr_loop zero doc i = i
arr_loop (suc n) doc i = arr_loop n doc (json_skip doc i)

-- For an `idx` that is not negative; `json_arr_len` of -1 is at most every such `idx`.
unfoldable pub json_arr_get : JsonDoc → Option ℕ → ℕ → Option ℕ
json_arr_get doc none idx = none
json_arr_get doc (some arr) idx = elim (json_arr_len doc (some arr)) [
  | none ↦ none
  | some n ↦ if leb n idx then none else some (arr_loop idx doc (arr + 1))
]

unfoldable pub json_get_string : JsonDoc → Option ℕ → ℕ → Option Bytes
json_get_string doc none outsz = none
json_get_string doc (some t) outsz =
    if leb doc.ntok t || (if is_string (doc.tok t).kind then false else true)
    then none
    else unescape (text doc t) outsz

unfoldable pub json_get_bool : JsonDoc → Option ℕ → Option Bool
json_get_bool doc none = none
json_get_bool doc (some t) =
    if leb doc.ntok t || (if is_primitive (doc.tok t).kind then false else true)
    then none
    else if json_streq doc t (codes "true")
    then some true
    else if json_streq doc t (codes "false")
    then some false
    else none

-- The text with the quotes of a string, if it and its terminator fit.
unfoldable pub json_raw : JsonDoc → Option ℕ → ℕ → Option Bytes
json_raw doc none outsz = none
json_raw doc (some t) outsz =
    let quotes = (if is_string (doc.tok t).kind then 1 else 0) in
    let start = (doc.tok t).start - quotes in
    let len = (doc.tok t).stop + quotes - start in
    if leb doc.ntok t
    then none
    else if ltb outsz (len + 1)
    then none
    else some (take len (drop start doc.src))
