-- ===== src/Input/Keyboard.antt =====
-- source/features/input/keyboard.c: the keys that type a character on a layout of the console. A text
-- is its bytes without the NUL; a layout is its number, of those that are supported.
pub mod Typable
pub mod Utf8
use sys_autopilot.Base.{
  ℕ, zero, suc, ◌+◌, ◌-◌, ◌*◌, ◌/◌, ◌^◌, bit_and, bit_or, Bool, true, false, not, ◌&&◌, ◌||◌,
  Option, none, some, List, [], ◌∷◌, ◌++◌, length, ltb, leb, ◌==◌, if◌then◌else◌,
}
use sys_autopilot.Base.Text.{Bytes, codes, is_upper, is_lower}

pub record KeyEntry : Type 0 where
  pub cp : ℕ
  pub usage : ℕ
  pub mods : ℕ
  pub follow_up : ℕ

pub record KeyStroke : Type 0 where
  pub stroke_usage : ℕ
  pub stroke_mods : ℕ

abbrev key : ℕ → ℕ → ℕ → ℕ → KeyEntry
key cp usage mods follow_up = record { cp = cp; usage = usage; mods = mods; follow_up = follow_up }

abbrev pub shift : ℕ
shift = 1

abbrev pub altgr : ℕ
altgr = 2

abbrev english_us : ℕ
english_us = 1

abbrev english_uk : ℕ
english_uk = 3

abbrev french : ℕ
french = 4

abbrev pub k_us_plain : Bytes
k_us_plain = codes "1234567890" ++ (0 ∷ 0 ∷ 0 ∷ 0 ∷ 0 ∷ codes "-=[]\\") ++ (0 ∷ codes ";'`,./")

abbrev pub k_us_shifted : Bytes
k_us_shifted = codes "!@#$%^&*()" ++ (0 ∷ 0 ∷ 0 ∷ 0 ∷ 0 ∷ codes "_+{}|") ++ (0 ∷ codes ":\"~<>?")

abbrev pub us_first_key : ℕ
us_first_key = 30

abbrev pub k_uk : List KeyEntry
k_uk =
    key 34 31 shift 0
    ∷ key 64 52 shift 0
    ∷ key 0x00A3 32 shift 0
    ∷ key 35 50 0 0
    ∷ key 126 50 shift 0
    ∷ key 92 100 0 0
    ∷ key 124 100 shift 0
    ∷ key 96 53 0 0
    ∷ key 0x00AC 53 shift 0
    ∷ key 0x20AC 33 altgr 0
    ∷ []

abbrev pub k_fr : List KeyEntry
k_fr =
    key 38 30 0 0
    ∷ key 49 30 shift 0
    ∷ key 0x00E9 31 0 0
    ∷ key 50 31 shift 0
    ∷ key 126 31 altgr 0
    ∷ key 34 32 0 0
    ∷ key 51 32 shift 0
    ∷ key 35 32 altgr 0
    ∷ key 39 33 0 0
    ∷ key 52 33 shift 0
    ∷ key 123 33 altgr 0
    ∷ key 40 34 0 0
    ∷ key 53 34 shift 0
    ∷ key 91 34 altgr 0
    ∷ key 45 35 0 0
    ∷ key 54 35 shift 0
    ∷ key 124 35 altgr 0
    ∷ key 0x00E8 36 0 0
    ∷ key 55 36 shift 0
    ∷ key 96 36 altgr 0
    ∷ key 95 37 0 0
    ∷ key 56 37 shift 0
    ∷ key 92 37 altgr 0
    ∷ key 0x00E7 38 0 0
    ∷ key 57 38 shift 0
    ∷ key 94 38 altgr 0
    ∷ key 0x00E0 39 0 0
    ∷ key 48 39 shift 0
    ∷ key 64 39 altgr 0
    ∷ key 41 45 0 0
    ∷ key 0x00B0 45 shift 0
    ∷ key 93 45 altgr 0
    ∷ key 61 46 0 0
    ∷ key 43 46 shift 0
    ∷ key 125 46 altgr 0
    ∷ key 36 48 0 0
    ∷ key 0x00A3 48 shift 0
    ∷ key 0x00A4 48 altgr 0
    ∷ key 42 49 0 0
    ∷ key 0x00B5 49 shift 0
    ∷ key 0x00F9 52 0 0
    ∷ key 37 52 shift 0
    ∷ key 0x00B2 53 0 0
    ∷ key 44 16 0 0
    ∷ key 63 16 shift 0
    ∷ key 59 54 0 0
    ∷ key 46 54 shift 0
    ∷ key 58 55 0 0
    ∷ key 47 55 shift 0
    ∷ key 33 56 0 0
    ∷ key 0x00A7 56 shift 0
    ∷ key 60 100 0 0
    ∷ key 62 100 shift 0
    ∷ key 0x20AC 8 altgr 0
    ∷ key 0x00A8 47 shift 32
    ∷ key 0x00E2 47 0 97
    ∷ key 0x00EA 47 0 101
    ∷ key 0x00EE 47 0 105
    ∷ key 0x00F4 47 0 111
    ∷ key 0x00FB 47 0 117
    ∷ key 0x00C2 47 0 65
    ∷ key 0x00CA 47 0 69
    ∷ key 0x00CE 47 0 73
    ∷ key 0x00D4 47 0 79
    ∷ key 0x00DB 47 0 85
    ∷ key 0x00E4 47 shift 97
    ∷ key 0x00EB 47 shift 101
    ∷ key 0x00EF 47 shift 105
    ∷ key 0x00F6 47 shift 111
    ∷ key 0x00FC 47 shift 117
    ∷ key 0x00FF 47 shift 121
    ∷ key 0x00C4 47 shift 65
    ∷ key 0x00CB 47 shift 69
    ∷ key 0x00CF 47 shift 73
    ∷ key 0x00D6 47 shift 79
    ∷ key 0x00DC 47 shift 85
    ∷ []

unfoldable pub keyboard_layout_supported : ℕ → Bool
keyboard_layout_supported layout = layout == english_us || layout == english_uk || layout == french

-- The length that the first byte announces, 0 for a byte that starts no character.
unfoldable pub sequence_length : ℕ → ℕ
sequence_length c =
    if ltb c 0x80
    then 1
    else if bit_and c 0xE0 == 0xC0
    then 2
    else if bit_and c 0xF0 == 0xE0
    then 3
    else if bit_and c 0xF8 == 0xF0
    then 4
    else 0

-- The loop over the bytes behind the first; the text ends with a NUL, which is none of them.
unfoldable pub continuation : ℕ → ℕ → Bytes → Option (ℕ × Bytes)
continuation zero v p = some (v, p)
continuation (suc n) v [] = none
continuation (suc n) v (c ∷ p) =
    let rest = continuation n (bit_or (v * 2 ^ 6) (bit_and c 0x3F)) p in
    if bit_and c 0xC0 == 0x80 then rest else none

-- The character and the text behind it.
unfoldable pub keyboard_next_codepoint : Bytes → Option (ℕ × Bytes)
keyboard_next_codepoint [] = none
keyboard_next_codepoint (c ∷ p) =
    let len = sequence_length c in
    let v = (if len == 1 then c else bit_and c (0x7F / 2 ^ len)) in
    let rest = continuation (len - 1) v p in if len == 0 then none else rest

unfoldable pub find : List KeyEntry → ℕ → Option KeyEntry
find [] cp = none
find (e ∷ entries) cp = if e.cp == cp then some e else find entries cp

-- The loop of us_entry, from key number `i` on.
unfoldable pub us_loop : ℕ → Bytes → Bytes → ℕ → Option KeyEntry
us_loop i [] shifted cp = none
us_loop i (p ∷ plain) [] cp = none
us_loop i (p ∷ plain) (s ∷ shifted) cp =
    let rest = us_loop (i + 1) plain shifted cp in
    if not (p == 0) && p == cp
    then some (key cp i 0 0)
    else if not (s == 0) && s == cp
    then some (key cp i shift 0)
    else rest

unfoldable pub us_entry : ℕ → Option KeyEntry
us_entry cp = us_loop us_first_key k_us_plain k_us_shifted cp

unfoldable pub letter_usage : ℕ → ℕ → ℕ
letter_usage layout c =
    if layout == french && c == b'a'
    then 20
    else if layout == french && c == b'q'
    then 4
    else if layout == french && c == b'z'
    then 26
    else if layout == french && c == b'w'
    then 29
    else if layout == french && c == b'm'
    then 51
    else 4 + (c - b'a')

unfoldable pub layout_entry : ℕ → ℕ → Option KeyEntry
layout_entry layout cp =
    let uk = (elim (find k_uk cp) as (λ _. Option KeyEntry) [
      | none ↦ us_entry cp
      | some e ↦ some e
    ]) in
    if layout == english_us
    then us_entry cp
    else if layout == english_uk
    then uk
    else if layout == french
    then find k_fr cp
    else none

unfoldable pub lookup : ℕ → ℕ → Option KeyEntry
lookup layout cp =
    if cp == 10
    then some (key cp 40 0 0)
    else if cp == 8
    then some (key cp 42 0 0)
    else if cp == 9
    then some (key cp 43 0 0)
    else if cp == b' '
    then some (key cp 44 0 0)
    else if is_lower cp
    then some (key cp (letter_usage layout cp) 0 0)
    else if is_upper cp
    then some (key cp (letter_usage layout (cp - b'A' + b'a')) shift 0)
    else layout_entry layout cp

unfoldable pub stroke : KeyEntry → KeyStroke
stroke e = record { stroke_usage = e.usage; stroke_mods = e.mods }

-- The strokes of an entry, with that of the follow-up of a dead key.
unfoldable pub entry_strokes : ℕ → KeyEntry → List KeyStroke
entry_strokes layout e =
    if e.follow_up == 0
    then stroke e ∷ []
    else elim (lookup layout e.follow_up) as (λ _. List KeyStroke) [
      | none ↦ []
      | some next ↦ if next.follow_up == 0 then stroke e ∷ stroke next ∷ [] else []
    ]

unfoldable pub keyboard_strokes : ℕ → ℕ → List KeyStroke
keyboard_strokes layout cp =
    if not (keyboard_layout_supported layout) || ltb 0xFFFF cp
    then []
    else elim (lookup layout cp) as (λ _. List KeyStroke) [
      | none ↦ []
      | some e ↦ entry_strokes layout e
    ]

-- The text behind a character that can be typed.
unfoldable pub typed : ℕ → Bytes → Option Bytes
typed layout p = elim (keyboard_next_codepoint p) as (λ _. Option Bytes) [
  | none ↦ none
  | some (cp, rest) ↦ if length (keyboard_strokes layout cp) == 0 then none else some rest
]

-- The loop, giving the bytes in front of the character that cannot be typed, `none` for -1. Each
-- character has a byte at least, so the length is fuel enough.
unfoldable pub unsupported_loop : ℕ → ℕ → Bytes → ℕ → Option ℕ
unsupported_loop fuel layout [] at_byte = none
unsupported_loop zero layout (c ∷ p) at_byte = none
unsupported_loop (suc fuel) layout (c ∷ p) at_byte =
    elim (typed layout (c ∷ p)) as (λ _. Option ℕ) [
      | none ↦ some at_byte
      | some rest ↦ unsupported_loop fuel layout rest (at_byte + (length (c ∷ p) - length rest))
    ]

unfoldable pub keyboard_find_unsupported : ℕ → Bytes → Option ℕ
keyboard_find_unsupported layout text = unsupported_loop (length text) layout text 0
