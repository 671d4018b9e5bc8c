-- ===== src/Tests/Keyboard.antt =====
-- Runs and instances for Input.Keyboard.
use sys_autopilot.Base.{◌≡◌, refl, arith, none, some, [], ◌∷◌, ◌++◌}
use sys_autopilot.Base.Text.{Bytes, codes}
use sys_autopilot.Input.Keyboard.{
  keyboard_layout_supported, sequence_length, continuation, keyboard_next_codepoint, find, us_loop,
  us_entry, letter_usage, layout_entry, lookup, stroke, entry_strokes, keyboard_strokes, typed,
  unsupported_loop, keyboard_find_unsupported,
}
use sys_autopilot.Input.Keyboard.Typable.{Verdict, keyboard_find_unsupported-Verdict}

-- An a with a circumflex on the French layout: the dead key, then the key of a.
dead_key :
    keyboard_strokes 4 0xE2
    ≡ record { stroke_usage = 47; stroke_mods = 0 }
      ∷ record { stroke_usage = 20; stroke_mods = 0 }
      ∷ []
unfolding keyboard_strokes keyboard_layout_supported lookup layout_entry letter_usage find stroke
    entry_strokes
dead_key = refl

-- "a", then an e with an acute accent in UTF-8.
abbrev accented : Bytes
accented = codes "a" ++ (0xC3 ∷ 0xA9 ∷ codes "b")

not_on_us : keyboard_find_unsupported 1 accented ≡ some 1
unfolding keyboard_find_unsupported unsupported_loop typed keyboard_next_codepoint sequence_length
    continuation keyboard_strokes keyboard_layout_supported lookup layout_entry us_entry us_loop
    letter_usage stroke entry_strokes
not_on_us = refl

keyboard_find_unsupported-Verdict_example :
    Verdict 1 accented (keyboard_find_unsupported 1 accented)
keyboard_find_unsupported-Verdict_example =
    keyboard_find_unsupported-Verdict 1 accented (omega arith)

-- A form of "A" that is longer than needed is typed all the same.
overlong_form : keyboard_find_unsupported 1 (0xC1 ∷ 0x81 ∷ []) ≡ none
unfolding keyboard_find_unsupported unsupported_loop typed keyboard_next_codepoint sequence_length
    continuation keyboard_strokes keyboard_layout_supported lookup layout_entry us_entry us_loop
    find letter_usage stroke entry_strokes
overlong_form = refl
