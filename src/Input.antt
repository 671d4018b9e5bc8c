-- ===== src/Input.antt =====
-- source/features/input/buttons.c: the names of the buttons. A row keeps the index of the bit.
pub mod Keyboard
use sys_autopilot.Base.{ℕ, ◌^◌, Option, none, some, List, [], ◌∷◌, if◌then◌else◌}
use sys_autopilot.Base.Text.{Bytes, codes, strcase_eq}

abbrev pub k_buttons : List (Bytes × ℕ)
k_buttons =
    (codes "A", 0)
    ∷ (codes "B", 1)
    ∷ (codes "X", 2)
    ∷ (codes "Y", 3)
    ∷ (codes "L", 6)
    ∷ (codes "R", 7)
    ∷ (codes "ZL", 8)
    ∷ (codes "ZR", 9)
    ∷ (codes "PLUS", 10)
    ∷ (codes "START", 10)
    ∷ (codes "MINUS", 11)
    ∷ (codes "SELECT", 11)
    ∷ (codes "UP", 13)
    ∷ (codes "DOWN", 15)
    ∷ (codes "LEFT", 12)
    ∷ (codes "RIGHT", 14)
    ∷ (codes "DUP", 13)
    ∷ (codes "DDOWN", 15)
    ∷ (codes "DLEFT", 12)
    ∷ (codes "DRIGHT", 14)
    ∷ (codes "LSTICK", 4)
    ∷ (codes "RSTICK", 5)
    ∷ (codes "HOME", 18)
    ∷ (codes "CAPTURE", 19)
    ∷ []

unfoldable pub button_loop : List (Bytes × ℕ) → Bytes → Option ℕ
button_loop [] name = none
button_loop ((button, bit) ∷ rows) name =
    if strcase_eq name button then some (2 ^ bit) else button_loop rows name

-- The mask, if the name is one.
unfoldable pub button_from_name : Bytes → Option ℕ
button_from_name name = button_loop k_buttons name
