-- ===== src/Files/Resolve.antt =====
-- Path resolution and ranges of source/features/files/files.c, against segments and positions.
use sys_autopilot.Base.{
  ℕ, suc, ◌+◌, ◌-◌, ◌≤◌, ◌<◌, ◌≡◌, ◌↔◌, ◌∙◌, refl, sym, Bool, true, false, ◌&&◌, ◌||◌, inl, inr,
  List, [], ◌∷◌, ◌++◌, length, ◌==◌, if◌then◌else◌, Bool-cases, arith,
}
use sys_autopilot.Base.Text.{Bytes, codes, streq, starts_with}
use sys_autopilot.Files.{
  files_root, segment_ends, traversal_loop, files_resolve, ℤ, pos, negsuc, clamp_offset,
  clamp_length, files_clamp_range,
}

-- The text up to the first '/', and the segments behind it.
unfoldable pub segments : Bytes → Bytes × List Bytes
segments [] = ([], [])
segments (c ∷ cs) =
    let (first, others) = segments cs in
    if c == b'/' then ([], first ∷ others) else (c ∷ first, others)

unfoldable pub any_parent : List Bytes → Bool
any_parent [] = false
any_parent (s ∷ ss) = streq s (codes "..") || any_parent ss

-- Whether a segment is "..", the first one counted only when it starts here.
unfoldable pub climbs : ℕ → Bytes → Bool
climbs before cs =
    (before == b'/' && streq (segments cs).0 (codes "..")) || any_parent (segments cs).1

climbs-parent :
    (before a b : ℕ) (rest : Bytes)
    → (a == b'.' && b == b'.') ≡ true
    → climbs before (a ∷ b ∷ rest) ≡ (before == b'/' && segment_ends rest) || climbs b rest
unfolding climbs segments any_parent segment_ends
climbs-parent before a b [] h = ground (arith, h)
climbs-parent before a b (c ∷ cs) h = ground (arith, h)

climbs-skip :
    (before a b : ℕ) (rest : Bytes)
    → (a == b'.' && b == b'.') ≡ false
    → climbs before (a ∷ b ∷ rest) ≡ climbs a (b ∷ rest)
unfolding climbs segments any_parent
climbs-skip before a b rest h = ground (arith, h)

climbs_short : (before a : ℕ) → climbs before (a ∷ []) ≡ false
unfolding climbs segments any_parent
climbs_short before a = ground arith

traversal_loop-parent :
    (before a b : ℕ) (rest : Bytes)
    → (a == b'.' && b == b'.') ≡ true
    → traversal_loop before (a ∷ b ∷ rest)
      ≡ (before == b'/' && segment_ends rest) || traversal_loop b rest
unfolding traversal_loop
traversal_loop-parent before a b rest h = rw (h, traversal_loop) refl

traversal_loop-skip :
    (before a b : ℕ) (rest : Bytes)
    → (a == b'.' && b == b'.') ≡ false
    → traversal_loop before (a ∷ b ∷ rest) ≡ traversal_loop a (b ∷ rest)
unfolding traversal_loop
traversal_loop-skip before a b rest h = rw (h, traversal_loop) refl

traversal_loop-climbs : (before : ℕ) (cs : Bytes) → traversal_loop before cs ≡ climbs before cs
traversal_loop-climbs before [] = unfold traversal_loop climbs segments any_parent in ground arith
traversal_loop-climbs before (a ∷ []) = unfold traversal_loop in sym (climbs_short before a)
traversal_loop-climbs before (a ∷ b ∷ rest) =
    round (traversal_loop-climbs b rest) (traversal_loop-climbs a (b ∷ rest))
  where
    round :
        traversal_loop b rest ≡ climbs b rest
        → traversal_loop a (b ∷ rest) ≡ climbs a (b ∷ rest)
        → traversal_loop before (a ∷ b ∷ rest) ≡ climbs before (a ∷ b ∷ rest)
    round p q = elim (Bool-cases (a == b'.' && b == b'.')) [
      | inl h ↦
          rw (traversal_loop-parent before a b rest h, climbs-parent before a b rest h, p) refl
      | inr h ↦ rw (traversal_loop-skip before a b rest h, climbs-skip before a b rest h, q) refl
    ]

traversal_loop_root :
    (c : ℕ) (cs : Bytes)
    → (c == b'/') ≡ true
    → traversal_loop b'/' (c ∷ cs) ≡ any_parent (segments (c ∷ cs)).1
traversal_loop_root c cs h = traversal_loop-climbs b'/' (c ∷ cs) ∙ root
  where
    root : climbs b'/' (c ∷ cs) ≡ any_parent (segments (c ∷ cs)).1
    root = unfold climbs segments any_parent in ground (arith, h)

-- A path from the root with no segment "..", that fits the buffer behind the root's name.
pub record Resolves (path : Bytes) (outsz : ℕ) : Type 0 where
  pub rooted : starts_with path (codes "/") ≡ true
  pub stays : any_parent (segments path).1 ≡ false
  pub fits : length (files_root ++ path) < outsz

-- A path is accepted exactly when it starts at the root, none of its segments is "..", and it fits
-- the buffer; the result is then the path under the root of the card.
pub files_resolve-Resolves :
    (path out : Bytes) (outsz : ℕ)
    → (files_resolve path outsz ≡ inr out) ↔ (Resolves path outsz × (out ≡ files_root ++ path))
unfolding files_resolve
files_resolve-Resolves [] out outsz = ground arith
files_resolve-Resolves (c ∷ cs) out outsz = ground (arith, traversal_loop_root c cs)

-- What a client asked for: its first place in the file, a negative one counted from the end.
unfoldable pub first_asked : ℕ → ℤ → ℕ
first_asked fsize (pos n) = n
first_asked fsize (negsuc n) = fsize - suc n

-- Within the length asked for, which a negative one leaves open.
unfoldable pub Within : ℕ → ℤ → ℕ → Type 0
Within first (pos n) i = i < first + n
Within first (negsuc n) i = Unit

-- The clamped range holds exactly the places of the file that the client asked for.
pub files_clamp_range-Within :
    (fsize i : ℕ) (offset len : ℤ)
    → let (start, got) = files_clamp_range fsize offset len in
      ((start ≤ i) × (i < start + got))
      ↔ ((i < fsize) × (first_asked fsize offset ≤ i) × Within (first_asked fsize offset) len i)
unfolding files_clamp_range clamp_offset clamp_length first_asked Within
files_clamp_range-Within fsize i (pos n) (pos m) = ground arith
files_clamp_range-Within fsize i (pos n) (negsuc m) = ground arith
files_clamp_range-Within fsize i (negsuc n) (pos m) = ground arith
files_clamp_range-Within fsize i (negsuc n) (negsuc m) = ground arith
