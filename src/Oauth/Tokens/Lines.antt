-- ===== src/Oauth/Tokens/Lines.antt =====
-- tokens.txt as source/features/oauth/oauth.c reads it with fgets and writes it again.
use sys_autopilot.Base.{
  ℕ, zero, suc, ◌≤◌, ◌<◌, ◌≡◌, ◌⊎◌, refl, sym, ap, ◌∙◌, true, false, List, [], ◌∷◌, ◌++◌,
  append-nil, length, All, ◌==◌, if◌then◌else◌, arith, Bool-cases, inl, inr, subst, length-append,
  if_both,
}
use sys_autopilot.Base.Text.{Bytes, IsChar, c_str, streq}
use sys_autopilot.Config.{fgets}
use sys_autopilot.Oauth.Tokens.{lines_loop, file_lines, line_token, rewrite_lines}

-- fgets gives this line back whatever follows it.
abbrev Full : ℕ → Bytes → Type 0
Full room line = (rest : Bytes) → fgets room (line ++ rest) ≡ (line, rest)

module _ (room c : ℕ) (file : Bytes) where
  fgets-end : (c == 10) ≡ true → fgets (suc room) (c ∷ file) ≡ (c ∷ [], file)
  unfolding fgets
  fgets-end e = rw e refl

  fgets-more :
      (c == 10) ≡ false
      → fgets (suc room) (c ∷ file) ≡ (c ∷ (fgets room file).0, (fgets room file).1)
  unfolding fgets
  fgets-more e = rw e refl

fgets-append : (room : ℕ) (file : Bytes) → (fgets room file).0 ++ (fgets room file).1 ≡ file
fgets-append zero file = unfold fgets in refl
fgets-append (suc room) [] = unfold fgets in refl
fgets-append (suc room) (c ∷ file) = elim (Bool-cases (c == 10)) [
  | inl e ↦ rw (fgets-end room c file e) refl
  | inr e ↦ rw (fgets-more room c file e) (ap (◌∷◌ c) (fgets-append room file))
]

fgets-Full : (room : ℕ) (file : Bytes) → Full room (fgets room file).0 ⊎ ((fgets room file).1 ≡ [])
fgets-Full zero file = inl (λ rest. unfold fgets in refl)
fgets-Full (suc room) [] = inr (unfold fgets in refl)
fgets-Full (suc room) (c ∷ file) = elim (Bool-cases (c == 10)) [
  | inl e ↦ rw (fgets-end room c file e) (inl (λ rest. fgets-end room c rest e))
  | inr e ↦ rw (fgets-more room c file e) (longer e (fgets-Full room file))
]
  where
    longer :
        (c == 10) ≡ false
        → Full room (fgets room file).0 ⊎ ((fgets room file).1 ≡ [])
        → Full (suc room) (c ∷ (fgets room file).0) ⊎ ((fgets room file).1 ≡ [])
    longer e (inl full) = inl (λ rest.
        fgets-more room c ((fgets room file).0 ++ rest) e
        ∙ ap (λ (r : Bytes × Bytes). (c ∷ r.0, r.1)) (full rest))
    longer e (inr last) = inr last

fgets-some : (room c : ℕ) (file : Bytes) → 0 < length (fgets (suc room) (c ∷ file)).0
unfolding fgets
fgets-some room c file = ground arith

-- Lines as fgets gives them: all but the last are given back whatever follows them.
abbrev Chunked : ℕ → List Bytes → Type 0
Chunked room [] = Unit
Chunked room (line ∷ lines) =
    (0 < length line)
    × (Full room line ⊎ ((lines ≡ []) × (fgets room line ≡ (line, []))))
    × Chunked room lines

abbrev pub concat : List Bytes → Bytes
concat [] = []
concat (line ∷ lines) = line ++ concat lines

-- The lines that do not hold the token.
abbrev pub without : Bytes → List Bytes → List Bytes
without token [] = []
without token (line ∷ lines) =
    if streq (line_token line) token then without token lines else line ∷ without token lines

lines_loop_step :
    (fuel c : ℕ) (file : Bytes)
    → lines_loop (suc fuel) (c ∷ file)
      ≡ (fgets 255 (c ∷ file)).0 ∷ lines_loop fuel (fgets 255 (c ∷ file)).1
unfolding lines_loop
lines_loop_step fuel c file = refl

lines_loop-nil : (fuel : ℕ) → lines_loop fuel [] ≡ []
unfolding lines_loop
lines_loop-nil zero = refl
lines_loop-nil (suc fuel) = refl

-- The line at the front takes a byte at least.
fgets-shorter :
    (room fuel c : ℕ) (file : Bytes)
    → length (c ∷ file) ≤ suc fuel
    → length (fgets (suc room) (c ∷ file)).1 ≤ fuel
fgets-shorter room fuel c file h = omega (
  arith,
  length-append (fgets (suc room) (c ∷ file)).0 (fgets (suc room) (c ∷ file)).1,
  ap (λ (t : Bytes). length t) (fgets-append (suc room) (c ∷ file)),
  fgets-some room c file,
)

lines_loop-Chunked :
    (fuel : ℕ) (file : Bytes) → length file ≤ fuel → Chunked 255 (lines_loop fuel file)
lines_loop-Chunked fuel [] h = subst (Chunked 255) (sym (lines_loop-nil fuel)) tt
lines_loop-Chunked zero (c ∷ file) h = absurd (omega arith)
lines_loop-Chunked (suc fuel) (c ∷ file) h =
    subst (Chunked 255) (sym (lines_loop_step fuel c file)) (
      fgets-some 254 c file,
      ends (fgets-Full 255 (c ∷ file)),
      lines_loop-Chunked fuel (fgets 255 (c ∷ file)).1 (fgets-shorter 254 fuel c file h),
    )
  where
    line : Bytes
    line = (fgets 255 (c ∷ file)).0

    ends :
        Full 255 line ⊎ ((fgets 255 (c ∷ file)).1 ≡ [])
        → Full 255 line
          ⊎ ((lines_loop fuel (fgets 255 (c ∷ file)).1 ≡ []) × (fgets 255 line ≡ (line, [])))
    ends (inl full) = inl full
    ends (inr last) =
        let whole : line ≡ c ∷ file =
          sym (append-nil line)
          ∙ ap (λ (t : Bytes). line ++ t) (sym last)
          ∙ fgets-append 255 (c ∷ file) in
        inr (
          ap (λ (t : Bytes). lines_loop fuel t) last ∙ lines_loop-nil fuel,
          ap (λ (t : Bytes). fgets 255 t) whole ∙ ap (λ (t : Bytes). (line, t)) last,
        )

-- Such lines, written one behind the other, are read as they were.
lines_loop-concat :
    (lines : List Bytes) (fuel : ℕ)
    → Chunked 255 lines
    → length (concat lines) ≤ fuel
    → lines_loop fuel (concat lines) ≡ lines
lines_loop-concat [] fuel ch h = lines_loop-nil fuel
lines_loop-concat ([] ∷ lines) fuel ch h = absurd (omega (arith, ch.0))
lines_loop-concat ((c ∷ line) ∷ lines) zero ch h = absurd (omega arith)
lines_loop-concat ((c ∷ line) ∷ lines) (suc fuel) ch h =
    lines_loop_step fuel c (line ++ concat lines)
    ∙ ap (λ (r : Bytes × Bytes). r.0 ∷ lines_loop fuel r.1) (read ch.1)
    ∙ ap (◌∷◌ (c ∷ line)) (lines_loop-concat lines fuel ch.2 short)
  where
    read :
        Full 255 (c ∷ line) ⊎ ((lines ≡ []) × (fgets 255 (c ∷ line) ≡ (c ∷ line, [])))
        → fgets 255 (c ∷ (line ++ concat lines)) ≡ (c ∷ line, concat lines)
    read (inl full) = full (concat lines)
    read (inr (none_left, last)) = rw none_left (rw (append-nil line) last)

    short : length (concat lines) ≤ fuel
    short = omega (arith, length-append line (concat lines))

without-nil : (token : Bytes) (lines : List Bytes) → lines ≡ [] → without token lines ≡ []
without-nil token [] e = refl
without-nil token (line ∷ lines) e = absurd (ground (arith, e))

Chunked-without :
    (room : ℕ) (token : Bytes) (lines : List Bytes)
    → Chunked room lines
    → Chunked room (without token lines)
Chunked-without room token [] ch = tt
Chunked-without room token (line ∷ lines) (some_byte, ends, ch) =
    if_both (Chunked room) (streq (line_token line) token) (Chunked-without room token lines ch)
      (some_byte, left ends, Chunked-without room token lines ch)
  where
    left :
        Full room line ⊎ ((lines ≡ []) × (fgets room line ≡ (line, [])))
        → Full room line ⊎ ((without token lines ≡ []) × (fgets room line ≡ (line, [])))
    left (inl full) = inl full
    left (inr (none_left, last)) = inr (without-nil token lines none_left, last)

c_str_lem : (line : Bytes) → All IsChar line → c_str line ≡ line
c_str_lem [] a = refl
c_str_lem (c ∷ line) a = ground (arith, a, c_str_lem line a.1)

rewrite_lines-concat :
    (token : Bytes) (lines : List Bytes)
    → All (All IsChar) lines
    → rewrite_lines token lines ≡ concat (without token lines)
unfolding rewrite_lines
rewrite_lines-concat token [] a = refl
rewrite_lines-concat token (line ∷ lines) a =
    ground (arith, c_str_lem line a.0, rewrite_lines-concat token lines a.1)

fgets-IsChar :
    (room : ℕ) (file : Bytes)
    → All IsChar file
    → All IsChar (fgets room file).0 × All IsChar (fgets room file).1
fgets-IsChar zero file a = unfold fgets in (tt, a)
fgets-IsChar (suc room) [] a = unfold fgets in (tt, tt)
fgets-IsChar (suc room) (c ∷ file) a = elim (Bool-cases (c == 10)) [
  | inl e ↦ rw (fgets-end room c file e) (((a.0, tt), a.1))
  | inr e ↦
      let (line, rest) = fgets-IsChar room file a.1 in
      rw (fgets-more room c file e) (((a.0, line), rest))
]

lines_loop-IsChar :
    (fuel : ℕ) (file : Bytes) → All IsChar file → All (All IsChar) (lines_loop fuel file)
unfolding lines_loop
lines_loop-IsChar zero file a = tt
lines_loop-IsChar (suc fuel) [] a = tt
lines_loop-IsChar (suc fuel) (c ∷ file) a =
    let (line, rest) = fgets-IsChar 255 (c ∷ file) a in (line, lines_loop-IsChar fuel _ rest)

-- Writing the lines of a file without NUL bytes, but for those with the token, and reading them again
-- gives exactly the lines that were kept, also where lines longer than the buffer come in pieces.
pub file_lines-rewrite_lines :
    (token file : Bytes)
    → All IsChar file
    → file_lines (rewrite_lines token (file_lines file)) ≡ without token (file_lines file)
unfolding file_lines
file_lines-rewrite_lines token file a =
    let lines = lines_loop (length file) file in
    let chunked : Chunked 255 (without token lines) =
      Chunked-without 255 token lines (lines_loop-Chunked (length file) file (omega arith)) in
    let written = rewrite_lines-concat token lines (lines_loop-IsChar (length file) file a) in
    rw written (lines_loop-concat (without token lines) _ chunked (omega arith))
