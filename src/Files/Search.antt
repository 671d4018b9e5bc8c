-- ===== src/Files/Search.antt =====
-- The search of source/features/files/files.c through a file larger than its buffer.
use sys_autopilot.Base.{
  ℕ, zero, suc, ◌+◌, ◌-◌, ◌≤◌, ◌<◌, ◌≡◌, ◌↔◌, ◌∙◌, refl, sym, ap, true, false, inl, inr, some, [],
  ◌∷◌, ◌++◌, length, take, drop, ltb, if◌then◌else◌, Bool-cases, append-nil, append_assoc,
  take-append-drop, length-drop, arith,
}
use sys_autopilot.Base.Text.{Bytes, starts_with}
use sys_autopilot.Files.{mem_find, search_loop, search_file}

starts_with_short : (s p : Bytes) → length s < length p → starts_with s p ≡ false
starts_with_short s [] h = absurd (omega (arith, h))
starts_with_short [] (c ∷ p) h = refl
starts_with_short (a ∷ s) (c ∷ p) h = ground (arith, starts_with_short s p)

-- Text behind does not matter to a place that holds enough.
starts_with_long : (s t p : Bytes) → length p ≤ length s → starts_with (s ++ t) p ≡ starts_with s p
starts_with_long [] t [] h = ground arith
starts_with_long (a ∷ s) t [] h = refl
starts_with_long [] t (c ∷ p) h = absurd (omega (arith, h))
starts_with_long (a ∷ s) t (c ∷ p) h = ground (arith, starts_with_long s t p)

starts_with_more : (s t p : Bytes) → starts_with s p ≡ true → starts_with (s ++ t) p ≡ true
starts_with_more [] t [] h = ground arith
starts_with_more (a ∷ s) t [] h = refl
starts_with_more [] t (c ∷ p) h = ground (arith, h)
starts_with_more (a ∷ s) t (c ∷ p) h = ground (arith, h, starts_with_more s t p)

mem_find_short : (hay p : Bytes) → length hay < length p → mem_find hay p ≡ false
unfolding mem_find
mem_find_short [] p h = starts_with_short [] p h
mem_find_short (c ∷ hay) p h = ground (arith, starts_with_short (c ∷ hay) p h, mem_find_short hay p)

mem_find_more : (hay t p : Bytes) → mem_find hay p ≡ true → mem_find (hay ++ t) p ≡ true
unfolding mem_find
mem_find_more [] [] p h = h
mem_find_more [] (c ∷ t) p h = ground (arith, h, starts_with_more [] (c ∷ t) p)
mem_find_more (c ∷ hay) t p h =
    ground (arith, h, starts_with_more (c ∷ hay) t p, mem_find_more hay t p)

-- What a chunk without a match leaves to the next one: its last bytes, one short of a match.
mem_find-drop :
    (j : ℕ) (chunk t p : Bytes)
    → mem_find chunk p ≡ false
    → (0 < j → j + length p ≤ suc (length chunk))
    → mem_find (drop j chunk ++ t) p ≡ mem_find (chunk ++ t) p
unfolding mem_find
mem_find-drop zero chunk t p h fits = refl
mem_find-drop (suc j) [] t p h fits = refl
mem_find-drop (suc j) (c ∷ chunk) t p h fits =
    ground (arith, h, fits, starts_with_long (c ∷ chunk) t p, mem_find-drop j chunk t p)

-- How much a chunk keeps.
keep_of : Bytes → Bytes → ℕ
keep_of chunk p = if ltb (length p - 1) (length chunk) then length p - 1 else length chunk

search_round :
    (fuel : ℕ) (kept left p : Bytes) (c bufsz : ℕ)
    → 0 < bufsz - length kept
    → let room = bufsz - length kept in
      let chunk = kept ++ take room (c ∷ left) in
      search_loop (suc fuel) kept (c ∷ left) p bufsz ≡ (
        if mem_find chunk p
        then true
        else search_loop fuel
            (drop (length chunk - keep_of chunk p) chunk)
            (drop room (c ∷ left))
            p
            bufsz)
unfolding search_loop keep_of
search_round fuel kept left p c bufsz h = ground (arith, h)

kept_short :
    (chunk p : Bytes)
    → 0 < length p
    → length (drop (length chunk - keep_of chunk p) chunk) < length p
unfolding keep_of
kept_short chunk p h = ground (arith, h, length-drop (length chunk - keep_of chunk p) chunk)

kept_fits :
    (chunk p : Bytes)
    → 0 < length p
    → 0 < length chunk - keep_of chunk p
    → (length chunk - keep_of chunk p) + length p ≤ suc (length chunk)
unfolding keep_of
kept_fits chunk p h k = ground (arith, h, k)

search_loop_lem :
    (fuel : ℕ) (kept left p : Bytes) (bufsz : ℕ)
    → length left < fuel
    → 0 < length p
    → length kept < length p
    → length p ≤ bufsz
    → search_loop fuel kept left p bufsz ≡ mem_find (kept ++ left) p
search_loop_lem zero kept left p bufsz enough some_p short room = absurd (omega (arith, enough))
search_loop_lem (suc fuel) kept [] p bufsz enough some_p short room =
    unfold search_loop in
    sym (mem_find_short kept p short) ∙ ap (λ (t : Bytes). mem_find t p) (sym (append-nil kept))
search_loop_lem (suc fuel) kept (c ∷ left) p bufsz enough some_p short room =
    search_round fuel kept left p c bufsz (omega (arith, short, room))
    ∙ split (
        search_loop_lem fuel (drop (length chunk - keep_of chunk p) chunk) next p bufsz
          (omega (arith, enough, short, room, length-drop (bufsz - length kept) (c ∷ left))) some_p
          (kept_short chunk p some_p) room)
    ∙ ap (λ (t : Bytes). mem_find t p) whole
  where
    chunk : Bytes
    chunk = kept ++ take (bufsz - length kept) (c ∷ left)

    next : Bytes
    next = drop (bufsz - length kept) (c ∷ left)

    whole : chunk ++ next ≡ kept ++ (c ∷ left)
    whole =
        append_assoc kept (take (bufsz - length kept) (c ∷ left)) next
        ∙ ap (kept ++◌) (take-append-drop (bufsz - length kept) (c ∷ left))

    split :
        search_loop fuel (drop (length chunk - keep_of chunk p) chunk) next p bufsz
          ≡ mem_find (drop (length chunk - keep_of chunk p) chunk ++ next) p
        → (if mem_find chunk p
            then true
            else search_loop fuel (drop (length chunk - keep_of chunk p) chunk) next p bufsz)
          ≡ mem_find (chunk ++ next) p
    split ih = elim (Bool-cases (mem_find chunk p)) [
      | inl h ↦ rw h (sym (mem_find_more chunk next p h))
      | inr h ↦ rw h (
          ih
          ∙ mem_find-drop (length chunk - keep_of chunk p) chunk next p h
              (kept_fits chunk p some_p))
    ]

-- The needle stands at place `i` of the text.
abbrev pub StandsAt : Bytes → Bytes → ℕ → Type 0
StandsAt text p i = starts_with (drop i text) p ≡ true

mem_find_at : (hay p : Bytes) → mem_find hay p ≡ true → (i : ℕ) × StandsAt hay p i
unfolding mem_find
mem_find_at [] p h = (0, h)
mem_find_at (c ∷ hay) p h = elim (Bool-cases (starts_with (c ∷ hay) p)) [
  | inl here ↦ (0, here)
  | inr other ↦ let (i, there) = mem_find_at hay p (ground (arith, h, other)) in (suc i, there)
]

at_mem_find : (i : ℕ) (hay p : Bytes) → StandsAt hay p i → mem_find hay p ≡ true
unfolding mem_find
at_mem_find zero [] p h = h
at_mem_find zero (c ∷ hay) p h = ground (arith, h)
at_mem_find (suc i) [] p h = h
at_mem_find (suc i) (c ∷ hay) p h = ground (arith, at_mem_find i hay p h)

drop_nil : (i : ℕ) → drop {A = ℕ} i [] ≡ []
drop_nil zero = refl
drop_nil (suc i) = refl

drop-drop : (j i : ℕ) (xs : Bytes) → drop i (drop j xs) ≡ drop (j + i) xs
drop-drop zero i xs = ap (λ (k : ℕ). drop k xs) (omega arith)
drop-drop (suc j) i [] = drop_nil i ∙ sym (drop_nil (suc j + i))
drop-drop (suc j) i (c ∷ xs) = drop-drop j i xs ∙ ap (λ (k : ℕ). drop k (c ∷ xs)) next
  where
    next : suc (j + i) ≡ suc j + i
    next = omega arith

-- Where `search_file` starts.
start_of : ℕ → Bytes → ℕ
start_of from p = if ltb (length p - 1) from then from - (length p - 1) else 0

search_file_lem :
    (file p : Bytes) (from bufsz : ℕ)
    → 0 < length p
    → length p ≤ bufsz
    → search_file (some file) from p bufsz ≡ mem_find (drop (start_of from p) file) p
unfolding search_file start_of
search_file_lem file p from bufsz some_p room =
    search_loop_lem (suc (length file)) [] (drop (start_of from p) file) p bufsz
      (omega (arith, length-drop (start_of from p) file)) some_p some_p room

-- A search from place `from`, for a needle that is not empty and fits the buffer, finds it exactly
-- when the file has it at some place from which it reaches past `from`: no match across two reads is
-- lost.
pub search_file-StandsAt :
    (file p : Bytes) (from bufsz : ℕ)
    → 0 < length p
    → length p ≤ bufsz
    → (search_file (some file) from p bufsz ≡ true)
      ↔ ((i : ℕ) × ((from < i + length p) × StandsAt file p i))
search_file-StandsAt file p from bufsz some_p room = (found, finds)
  where
    start : ℕ
    start = start_of from p

    found :
        search_file (some file) from p bufsz ≡ true
        → (i : ℕ) × ((from < i + length p) × StandsAt file p i)
    found h =
        let (i, there) =
          mem_find_at (drop start file) p
            (sym (search_file_lem file p from bufsz some_p room) ∙ h) in
        (
          start + i,
          (
            unfold start_of in ground (arith, some_p),
            ap (λ (t : Bytes). starts_with t p) (sym (drop-drop start i file)) ∙ there,
          ),
        )

    finds :
        (i : ℕ) × ((from < i + length p) × StandsAt file p i)
        → search_file (some file) from p bufsz ≡ true
    finds (i, (reaches, there)) =
        search_file_lem file p from bufsz some_p room
        ∙ at_mem_find (i - start) (drop start file) p (
            ap (λ (t : Bytes). starts_with t p)
              (drop-drop start (i - start) file ∙ ap (λ (k : ℕ). drop k file) behind_start)
            ∙ there)
      where
        behind_start : start + (i - start) ≡ i
        behind_start = unfold start_of in ground (arith, reaches, some_p)
