-- ===== src/Mdns/Query/Names.antt =====
-- Names as source/core/mdns.c reads them in a packet, against the encoding of RFC 1035.
use sys_autopilot.Base.{
  ℕ, zero, suc, ◌+◌, ◌*◌, ◌≤◌, ◌<◌, ◌≡◌, ◌≢◌, refl, sym, ap, ◌∙◌, bit_and, true, false, not, ◌||◌,
  some, List, [], ◌∷◌, ◌++◌, append-nil, append_assoc, length, length-append, take, drop, get_or,
  All, ltb, leb, ◌==◌, arith,
}
use sys_autopilot.Base.Tables.{all_below, all_below→at}
use sys_autopilot.Base.Text.{Bytes}
use sys_autopilot.Mdns.Query.{
  match_label, skip_dot, next_segment, name_loop, name_equals, skip_loop, skip_name,
}

-- A label of one to 63 bytes without a dot.
abbrev pub IsLabel : Bytes → Type 0
IsLabel l = (0 < length l) × (length l ≤ 63) × All (λ c. c ≢ b'.') l

-- Labels as a dotted name, and as a packet holds them without compression.
abbrev pub dotted : List Bytes → Bytes
dotted [] = []
dotted (l ∷ []) = l
dotted (l ∷ m ∷ ls) = l ++ (b'.' ∷ dotted (m ∷ ls))

abbrev pub encoded : List Bytes → Bytes
encoded [] = 0 ∷ []
encoded (l ∷ ls) = length l ∷ (l ++ encoded ls)

module _ (front : Bytes) (x : ℕ) (xs : Bytes) where
  get_or-behind : get_or (front ++ (x ∷ xs)) (length front) 0 ≡ x
  get_or-behind = go front
    where
      go : (f : Bytes) → get_or (f ++ (x ∷ xs)) (length f) 0 ≡ x
      go [] = refl
      go (c ∷ f) = go f

drop-behind :
    (front : Bytes) (x : ℕ) (xs : Bytes) → drop (length front + 1) (front ++ (x ∷ xs)) ≡ xs
drop-behind [] x xs = refl
drop-behind (c ∷ front) x xs =
    let e : suc (length front) + 1 ≡ suc (length front + 1) = omega arith in
    ap (λ (n : ℕ). drop n (c ∷ (front ++ (x ∷ xs)))) e ∙ drop-behind front x xs

take-front : (l rest : Bytes) → take (length l) (l ++ rest) ≡ l
take-front [] rest = refl
take-front (c ∷ l) rest = ap (◌∷◌ c) (take-front l rest)

match_label_self : (l rest : Bytes) → All (λ c. c ≢ b'.') l → match_label l (l ++ rest) ≡ some rest
unfolding match_label
match_label_self [] rest a = refl
match_label_self (c ∷ l) rest a = ground (arith, a, match_label_self l rest a.1)

next_segment-match :
    (l seg rest : Bytes) → match_label l seg ≡ some rest → next_segment l seg ≡ skip_dot rest
unfolding next_segment
next_segment-match l seg rest e = rw (e, next_segment) refl

-- The name behind its first label.
next-dotted :
    (l : Bytes) (ls : List Bytes)
    → All (λ c. c ≢ b'.') l
    → next_segment l (dotted (l ∷ ls)) ≡ some (dotted ls)
unfolding skip_dot
next-dotted l [] a =
    next_segment-match l l []
      (ap (λ (t : Bytes). match_label l t) (sym (append-nil l)) ∙ match_label_self l [] a)
next-dotted l (m ∷ ls) a =
    next_segment-match l (l ++ (b'.' ∷ dotted (m ∷ ls))) _
      (match_label_self l (b'.' ∷ dotted (m ∷ ls)) a)

no_pointer : all_below 64 (λ n. not (bit_and n 0xC0 == 0xC0)) ≡ true
unfolding all_below
no_pointer = refl

module _ (pkt : Bytes) (off n : ℕ) (at_off : get_or pkt off 0 ≡ n) (inside : off < length pkt) where
  tests :
      0 < n
      → n ≤ 63
      → off + 1 + n ≤ length pkt
      → (leb (length pkt) off ≡ false)
        × ((n == 0) ≡ false)
        × ((bit_and n 0xC0 == 0xC0) ≡ false)
        × ((ltb 63 n || ltb (length pkt) (off + 1 + n)) ≡ false)
  tests low high fits =
      let plain = all_below→at 64 _ n no_pointer (omega arith) in
      (
        ground (arith, inside),
        ground (arith, low),
        ground (arith, plain),
        ground (arith, high, fits),
      )

  name_loop-root :
      (fuel hops : ℕ) (seg : Bytes)
      → n ≡ 0
      → name_loop (suc fuel) pkt hops off seg ≡ some (length seg == 0)
  unfolding name_loop
  name_loop-root fuel hops seg z = ground (arith, at_off, inside, z)

  name_loop-label :
      (fuel hops : ℕ) (seg rest : Bytes)
      → 0 < n
      → n ≤ 63
      → off + 1 + n ≤ length pkt
      → next_segment (take n (drop (off + 1) pkt)) seg ≡ some rest
      → name_loop (suc fuel) pkt hops off seg ≡ name_loop fuel pkt hops (off + 1 + n) rest
  unfolding name_loop
  name_loop-label fuel hops seg rest low high fits e =
      let (i, z, p, f) = tests low high fits in rw at_off (rw (i, z, p, f) (rw e (rw at_off refl)))

  skip_loop-root : (fuel : ℕ) → n ≡ 0 → skip_loop (suc fuel) pkt off ≡ some (off + 1)
  unfolding skip_loop
  skip_loop-root fuel z = ground (arith, at_off, inside, z)

  skip_loop-label :
      (fuel : ℕ)
      → 0 < n
      → n ≤ 63
      → off + 1 + n ≤ length pkt
      → skip_loop (suc fuel) pkt off ≡ skip_loop fuel pkt (off + 1 + n)
  unfolding skip_loop
  skip_loop-label fuel low high fits =
      let plain = all_below→at 64 _ n no_pointer (omega arith) in
      rw at_off (ground (arith, inside, low, high, fits, plain))

-- Where a packet holds the labels, behind `front`.
abbrev At : Bytes → ℕ → List Bytes → Bytes → Bytes → Type 0
At pkt off ls front back = (pkt ≡ front ++ (encoded ls ++ back)) × (off ≡ length front)

module _ (pkt : Bytes) (off : ℕ) (l : Bytes) (ls : List Bytes) (front back : Bytes) where
  next_front : Bytes
  next_front = front ++ (length l ∷ l)

  At-next : At pkt off (l ∷ ls) front back → At pkt (off + 1 + length l) ls next_front back
  unfolding next_front
  At-next (e, o) = (
    e
        ∙ ap (λ (t : Bytes). front ++ (length l ∷ t)) (append_assoc l (encoded ls) back)
        ∙ sym (append_assoc front (length l ∷ l) (encoded ls ++ back)),
    omega (arith, o, length-append front (length l ∷ l)),
  )

  At-length : At pkt off (l ∷ ls) front back → get_or pkt off 0 ≡ length l
  At-length (e, o) = rw (e, o) (get_or-behind front (length l) _)

  At-inside : At pkt off (l ∷ ls) front back → off + 1 + length l ≤ length pkt
  At-inside (e, o) = omega (
    arith,
    o,
    ap (λ (t : Bytes). length t) e,
    length-append front (length l ∷ ((l ++ encoded ls) ++ back)),
    length-append (l ++ encoded ls) back,
    length-append l (encoded ls),
  )

  At-label : At pkt off (l ∷ ls) front back → take (length l) (drop (off + 1) pkt) ≡ l
  At-label (e, o) =
      rw (e, o)
        (rw (drop-behind front (length l) ((l ++ encoded ls) ++ back)) (
          ap (λ (t : Bytes). take (length l) t) (append_assoc l (encoded ls) back)
          ∙ take-front l (encoded ls ++ back)))

name_loop-dotted :
    (ls : List Bytes) (fuel hops off : ℕ) (pkt front back : Bytes)
    → All IsLabel ls
    → At pkt off ls front back
    → length ls < fuel
    → (name_loop fuel pkt hops off (dotted ls) ≡ some true)
      × (skip_loop fuel pkt off ≡ some (off + length (encoded ls)))
name_loop-dotted ls zero hops off pkt front back a at_ls h = absurd (omega (arith, h))
name_loop-dotted [] (suc fuel) hops off pkt front back a (e, o) h =
    let byte : get_or pkt off 0 ≡ 0 = rw (e, o) (get_or-behind front 0 back) in
    let inside : off < length pkt =
      omega (arith, o, ap (λ (t : Bytes). length t) e, length-append front (0 ∷ back)) in
    (
      name_loop-root pkt off 0 byte inside fuel hops [] refl,
      skip_loop-root pkt off 0 byte inside fuel refl,
    )
name_loop-dotted (l ∷ ls) (suc fuel) hops off pkt front back ((low, high, plain), a) at_ls h =
    let byte = At-length pkt off l ls front back at_ls in
    let fits = At-inside pkt off l ls front back at_ls in
    let inside : off < length pkt = omega (arith, fits) in
    let next = next-dotted l ls plain in
    let label = At-label pkt off l ls front back at_ls in
    let (same, past) =
      name_loop-dotted ls fuel hops (off + 1 + length l) pkt _ back a
        (At-next pkt off l ls front back at_ls) (omega (arith, h)) in
    (
      name_loop-label pkt off (length l) byte inside fuel hops (dotted (l ∷ ls)) (dotted ls) low
            high fits (ap (λ (t : Bytes). next_segment t (dotted (l ∷ ls))) label ∙ next)
          ∙ same,
      skip_loop-label pkt off (length l) byte inside fuel low high fits
          ∙ past
          ∙ ap some (omega (arith, length-append l (encoded ls))),
    )

length-le-encoded : (ls : List Bytes) → length ls < length (encoded ls)
length-le-encoded [] = omega arith
length-le-encoded (l ∷ ls) = omega (arith, length-append l (encoded ls), length-le-encoded ls)

-- A name that stands in a packet without compression, as labels of one to 63 bytes, is recognised by
-- `name_equals` as that name and skipped by `skip_name` exactly, wherever it stands.
pub name_equals-encoded :
    (ls : List Bytes) (front back : Bytes)
    → All IsLabel ls
    → let pkt = front ++ (encoded ls ++ back) in
      (name_equals pkt (length front) (dotted ls) ≡ some true)
      × (skip_name pkt (length front) ≡ some (length front + length (encoded ls)))
unfolding name_equals skip_name
name_equals-encoded ls front back a =
    let pkt = front ++ (encoded ls ++ back) in
    let size : length ls < length pkt = omega (
      arith,
      length-le-encoded ls,
      length-append front (encoded ls ++ back),
      length-append (encoded ls) back,
    ) in
    (
      (name_loop-dotted ls (17 * suc (length pkt) + 1) 0 (length front) pkt front back a
          (refl, refl) (omega (arith, size))).0,
      (name_loop-dotted ls (suc (length pkt)) 0 (length front) pkt front back a (refl, refl)
          (omega (arith, size))).1,
    )
