-- ===== src/Json/Document/Lookup.antt =====
-- source/util/json.c: the index arithmetic of `json_obj_get` and `json_arr_get` against the members
-- of the object and the elements of the array, for a document laid out as jsmn does: a value's
-- token, then those of its parts, each starting before the value ends.
use sys_autopilot.Base.{
  ℕ, zero, suc, ◌+◌, ◌-◌, ◌≤◌, ◌<◌, ◌≡◌, refl, ap, sym, ◌∙◌, inl, inr, Option, none, some, List, [],
  ◌∷◌, length, get_elem?, drop, Bool-cases, arith, ltb, if◌then◌else◌, length-take, length-drop,
}
use sys_autopilot.Base.Text.{Bytes, streq, streq_iff}
use sys_autopilot.Json.Document.{
  object, array, string, JsonDoc, text, json_streq, skip_loop, json_skip, obj_loop, json_obj_get,
  json_arr_len, arr_loop, json_arr_get,
}

-- The tokens of the value at `i` end before `j`.
pub record Spans (doc : JsonDoc) (i j : ℕ) : Type 0 where
  pub after : i < j
  pub within : j ≤ doc.ntok
  pub inside : (k : ℕ) → i < k → k < j → (doc.tok k).start < (doc.tok i).stop
  pub next : j < doc.ntok → (doc.tok i).stop ≤ (doc.tok j).start

-- The members whose keys start at `i`: key texts, with the index of each value.
pub data Members (doc : JsonDoc) : ℕ → List (Bytes × ℕ) → Type 0 where
  none_left : {i : ℕ} → Members doc i []
  member :
      {i : ℕ} (j : ℕ) {more : List (Bytes × ℕ)}
      → (doc.tok i).kind ≡ string
      → (doc.tok i).stop ≤ length doc.src
      → Spans doc (i + 1) j
      → Members doc j more
      → Members doc i ((text doc i, i + 1) ∷ more)

-- The elements whose tokens start at `i`.
pub data Elements (doc : JsonDoc) : ℕ → List ℕ → Type 0 where
  none_left : {i : ℕ} → Elements doc i []
  element :
      {i : ℕ} (j : ℕ) {more : List ℕ}
      → Spans doc i j
      → Elements doc j more
      → Elements doc i (i ∷ more)

-- The value of the first member of that name.
abbrev pub first_value : Bytes → List (Bytes × ℕ) → Option ℕ
first_value key [] = none
first_value key ((k, v) ∷ more) = if streq k key then some v else first_value key more

skip_loop-ends :
    (rounds : ℕ) (doc : JsonDoc) (stop i j : ℕ)
    → rounds + i ≡ doc.ntok
    → i ≤ j
    → j ≤ doc.ntok
    → ((k : ℕ) → i ≤ k → k < j → (doc.tok k).start < stop)
    → (j < doc.ntok → stop ≤ (doc.tok j).start)
    → skip_loop rounds doc stop i ≡ j
unfolding skip_loop
skip_loop-ends zero doc stop i j e h k inside next = omega arith
skip_loop-ends (suc rounds) doc stop i j e h k inside next = elim (Bool-cases (ltb i j)) [
  | inl below ↦ ground (
    arith,
    inside i,
    skip_loop-ends rounds doc stop (i + 1) j (omega arith) (ground arith) k
        (λ m p q. inside m (omega arith) q) next,
  )
  | inr reached ↦
      let same : i ≡ j = ground arith in
      let out : stop ≤ (doc.tok i).start = rw same (next (omega arith)) in ground (arith, out)
]

-- `json_skip` gives the index behind the whole value, however deep.
json_skip-Spans : (doc : JsonDoc) (i j : ℕ) → Spans doc i j → json_skip doc i ≡ j
unfolding json_skip
json_skip-Spans doc i j s =
    skip_loop-ends (doc.ntok - (i + 1)) doc (doc.tok i).stop (i + 1) j
      (omega (arith, s.after, s.within)) (omega (arith, s.after)) s.within
      (λ k p q. s.inside k (omega arith) q) s.next

json_streq-text :
    (doc : JsonDoc) (i : ℕ) (key : Bytes)
    → (doc.tok i).stop ≤ length doc.src
    → json_streq doc i key ≡ streq (text doc i) key
json_streq-text doc i key h = elim (Bool-cases (streq (text doc i) key)) [
  | inl same ↦
      let e = ap length ((streq_iff (text doc i) key).0 same) in
      ground (arith, same, e, length-text)
  | inr other ↦ ground (arith, other)
]
  where
    length-text : length (text doc i) ≡ (doc.tok i).stop - (doc.tok i).start
    length-text = omega (
      arith,
      length-take ((doc.tok i).stop - (doc.tok i).start) (drop (doc.tok i).start doc.src),
      length-drop (doc.tok i).start doc.src,
    )

module _ (doc : JsonDoc) (key : Bytes) where
  obj_loop-Members :
      {i : ℕ} {members : List (Bytes × ℕ)}
      → Members doc i members
      → obj_loop (length members) doc key i ≡ first_value key members
  unfolding obj_loop
  obj_loop-Members none_left = refl
  obj_loop-Members {i} (member j {more} name in_src s rest) = ground (
    arith,
    name,
    s.after,
    s.within,
    json_streq-text doc i key in_src,
    json_skip-Spans doc (i + 1) j s,
    obj_loop-Members rest,
  )

  -- On an object, `json_obj_get` gives the value of the first member with that key, nested values of
  -- the members before it skipped, and -1 when no member has it.
  pub json_obj_get-Members :
      {obj : ℕ} {members : List (Bytes × ℕ)}
      → obj < doc.ntok
      → (doc.tok obj).kind ≡ object
      → (doc.tok obj).size ≡ length members
      → Members doc (obj + 1) members
      → json_obj_get doc (some obj) key ≡ first_value key members
  unfolding json_obj_get
  json_obj_get-Members {obj} h kind size m = ground (arith, kind, size, obj_loop-Members m)

arr_loop-suc :
    (n : ℕ) (doc : JsonDoc) (i j : ℕ) → Spans doc i j → arr_loop (suc n) doc i ≡ arr_loop n doc j
unfolding arr_loop
arr_loop-suc n doc i j s = rw (json_skip-Spans doc i j s)

arr_loop-Elements :
    (doc : JsonDoc) {i : ℕ} {elements : List ℕ} (n : ℕ)
    → Elements doc i elements
    → n < length elements
    → get_elem? elements n ≡ some (arr_loop n doc i)
arr_loop-Elements doc n none_left h = absurd (omega arith)
arr_loop-Elements doc zero (element j s rest) h = unfold arr_loop in refl
arr_loop-Elements doc {i} (suc n) (element j s rest) h =
    arr_loop-Elements doc n rest (omega arith) ∙ ap some (sym (arr_loop-suc n doc i j s))

get_elem?_outside : (n : ℕ) (xs : List ℕ) → length xs ≤ n → get_elem? xs n ≡ none
get_elem?_outside n [] h = refl
get_elem?_outside zero (x ∷ xs) h = absurd (omega arith)
get_elem?_outside (suc n) (x ∷ xs) h = get_elem?_outside n xs (omega arith)

-- On an array, `json_arr_get` gives the element at every index in range and -1 at any other.
pub json_arr_get-Elements :
    (doc : JsonDoc) {arr : ℕ} {elements : List ℕ} (n : ℕ)
    → arr < doc.ntok
    → (doc.tok arr).kind ≡ array
    → (doc.tok arr).size ≡ length elements
    → Elements doc (arr + 1) elements
    → json_arr_get doc (some arr) n ≡ get_elem? elements n
unfolding json_arr_get json_arr_len
json_arr_get-Elements doc {arr} {elements} n h kind size e =
    elim (Bool-cases (ltb n (length elements))) [
      | inl inside ↦ ground (arith, kind, size, arr_loop-Elements doc n e)
      | inr outside ↦ ground (arith, kind, size, get_elem?_outside n elements)
    ]
