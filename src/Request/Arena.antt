-- ===== src/Request/Arena.antt =====
-- The blocks that source/core/request.c hands out, and where they lie.
use sys_autopilot.Base.{
  ℕ, ◌+◌, ◌-◌, ◌*◌, ◌/◌, ◌%◌, ◌^◌, ◌≤◌, ◌≡◌, inl, inr, Bool, true, false, Option, none, some, List,
  [], ◌∷◌, arith, All, ltb, Bool-cases, min, if◌then◌else◌,
}
use sys_autopilot.Base.Bits.{bit_and_not_15}
use sys_autopilot.Base.Text.{Bytes}
use sys_autopilot.Json.Escape.{json_escaped_len}
use sys_autopilot.Json.Escape.Size.{escaped, json_escape-exact}
use sys_autopilot.Request.{
  request_memory_size, aligned, request_alloc, request_alloc_rest, request_rewind, request_trim,
  request_json_escape,
}

pub aligned_lem : (used : ℕ) → used ≤ 0xa0000 → aligned used ≡ (used + 15) / 16 * 16
unfolding aligned
aligned_lem used h = rw small (bit_and_not_15 (used + 15) (omega arith))
  where
    small : (used + 15) % 2 ^ 64 ≡ used + 15
    small = omega arith

-- `request_alloc` on every branch: the first aligned offset at or behind the level, or nothing and
-- the level as it was, exactly when the block would pass the end.
pub request_alloc-exact :
    (mcp : Bool) (used size : ℕ)
    → used ≤ request_memory_size mcp
    → let start = (used + 15) / 16 * 16 in
      request_alloc mcp used size ≡ (
        if ltb (request_memory_size mcp) (start + size)
        then (none, used)
        else (some start, start + size))
unfolding request_alloc
request_alloc-exact true used size h = rw (aligned_lem used h) (ground arith)
request_alloc-exact false used size h = rw (aligned_lem used (omega arith)) (ground arith)

pub record Block : Type 0 where
  pub start : ℕ
  pub size : ℕ

-- What a handler can do, with any marks and pointers.
pub data Op : Type 0 where
  alloc : ℕ → Op
  alloc_rest : Op
  trim : ℕ → ℕ → Op
  rewind : ℕ → Op

-- The level and the blocks that are live, the newest first.
pub record Arena : Type 0 where
  pub used : ℕ
  pub live : List Block

-- What is left of the blocks below `mark`: one that spans it keeps its front.
abbrev pub clip : ℕ → List Block → List Block
clip mark [] = []
clip mark (b ∷ bs) =
    if ltb b.start mark
    then record b { size = min b.size (mark - b.start) } ∷ clip mark bs
    else clip mark bs

abbrev pub cut : Arena → ℕ → ℕ → Arena
cut s mark level = record { used = level; live = clip mark s.live }

abbrev pub given : Arena → Option ℕ × ℕ → ℕ → Arena
given s (none, used) size = record s { used = used }
given s (some start, used) size = record {
  used = used;
  live = record { start = start; size = size } ∷ s.live;
}

-- The live blocks follow from what the handler asks for, whatever level the code goes back to: a block
-- that is trimmed keeps its first `kept` bytes, and a rewind keeps what lies below its mark.
unfoldable pub perform : Bool → Op → Arena → Arena
perform mcp (alloc size) s = given s (request_alloc mcp s.used size) size
perform mcp alloc_rest s =
    let (block, used) = request_alloc_rest mcp s.used in
    record { used = used; live = record { start = block.0; size = block.1 } ∷ s.live }
perform mcp (trim ptr kept) s = cut s (ptr + kept) (request_trim s.used ptr kept)
perform mcp (rewind mark) s = cut s mark (request_rewind s.used mark)

abbrev pub perform_all : Bool → List Op → Arena → Arena
perform_all mcp [] s = s
perform_all mcp (op ∷ ops) s = perform_all mcp ops (perform mcp op s)

-- The blocks lie below `top`, each aligned and above the next.
abbrev pub Stacked : ℕ → List Block → Type 0
Stacked top [] = Unit
Stacked top (b ∷ bs) = (b.start + b.size ≤ top) × (b.start % 16 ≡ 0) × Stacked b.start bs

pub record IsValid (mcp : Bool) (s : Arena) : Type 0 where
  pub in_region : s.used ≤ request_memory_size mcp
  pub stacked : Stacked s.used s.live

Stacked-mono : (bs : List Block) (t top : ℕ) → t ≤ top → Stacked t bs → Stacked top bs
Stacked-mono [] t top h k = tt
Stacked-mono (b ∷ bs) t top h k = (omega (arith, k.0), k.1, k.2)

-- Blocks below the mark stay as they are.
Stacked-clip_below :
    (bs : List Block) (top mark : ℕ) → top ≤ mark → Stacked top bs → Stacked top (clip mark bs)
Stacked-clip_below [] top mark le h = tt
Stacked-clip_below (b ∷ bs) top mark le h = elim (Bool-cases (ltb b.start mark)) [
  | inl kept ↦
      rw kept
        (ground (arith, h.0), h.1, Stacked-clip_below bs b.start mark (omega (arith, h.0)) h.2)
  | inr dropped ↦ rw dropped (
      Stacked-mono (clip mark bs) b.start top (omega (arith, h.0))
        (Stacked-clip_below bs b.start mark (omega (arith, h.0)) h.2))
]

Stacked-clip : (bs : List Block) (top mark : ℕ) → Stacked top bs → Stacked mark (clip mark bs)
Stacked-clip [] top mark h = tt
Stacked-clip (b ∷ bs) top mark h = elim (Bool-cases (ltb b.start mark)) [
  | inl kept ↦
      rw kept (ground arith, h.1, Stacked-clip_below bs b.start mark (ground (arith, kept)) h.2)
  | inr dropped ↦ rw dropped (Stacked-clip bs b.start mark h.2)
]

memory_bound :
    (mcp : Bool) → (request_memory_size mcp ≤ 0xa0000) × (request_memory_size mcp % 16 ≡ 0)
memory_bound true = omega arith
memory_bound false = omega arith

-- Whether the mark is below the level or not.
cut-IsValid :
    (mcp : Bool) (s : Arena) (mark : ℕ)
    → IsValid mcp s
    → IsValid mcp (cut s mark (request_rewind s.used mark))
unfolding request_rewind
cut-IsValid mcp s mark v = elim (Bool-cases (ltb mark s.used)) [
  | inl below ↦ rw below (record {
    in_region = ground (arith, below, v.in_region);
    stacked = Stacked-clip s.live s.used mark v.stacked;
  })
  | inr above ↦ rw above (record {
    in_region = v.in_region;
    stacked = Stacked-clip_below s.live s.used mark (ground (arith, above)) v.stacked;
  })
]

pub perform-IsValid :
    (mcp : Bool) (op : Op) (s : Arena) → IsValid mcp s → IsValid mcp (perform mcp op s)
unfolding perform
perform-IsValid mcp (alloc size) s v =
    elim (Bool-cases (ltb (request_memory_size mcp) ((s.used + 15) / 16 * 16 + size))) [
      | inl full ↦ rw (request_alloc-exact mcp s.used size v.in_region) (rw full v)
      | inr fits ↦ rw (request_alloc-exact mcp s.used size v.in_region) (
          rw fits (record {
            in_region = ground arith;
            stacked =
                (omega arith, omega arith, Stacked-mono s.live s.used _ (omega arith) v.stacked);
          }))
    ]
perform-IsValid mcp alloc_rest s v =
    unfold request_alloc_rest in
    rw (aligned_lem s.used (omega (arith, v.in_region, memory_bound mcp))) (record {
      in_region = omega arith;
      stacked = (
        omega (arith, v.in_region, memory_bound mcp),
        omega arith,
        Stacked-mono s.live s.used _ (omega arith) v.stacked,
      );
    })
perform-IsValid mcp (trim ptr kept) s v = unfold request_trim in cut-IsValid mcp s (ptr + kept) v
perform-IsValid mcp (rewind mark) s v = cut-IsValid mcp s mark v

perform_all-IsValid :
    (mcp : Bool) (ops : List Op) (s : Arena) → IsValid mcp s → IsValid mcp (perform_all mcp ops s)
perform_all-IsValid mcp [] s v = v
perform_all-IsValid mcp (op ∷ ops) s v =
    perform_all-IsValid mcp ops (perform mcp op s) (perform-IsValid mcp op s v)

-- A block in the region, at an address that is a multiple of 16.
abbrev pub InRegion : Bool → Block → Type 0
InRegion mcp b = (b.start + b.size ≤ request_memory_size mcp) × (b.start % 16 ≡ 0)

-- Each block ends before every newer one starts.
abbrev pub Separate : List Block → Type 0
Separate [] = Unit
Separate (b ∷ bs) = All (λ c. c.start + c.size ≤ b.start) bs × Separate bs

Stacked-All :
    (bs : List Block) (top limit : ℕ)
    → top ≤ limit
    → Stacked top bs
    → All (λ c. c.start + c.size ≤ limit) bs
Stacked-All [] top limit le h = tt
Stacked-All (b ∷ bs) top limit le h =
    (omega (arith, h.0), Stacked-All bs b.start limit (omega (arith, h.0)) h.2)

Stacked-Separate : (bs : List Block) (top : ℕ) → Stacked top bs → Separate bs
Stacked-Separate [] top h = tt
Stacked-Separate (b ∷ bs) top h =
    (Stacked-All bs b.start b.start (omega arith) h.2, Stacked-Separate bs b.start h.2)

Stacked-InRegion :
    (mcp : Bool) (bs : List Block) (top : ℕ)
    → top ≤ request_memory_size mcp
    → Stacked top bs
    → All (InRegion mcp) bs
Stacked-InRegion mcp [] top le h = tt
Stacked-InRegion mcp (b ∷ bs) top le h =
    ((omega (arith, h.0), h.1), Stacked-InRegion mcp bs b.start (omega (arith, h.0)) h.2)

-- The memory of a request that has just begun.
abbrev pub released : Arena
released = record { used = 0; live = [] }

-- Whatever a handler allocates, trims and rewinds, in whatever order and with any marks, what it keeps
-- of the blocks, that is all that it has not trimmed off or rewound behind a mark, is aligned, lies in
-- the region, and never overlaps with a block that it is given later.
pub perform_all-Separate :
    (mcp : Bool) (ops : List Op)
    → All (InRegion mcp) (perform_all mcp ops released).live
      × Separate (perform_all mcp ops released).live
perform_all-Separate mcp ops =
    let v =
      perform_all-IsValid mcp ops released (record { in_region = omega arith; stacked = tt }) in
    (
      Stacked-InRegion mcp (perform_all mcp ops released).live _ v.in_region v.stacked,
      Stacked-Separate (perform_all mcp ops released).live _ v.stacked,
    )

-- `request_json_escape` gives the whole escaped text, never a cut one, when its block fits, and ""
-- when it does not.
pub request_json_escape-exact :
    (mcp : Bool) (used : ℕ) (s : Bytes)
    → used ≤ request_memory_size mcp
    → (request_json_escape mcp used s).0 ≡ (
        if ltb (request_memory_size mcp) ((used + 15) / 16 * 16 + (json_escaped_len s + 1))
        then []
        else escaped s)
unfolding request_json_escape
request_json_escape-exact mcp used s h =
    let whole = json_escape-exact s (json_escaped_len s + 1) (omega arith) in
    ground (arith, whole, request_alloc-exact mcp used (json_escaped_len s + 1) h)
