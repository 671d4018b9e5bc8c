-- ===== src/Sha256/Stream.antt =====
-- The digest of source/util/sha256.c over a message in pieces, and the padding of the standard.
use sys_autopilot.Base.{
  ℕ, ◌+◌, ◌*◌, ◌%◌, ◌^◌, ◌<◌, ◌≡◌, refl, sym, ap, ◌∙◌, List, [], ◌∷◌, ◌++◌, length, length-append,
  arith,
}
use sys_autopilot.Base.Text.{Bytes}
use sys_autopilot.Sha256.{
  Sha256Ctx, transform, ctx_init, ctx_byte, ctx_update, ctx_final, sha256_hash,
}

-- A message in pieces, an update each.
unfoldable pub update_all : Sha256Ctx → List Bytes → Sha256Ctx
update_all ctx [] = ctx
update_all ctx (piece ∷ pieces) = update_all (ctx_update ctx piece) pieces

unfoldable pub whole : List Bytes → Bytes
whole [] = []
whole (piece ∷ pieces) = piece ++ whole pieces

ctx_update-append :
    (ctx : Sha256Ctx) (x y : Bytes) → ctx_update ctx (x ++ y) ≡ ctx_update (ctx_update ctx x) y
unfolding ctx_update
ctx_update-append ctx [] y = refl
ctx_update-append ctx (c ∷ x) y = ctx_update-append (ctx_byte ctx c) x y

update_all-whole :
    (ctx : Sha256Ctx) (pieces : List Bytes) → update_all ctx pieces ≡ ctx_update ctx (whole pieces)
unfolding update_all whole ctx_update
update_all-whole ctx [] = refl
update_all-whole ctx (piece ∷ pieces) =
    update_all-whole (ctx_update ctx piece) pieces
    ∙ sym (ctx_update-append ctx piece (whole pieces))

-- The digest of a message that is fed in pieces, of any sizes, is that of its bytes at once.
pub sha256_hash-whole :
    (pieces : List Bytes) → ctx_final (update_all ctx_init pieces) ≡ sha256_hash (whole pieces)
unfolding sha256_hash
sha256_hash-whole pieces = ap ctx_final (update_all-whole ctx_init pieces)

-- The buffered bytes stay below a block, the state is eight words, and the counted bits are those
-- of the whole blocks so far.
pub record IsValid (fed : ℕ) (ctx : Sha256Ctx) : Type 0 where
  pub buffered : length ctx.block < 64
  pub eight : length ctx.state ≡ 8
  pub counted : (ctx.bitlen + length ctx.block * 8) % 2 ^ 64 ≡ fed * 8 % 2 ^ 64

transform_eight : (s : List ℕ) (block : Bytes) → length (transform s block) ≡ 8
unfolding transform
transform_eight s block = refl

ctx_byte-IsValid :
    (fed : ℕ) (ctx : Sha256Ctx) (p : ℕ) → IsValid fed ctx → IsValid (fed + 1) (ctx_byte ctx p)
unfolding ctx_byte
ctx_byte-IsValid fed ctx p v =
    ground (
      arith,
      v,
      length-append ctx.block (p ∷ []),
      transform_eight ctx.state (ctx.block ++ (p ∷ [])),
    )

ctx_update-IsValid_from :
    (fed : ℕ) (ctx : Sha256Ctx) (ps : Bytes)
    → IsValid fed ctx
    → IsValid (fed + length ps) (ctx_update ctx ps)
unfolding ctx_update
ctx_update-IsValid_from fed ctx [] v = ground (arith, v)
ctx_update-IsValid_from fed ctx (p ∷ ps) v =
    let rest =
      ctx_update-IsValid_from (fed + 1) (ctx_byte ctx p) ps (ctx_byte-IsValid fed ctx p v) in
    ground (arith, rest)

ctx_init-IsValid : IsValid 0 ctx_init
unfolding ctx_init
ctx_init-IsValid = ground arith

-- However long the message, the block buffer never fills past its 64 bytes, the state is eight
-- words, and the length in bits that the padding writes is that of the message, modulo 2 ^ 64.
pub ctx_update-IsValid : (ps : Bytes) → IsValid (length ps) (ctx_update ctx_init ps)
ctx_update-IsValid ps =
    let v = ctx_update-IsValid_from 0 ctx_init ps ctx_init-IsValid in ground (arith, v)
