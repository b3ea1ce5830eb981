-- ===== src/Execution/Framing.antt =====
-- The material that `hash` of internal/execution/request.go digests.
use wizpay_mcp.Base.{List, [], ◌∷◌, ◌++◌, ◌≡◌, refl, sym, Text, len, decimal}
use wizpay_mcp.Base.Decimal.{prefixed_split, prefixed_ne_nil}
use wizpay_mcp.Execution.Request.{frame}

-- Two lists of parts whose digest material is framed alike are equal.
pub frame-injective : (xs ys : List Text) → frame xs ≡ frame ys → xs ≡ ys
unfolding frame
frame-injective [] [] h = refl
frame-injective [] (y ∷ ys) h =
    absurd (prefixed_ne_nil (decimal (len y)) (y ++ frame ys) b':' (sym h))
frame-injective (x ∷ xs) [] h = absurd (prefixed_ne_nil (decimal (len x)) (x ++ frame xs) b':' h)
frame-injective (x ∷ xs) (y ∷ ys) h =
    let (heads, tails) = prefixed_split x y (frame xs) (frame ys) h in
    cc (heads, frame-injective xs ys tails)
