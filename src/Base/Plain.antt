-- ===== src/Base/Plain.antt =====
-- Texts of points, digits, capitals and underscores, which have no space around them.
use mathlib.Core.Path.{◌≡◌, refl}
use mathlib.Core.Bool.{Bool, true, false, ◌&&◌}
use mathlib.Core.List.{[], ◌∷◌, ◌++◌, reverse, reverse-cons, reverse-reverse}
use native.Mathlib.Omega.{arith}
use wizpay_mcp.Base.Tests.{leb}
use wizpay_mcp.Base.Texts.{Text, is_space, drop_spaces, trim_space}

-- The code points from the point to the underscore.
abbrev pub is_plain : Text → Bool
is_plain [] = true
is_plain (c ∷ cs) = leb b'.' c && leb c b'_' && is_plain cs

pub is_plain-append :
    (a b : Text) → is_plain a ≡ true → is_plain b ≡ true → is_plain (a ++ b) ≡ true
is_plain-append [] b p q = q
is_plain-append (c ∷ a) b p q = ground (arith, is_plain-append a b)

is_plain-reverse : (t : Text) → is_plain t ≡ true → is_plain (reverse t) ≡ true
is_plain-reverse [] h = refl
is_plain-reverse (c ∷ cs) h =
    rw (reverse-cons c cs)
      (is_plain-append (reverse cs) (c ∷ []) (is_plain-reverse cs (ground arith)) (ground arith))

drop_spaces-plain : (t : Text) → is_plain t ≡ true → drop_spaces t ≡ t
unfolding drop_spaces
drop_spaces-plain [] h = refl
drop_spaces-plain (c ∷ cs) h = let inked : is_space c ≡ false = ground arith in rw inked refl

pub trim_space-plain : (t : Text) → is_plain t ≡ true → trim_space t ≡ t
unfolding trim_space
trim_space-plain t h =
    rw
      (
        drop_spaces-plain t h,
        drop_spaces-plain (reverse t) (is_plain-reverse t h),
        reverse-reverse t,
      )
      refl
