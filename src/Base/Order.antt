-- ===== src/Base/Order.antt =====
-- Strings in order, and what the code uses of Go's package `sort`.
use Prim.Native.Nat.{ℕ, zero, suc, ◌+◌, ◌/◌}
use mathlib.Core.Bool.{Bool, true, false, ◌&&◌, ◌||◌}
use mathlib.Core.List.{List, [], ◌∷◌}
use wizpay_mcp.Base.Tests.{ltb, ◌==◌, if◌then◌else◌}
use wizpay_mcp.Base.Texts.{Text, text_eq}
use wizpay_mcp.Base.Lists.{length}

-- `a >= b` on strings, which compares bytes: for UTF-8, the code points.
unfoldable pub text_geb : Text → Text → Bool
text_geb a [] = true
text_geb [] (b ∷ s) = false
text_geb (a ∷ r) (b ∷ s) = ltb b a || a == b && text_geb r s

-- A set of texts, as the maps `seen` are used.
unfoldable pub contains : Text → List Text → Bool
contains t [] = false
contains t (u ∷ us) = text_eq t u || contains t us

module _ {ℓ} {A : Type ℓ} (key : A → Text) where
  unfoldable pub insert : A → List A → List A
  insert x [] = x ∷ []
  insert x (y ∷ ys) =
      let rest = insert x ys in if text_geb (key y) (key x) then x ∷ y ∷ ys else y ∷ rest

  -- `sort.Slice` by a string. Go leaves the order of elements with equal keys open.
  unfoldable pub sort_by : List A → List A
  unfolding insert
  sort_by [] = []
  sort_by (x ∷ xs) = insert x (sort_by xs)

-- `sort.Strings`
abbrev pub sort_texts : List Text → List Text
sort_texts = sort_by (λ t. t)

-- `sort.Search` between two bounds, in at most as many rounds as the fuel.
unfoldable pub search_between : ℕ → (ℕ → Bool) → ℕ → ℕ → ℕ
search_between zero f i j = i
search_between (suc fuel) f i j =
    let lower = search_between fuel f i ((i + j) / 2) in
    let upper = search_between fuel f ((i + j) / 2 + 1) j in
    if ltb i j then (if f ((i + j) / 2) then lower else upper) else i

-- `sort.Search`
unfoldable pub search : ℕ → (ℕ → Bool) → ℕ
search n f = search_between n f 0 n

-- `values[i]`, within bounds.
unfoldable pub element : List Text → ℕ → Text
element [] i = []
element (v ∷ vs) zero = v
element (v ∷ vs) (suc i) = element vs i

-- `index := sort.Search(...); index < len(values) && values[index] == target`
unfoldable pub is_listed : List Text → Text → Bool
unfolding search element
is_listed values target =
    let index = search (length values) (λ i. text_geb (element values i) target) in
    ltb index (length values) && text_eq (element values index) target

-- `allStringsAllowed`
unfoldable pub are_listed : List Text → List Text → Bool
are_listed [] allowed = true
are_listed (v ∷ vs) allowed = is_listed allowed v && are_listed vs allowed
