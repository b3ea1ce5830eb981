-- ===== src/Base/Search.antt =====
-- What the search and the sort of Order.antt do: split points and membership.
use Prim.Native.Nat.{ℕ, zero, suc, ◌+◌, ◌/◌, ◌^◌, ◌≤◌, ◌<◌}
use mathlib.Core.Path.{◌≡◌, refl, sym, ap, ◌∙◌}
use mathlib.Core.Logic.{◌⊎◌, inl, inr}
use mathlib.Core.Bool.{Bool, true, false, ◌&&◌, ◌||◌}
use mathlib.Core.List.{List, [], ◌∷◌}
use native.Mathlib.Omega.{arith}
use wizpay_mcp.Base.Tests.{ltb, Bool-cases}
use wizpay_mcp.Base.Texts.{Text, text_eq, text_eq→≡, text_eq_refl}
use wizpay_mcp.Base.Lists.{length}
use wizpay_mcp.Base.Order.{
  text_geb, contains, insert, sort_by, sort_texts, search_between, search, element, is_listed,
}

double : (a : ℕ) → 2 ^ suc a ≡ 2 ^ a + 2 ^ a
double a = omega arith

module _ (f : ℕ → Bool) where
  -- What splits an interval at a point: f is false before it and true from it on.
  abbrev pub Splits : ℕ → ℕ → ℕ → Type 0
  Splits i j r =
      (i ≤ r)
      × (r ≤ j)
      × ((k : ℕ) → i ≤ k → k < r → f k ≡ false)
      × ((k : ℕ) → r ≤ k → k < j → f k ≡ true)

  -- f stays true between the bounds.
  abbrev pub IsMonotone : ℕ → ℕ → Type 0
  IsMonotone i j = (k l : ℕ) → i ≤ k → k ≤ l → l < j → f k ≡ true → f l ≡ true

  lower-Splits : {i j m r : ℕ} → m < j → IsMonotone i j → f m ≡ true → Splits i m r → Splits i j r
  lower-Splits {i} {j} {m} {r} h mono t (a, b, below, above) =
      (a, omega arith, below, λ k p q. ground (arith, above k, mono m k))

  upper-Splits :
      {i j m r : ℕ} → i ≤ m → IsMonotone i j → f m ≡ false → Splits (m + 1) j r → Splits i j r
  upper-Splits {i} {j} {m} {r} h mono t (a, b, below, above) =
      (omega arith, b, λ k p q. ground (arith, below k, mono k m), above)

  search_between-Splits :
      (fuel i j : ℕ)
      → i ≤ j
      → j < i + 2 ^ fuel
      → IsMonotone i j
      → Splits i j (search_between fuel f i j)
  unfolding search_between
  search_between-Splits zero i j o p m = (
    omega arith,
    o,
    λ k (b : i ≤ k) (c : k < i). absurd (omega arith),
    λ k (b : i ≤ k) c. absurd (omega arith),
  )
  search_between-Splits (suc fuel) i j o p m = elim (Bool-cases (ltb i j)) [
    | inr outside ↦
        rw outside (omega arith, o, λ k p q. absurd (omega arith), λ k p q. absurd (ground arith))
    | inl inside ↦
        let h : i < j = ground arith in
        elim (Bool-cases (f ((i + j) / 2))) [
          | inl t ↦
              rw (inside, t)
                (lower-Splits (omega arith) m t (
                  search_between-Splits fuel i ((i + j) / 2) (omega arith)
                    (omega (arith, double fuel)) (λ k l a b c. m k l a b (omega arith))))
          | inr t ↦
              rw (inside, t)
                (upper-Splits (omega arith) m t (
                  search_between-Splits fuel ((i + j) / 2 + 1) j (omega arith)
                    (omega (arith, double fuel)) (λ k l a b c. m k l (omega arith) b c)))
        ]
  ]

below_power : (n : ℕ) → n < 2 ^ n
below_power zero = omega arith
below_power (suc n) = omega (arith, below_power n, double n)

search-Splits : (f : ℕ → Bool) (n : ℕ) → IsMonotone f 0 n → Splits f 0 n (search n f)
unfolding search
search-Splits f n mono =
    search_between-Splits f n 0 n (omega arith) (omega (arith, below_power n)) mono

text_geb_refl : (a : Text) → text_geb a a ≡ true
unfolding text_geb
text_geb_refl [] = refl
text_geb_refl (c ∷ cs) = ground (arith, text_geb_refl cs)

text_geb_total : (a b : Text) → (text_geb a b ≡ true) ⊎ (text_geb b a ≡ true)
unfolding text_geb
text_geb_total [] [] = inl refl
text_geb_total [] (d ∷ ds) = inr refl
text_geb_total (c ∷ cs) [] = inl refl
text_geb_total (c ∷ cs) (d ∷ ds) = ground (arith, text_geb_total cs ds)

text_geb_trans : (a b c : Text) → text_geb a b ≡ true → text_geb b c ≡ true → text_geb a c ≡ true
unfolding text_geb
text_geb_trans a b [] p q = refl
text_geb_trans a [] (z ∷ zs) p q = cc
text_geb_trans [] (y ∷ ys) (z ∷ zs) p q = cc
text_geb_trans (x ∷ xs) (y ∷ ys) (z ∷ zs) p q = ground (arith, text_geb_trans xs ys zs)

text_geb_antisymm : (a b : Text) → text_geb a b ≡ true → text_geb b a ≡ true → a ≡ b
unfolding text_geb
text_geb_antisymm [] [] p q = refl
text_geb_antisymm [] (d ∷ ds) p q = cc
text_geb_antisymm (c ∷ cs) [] p q = cc
text_geb_antisymm (c ∷ cs) (d ∷ ds) p q = ground (arith, text_geb_antisymm cs ds)

-- Every element of the list is at or above the text.
abbrev IsAbove : Text → List Text → Type 0
IsAbove t [] = Unit {0}
IsAbove t (v ∷ vs) = (text_geb v t ≡ true) × IsAbove t vs

abbrev pub IsAscending : List Text → Type 0
IsAscending [] = Unit {0}
IsAscending (v ∷ vs) = IsAbove v vs × IsAscending vs

IsAbove-lower : (t u : Text) (vs : List Text) → text_geb u t ≡ true → IsAbove u vs → IsAbove t vs
IsAbove-lower t u [] h p = tt
IsAbove-lower t u (v ∷ vs) h (p, ps) = (text_geb_trans v u t p h, IsAbove-lower t u vs h ps)

IsAbove-element :
    (t : Text) (vs : List Text) (i : ℕ)
    → IsAbove t vs
    → i < length vs
    → text_geb (element vs i) t ≡ true
unfolding element
IsAbove-element t [] i p h = absurd (omega arith)
IsAbove-element t (v ∷ vs) zero (p, ps) h = p
IsAbove-element t (v ∷ vs) (suc i) (p, ps) h = IsAbove-element t vs i ps (omega arith)

element_ascends :
    (vs : List Text) (i j : ℕ)
    → IsAscending vs
    → i ≤ j
    → j < length vs
    → text_geb (element vs j) (element vs i) ≡ true
unfolding element
element_ascends [] i j a p h = absurd (omega arith)
element_ascends (v ∷ vs) zero zero a p h = text_geb_refl v
element_ascends (v ∷ vs) zero (suc j) (a, rest) p h = IsAbove-element v vs j a (omega arith)
element_ascends (v ∷ vs) (suc i) zero a p h = absurd (omega arith)
element_ascends (v ∷ vs) (suc i) (suc j) (a, rest) p h =
    element_ascends vs i j rest (omega arith) (omega arith)

contains-element : (vs : List Text) (i : ℕ) → i < length vs → contains (element vs i) vs ≡ true
unfolding element contains
contains-element [] i h = absurd (omega arith)
contains-element (v ∷ vs) zero h = ground (arith, text_eq_refl v)
contains-element (v ∷ vs) (suc i) h = ground (arith, contains-element vs i (omega arith))

element-of_contains :
    (t : Text) (vs : List Text)
    → contains t vs ≡ true
    → (i : ℕ) × (i < length vs) × (element vs i ≡ t)
unfolding element contains
element-of_contains t [] h = absurd (cc)
element-of_contains t (v ∷ vs) h = elim (Bool-cases (text_eq t v)) [
  | inl same ↦ (0, omega arith, sym (text_eq→≡ t v same))
  | inr other ↦
      let (i, inside, e) = element-of_contains t vs (rw other at h) in (suc i, omega arith, e)
]

found_contains :
    (vs : List Text) (t : Text) (r : ℕ)
    → (ltb r (length vs) && text_eq (element vs r) t) ≡ true
    → contains t vs ≡ true
found_contains vs t r h =
    let e = text_eq→≡ (element vs r) t (ground arith) in
    rw (sym e) (contains-element vs r (ground arith))

contained_found :
    (vs : List Text) (t : Text) (r : ℕ)
    → IsAscending vs
    → Splits (λ i. text_geb (element vs i) t) 0 (length vs) r
    → contains t vs ≡ true
    → (ltb r (length vs) && text_eq (element vs r) t) ≡ true
contained_found vs t r a (_, bound, below, above) h =
    let (i, inside, e) = element-of_contains t vs h in
    let here : text_geb (element vs i) t ≡ true = rw e (text_geb_refl t) in
    let before : r ≤ i = ground (arith, below i) in
    let least = element_ascends vs r i a before inside in
    let same =
      text_geb_antisymm (element vs r) t (above r (omega arith) (omega arith)) (rw e at least) in
    rw same (ground (arith, text_eq_refl t))

true_iff : (a b : Bool) → (a ≡ true → b ≡ true) → (b ≡ true → a ≡ true) → a ≡ b
true_iff true b p q = sym (p refl)
true_iff false true p q = q refl
true_iff false false p q = refl

-- In an ascending list, the binary search finds a text exactly if it is there.
pub is_listed-contains :
    (vs : List Text) (t : Text) → IsAscending vs → is_listed vs t ≡ contains t vs
unfolding is_listed
is_listed-contains vs t a =
    let split =
      search-Splits (λ i. text_geb (element vs i) t) (length vs)
        (λ k l p q r h.
          text_geb_trans (element vs l) (element vs k) t (element_ascends vs k l a q r) h) in
    true_iff _ _ (found_contains vs t _) (contained_found vs t _ a split)

contains-insert :
    (t x : Text) (vs : List Text)
    → contains t (insert (λ t. t) x vs) ≡ (text_eq t x || contains t vs)
unfolding insert contains
contains-insert t x [] = refl
contains-insert t x (v ∷ vs) = ground (arith, contains-insert t x vs)

contains-sort_texts : (t : Text) (vs : List Text) → contains t (sort_texts vs) ≡ contains t vs
unfolding sort_by contains
contains-sort_texts t [] = refl
contains-sort_texts t (v ∷ vs) =
    contains-insert t v (sort_texts vs) ∙ ap (λ b. text_eq t v || b) (contains-sort_texts t vs)

insert-IsAbove :
    (t x : Text) (vs : List Text)
    → text_geb x t ≡ true
    → IsAbove t vs
    → IsAbove t (insert (λ t. t) x vs)
unfolding insert
insert-IsAbove t x [] h p = (h, tt)
insert-IsAbove t x (v ∷ vs) h (p, ps) = elim (Bool-cases (text_geb v x)) [
  | inl first ↦ rw first (h, (p, ps))
  | inr later ↦ rw later (p, insert-IsAbove t x vs h ps)
]

insert-IsAscending :
    (x : Text) (vs : List Text) → IsAscending vs → IsAscending (insert (λ t. t) x vs)
unfolding insert
insert-IsAscending x [] a = (tt, tt)
insert-IsAscending x (v ∷ vs) (a, rest) = elim (Bool-cases (text_geb v x)) [
  | inl first ↦ rw first ((first, IsAbove-lower x v vs first a), (a, rest))
  | inr later ↦
      rw later
        (insert-IsAbove v x vs (ground (arith, text_geb_total x v)) a, insert-IsAscending x vs rest)
]

sort_texts-IsAscending : (vs : List Text) → IsAscending (sort_texts vs)
unfolding sort_by
sort_texts-IsAscending [] = tt
sort_texts-IsAscending (v ∷ vs) = insert-IsAscending v (sort_texts vs) (sort_texts-IsAscending vs)

-- The binary search in a sorted list finds exactly the elements of the list before the sort.
pub is_listed-sort_texts : (vs : List Text) (t : Text) → is_listed (sort_texts vs) t ≡ contains t vs
is_listed-sort_texts vs t =
    is_listed-contains (sort_texts vs) t (sort_texts-IsAscending vs) ∙ contains-sort_texts t vs
