-- ===== src/Base/Lists.antt =====
-- JavaScript's array functions, over the native numbers where they count.
use Prim.Native.Nat.{ℕ, zero, suc, ◌+◌, ◌-◌, ◌≤◌}
use mathlib.Core.Path.{◌≡◌, refl, ap}
use mathlib.Core.Logic.{◌⊎◌, inl, inr}
use mathlib.Core.Bool.{Bool, true, false, ◌||◌}
use mathlib.Core.Option.{Option, none, some}
use mathlib.Core.List.{List, [], ◌∷◌, ◌++◌}
use native.Mathlib.Omega.{arith}
use tapioca_money.Base.Tests.{if◌then◌else◌}

module _ {ℓ} {A : Type ℓ} where
  abbrev pub length : List A → ℕ
  length [] = 0
  length (x ∷ xs) = suc (length xs)

  abbrev pub drop : ℕ → List A → List A
  drop zero xs = xs
  drop (suc n) [] = []
  drop (suc n) (x ∷ xs) = drop n xs

  -- `xs.slice(0, n)`
  abbrev pub take : ℕ → List A → List A
  take zero xs = []
  take (suc n) [] = []
  take (suc n) (x ∷ xs) = x ∷ take n xs

  -- `xs.slice(-n)`, for a positive `n`
  abbrev pub take_last : ℕ → List A → List A
  take_last n xs = drop (length xs - n) xs

  -- `xs[xs.length - 1]`
  abbrev pub get_last? : List A → Option A
  get_last? [] = none
  get_last? (x ∷ []) = some x
  get_last? (x ∷ y ∷ xs) = get_last? (y ∷ xs)

  abbrev pub head? : List A → Option A
  head? [] = none
  head? (x ∷ xs) = some x

  -- `xs.some(p)`
  abbrev pub any : (A → Bool) → List A → Bool
  any p [] = false
  any p (x ∷ xs) = p x || any p xs

  -- `xs.find(p)`
  abbrev pub find? : (A → Bool) → List A → Option A
  find? p [] = none
  find? p (x ∷ xs) = let rest = find? p xs in if p x then some x else rest

  -- `xs.filter(p)`
  abbrev pub filter : (A → Bool) → List A → List A
  filter p [] = []
  filter p (x ∷ xs) = let rest = filter p xs in if p x then x ∷ rest else rest

  -- into a list, behind every element that does not compare greater; `gt x y` is `compare(x, y) > 0`
  abbrev pub insert_by : (A → A → Bool) → A → List A → List A
  insert_by gt x [] = x ∷ []
  insert_by gt x (y ∷ ys) = let rest = insert_by gt x ys in if gt y x then x ∷ y ∷ ys else y ∷ rest

  abbrev pub insert_all : (A → A → Bool) → List A → List A → List A
  insert_all gt sorted [] = sorted
  insert_all gt sorted (x ∷ xs) = insert_all gt (insert_by gt x sorted) xs

  -- `xs.sort(compare)`, which is stable
  abbrev pub sort_by : (A → A → Bool) → List A → List A
  sort_by gt xs = insert_all gt [] xs

  pub length-append : (xs ys : List A) → length (xs ++ ys) ≡ length xs + length ys
  length-append [] ys = omega arith
  length-append (x ∷ xs) ys = omega (arith, length-append xs ys)

  pub length-drop : (n : ℕ) (xs : List A) → length (drop n xs) ≡ length xs - n
  length-drop zero xs = omega arith
  length-drop (suc n) [] = omega arith
  length-drop (suc n) (x ∷ xs) = omega (arith, length-drop n xs)

  pub take-drop : (n : ℕ) (xs : List A) → take n xs ++ drop n xs ≡ xs
  take-drop zero xs = refl
  take-drop (suc n) [] = refl
  take-drop (suc n) (x ∷ xs) = ap (λ ys. x ∷ ys) (take-drop n xs)

  pub length-take_last : (n : ℕ) (xs : List A) → length (take_last n xs) ≤ n
  length-take_last n xs = omega (arith, length-drop (length xs - n) xs)

  pub get_last?-append : (xs : List A) (x : A) → get_last? (xs ++ x ∷ []) ≡ some x
  get_last?-append [] x = refl
  get_last?-append (y ∷ []) x = refl
  get_last?-append (y ∷ z ∷ xs) x = get_last?-append (z ∷ xs) x

module _ {ℓ κ} {A : Type ℓ} (P : A → Type κ) where
  abbrev pub All : List A → Type κ
  All [] = Unit
  All (x ∷ xs) = P x × All xs

  pub All-append : (xs ys : List A) → All xs → All ys → All (xs ++ ys)
  All-append [] ys h k = k
  All-append (x ∷ xs) ys (p, h) k = (p, All-append xs ys h k)

  pub All-filter : (p : A → Bool) (xs : List A) → All xs → All (filter p xs)
  All-filter p [] h = tt
  All-filter p (x ∷ xs) (q, h) = ground (arith, All-filter p xs h)

  pub All-filter_cons :
      (p : A → Bool) (x : A) (xs : List A)
      → (p x ≡ true → P x)
      → All (filter p xs)
      → All (filter p (x ∷ xs))
  All-filter_cons p x xs h rest = go (p x) refl
    where
      go : (b : Bool) → p x ≡ b → All (if b then x ∷ filter p xs else filter p xs)
      go true e = (h e, rest)
      go false e = rest

  pub All-of : ((x : A) → P x) → (xs : List A) → All xs
  All-of h [] = tt
  All-of h (x ∷ xs) = (h x, All-of h xs)

  pub All-insert_by :
      (gt : A → A → Bool) (x : A) (ys : List A) → P x → All ys → All (insert_by gt x ys)
  All-insert_by gt x [] p h = (p, tt)
  All-insert_by gt x (y ∷ ys) p (q, h) = ground (arith, All-insert_by gt x ys p h)

  pub All-insert_all :
      (gt : A → A → Bool) (sorted xs : List A) → All sorted → All xs → All (insert_all gt sorted xs)
  All-insert_all gt sorted [] h k = h
  All-insert_all gt sorted (x ∷ xs) h (p, k) =
      All-insert_all gt (insert_by gt x sorted) xs (All-insert_by gt x sorted p h) k

  All-of_insert_by :
      (gt : A → A → Bool) (x : A) (ys : List A) → All (insert_by gt x ys) → P x × All ys
  All-of_insert_by gt x [] h = h
  All-of_insert_by gt x (y ∷ ys) h = ground (arith, All-of_insert_by gt x ys)

  -- Sorting loses nothing.
  pub All-of_insert_all :
      (gt : A → A → Bool) (sorted xs : List A) → All (insert_all gt sorted xs) → All sorted × All xs
  All-of_insert_all gt sorted [] h = (h, tt)
  All-of_insert_all gt sorted (x ∷ xs) h =
      let (inner, rest) = All-of_insert_all gt (insert_by gt x sorted) xs h in
      let (p, q) = All-of_insert_by gt x sorted inner in (q, (p, rest))

  pub head?-All : (xs : List A) (x : A) → All xs → head? xs ≡ some x → P x
  head?-All [] x h e = absurd (ground arith)
  head?-All (y ∷ xs) x (p, h) e = ground arith

  pub All-drop : (n : ℕ) (xs : List A) → All xs → All (drop n xs)
  All-drop zero xs h = h
  All-drop (suc n) [] h = tt
  All-drop (suc n) (x ∷ xs) (q, h) = All-drop n xs h

-- Every element that is kept passes the test.
pub filter-All {ℓ} : {A : Type ℓ} (p : A → Bool) (xs : List A) → All (λ x. p x ≡ true) (filter p xs)
filter-All p [] = tt
filter-All p (x ∷ xs) = ground (arith, filter-All p xs)

pub All-imp {ℓ κ λ'} :
    {A : Type ℓ} {P : A → Type κ} {Q : A → Type λ'} (xs : List A)
    → ((x : A) → P x → Q x)
    → All P xs
    → All Q xs
All-imp [] f h = tt
All-imp (x ∷ xs) f (p, h) = (f x p, All-imp xs f h)

-- What the kept elements have by passing the test.
pub All-filter_imp {ℓ κ λ'} :
    {A : Type ℓ} {P : A → Type κ} {Q : A → Type λ'} (p : A → Bool) (xs : List A)
    → ((x : A) → p x ≡ true → P x → Q x)
    → All P xs
    → All Q (filter p xs)
All-filter_imp p [] f h = tt
All-filter_imp p (x ∷ xs) f (q, h) = ground (arith, All-filter_imp p xs f h, f x)

pub List-cases {ℓ} :
    {A : Type ℓ} (xs : List A) → (xs ≡ []) ⊎ ((x : A) × (rest : List A) × (xs ≡ x ∷ rest))
List-cases [] = inl refl
List-cases (x ∷ rest) = inr (x, rest, refl)
