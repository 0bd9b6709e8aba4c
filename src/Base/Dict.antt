-- ===== src/Base/Dict.antt =====
-- A JavaScript `Map` with string keys, in insertion order: `set` overwrites in place or appends.
use Prim.Native.String.{String}
use mathlib.Core.Path.{◌≡◌, refl}
use mathlib.Core.Bool.{Bool, false}
use mathlib.Core.Option.{Option, none, some}
use mathlib.Core.List.{List, [], ◌∷◌}
use native.Mathlib.Omega.{arith}
use text.Mathlib.TextEquality.{eq_iff}
use tapioca_money.Base.Tests.{◌==◌, if◌then◌else◌, is_some}

abbrev pub Dict {ℓ} : Type ℓ → Type ℓ
Dict V = List (String × V)

module _ {ℓ} {V : Type ℓ} where
  unfoldable pub get : String → Dict V → Option V
  get k [] = none
  get k ((j, v) ∷ d) = if j == k then some v else get k d

  unfoldable pub has : String → Dict V → Bool
  unfolding get
  has k d = is_some (get k d)

  unfoldable pub set : String → V → Dict V → Dict V
  set k v [] = (k, v) ∷ []
  set k v ((j, w) ∷ d) = if j == k then (k, v) ∷ d else (j, w) ∷ set k v d

  -- A key stands once in a `Map`, so that all its entries are the one entry.
  unfoldable pub delete : String → Dict V → Dict V
  delete k [] = []
  delete k ((j, w) ∷ d) = let rest = delete k d in if j == k then rest else (j, w) ∷ rest

  pub get-set :
      (k j : String) (v : V) (d : Dict V) → get j (set k v d) ≡ (if k == j then some v else get j d)
  unfolding get set
  get-set k j v [] = refl
  get-set k j v ((i, w) ∷ d) = ground (arith, eq_iff k j, eq_iff i k, eq_iff i j, get-set k j v d)

  pub get-delete :
      (k j : String) (d : Dict V) → get j (delete k d) ≡ (if k == j then none else get j d)
  unfolding get delete
  get-delete k j [] = ground arith
  get-delete k j ((i, w) ∷ d) = ground (arith, eq_iff k j, eq_iff i k, eq_iff i j, get-delete k j d)

  pub get-set_self : (k : String) (v : V) (d : Dict V) → get k (set k v d) ≡ some v
  get-set_self k v d = ground (arith, get-set k k v d, eq_iff k k)

  pub get-set_ne :
      (k j : String) (v : V) (d : Dict V) → (k == j) ≡ false → get j (set k v d) ≡ get j d
  get-set_ne k j v d h = ground (arith, get-set k j v d)

  pub get-delete_self : (k : String) (d : Dict V) → get k (delete k d) ≡ none
  get-delete_self k d = ground (arith, get-delete k k d, eq_iff k k)

  pub get-delete_ne : (k j : String) (d : Dict V) → (k == j) ≡ false → get j (delete k d) ≡ get j d
  get-delete_ne k j d h = ground (arith, get-delete k j d)
