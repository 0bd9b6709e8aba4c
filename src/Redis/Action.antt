-- ===== src/Redis/Action.antt =====
-- An asynchronous function of the source: it may throw, and what it wrote before stays written.
use tapioca_money.Base.{String, ◌≡◌, ap, ◌∙◌, refl, ◌⊎◌, inl, inr}

pub data Result {ℓ} (A : Type ℓ) : Type ℓ where
  ok : A → Result A
  err : String → Result A

pub Result-cases {ℓ} :
    {A : Type ℓ} (r : Result A) → ((a : A) × (r ≡ ok a)) ⊎ ((e : String) × (r ≡ err e))
Result-cases (ok a) = inl (a, refl)
Result-cases (err e) = inr (e, refl)

-- a step after one that may have thrown
abbrev pub and_then {ℓ} : {A B : Type ℓ} → Result A → (A → Result B) → Result B
and_then (ok a) f = f a
and_then (err e) f = err e

-- over the state `S`
abbrev pub Action : Type 0 → Type 0 → Type 0
Action S A = S → Result A × S

module _ {S : Type 0} {A : Type 0} where
  abbrev pub pure : A → Action S A
  pure a s = (ok a, s)

  abbrev pub throw : String → Action S A
  throw e s = (err e, s)

  -- `try { m } catch (e) { handler(e) }`
  abbrev pub catch : Action S A → (String → Action S A) → Action S A
  catch m handler s = let (r, s') = m s in elim r [ ok a ↦ (ok a, s') | err e ↦ handler e s' ]

  -- `try { m } finally { last }`; if `last` throws, its error replaces the result
  abbrev pub finally : Action S A → Action S (Unit {0}) → Action S A
  finally m last s =
      let (r, s') = m s in
      let (q, s'') = last s' in elim q [ ok _ ↦ (r, s'') | err e ↦ (err e, s'') ]

infixl 5 ◌>>=◌ ◌>>◌
abbrev pub ◌>>=◌ : {S A B : Type 0} → Action S A → (A → Action S B) → Action S B
◌>>=◌ m f s = let (r, s') = m s in elim r [ ok a ↦ f a s' | err e ↦ (err e, s') ]

abbrev pub ◌>>◌ : {S A B : Type 0} → Action S A → Action S B → Action S B
m >> k = m >>= λ _. k

-- A step that succeeds, and what follows it.
pub >>=-ok :
    {S A B : Type 0} (m : Action S A) (f : A → Action S B) (s s' : S) (a : A)
    → m s ≡ (ok a, s')
    → (m >>= f) s ≡ f a s'
>>=-ok {S} {A} {B} m f s s' a e =
    ap (λ (p : Result A × S). elim p.0 [ ok x ↦ f x p.1 | err x ↦ (err x, p.1) ]) e

-- Two steps about a body that succeeds.
pub finally-ok :
    {S A : Type 0} (m : Action S A) (last : Action S (Unit {0})) (s s' s'' : S) (a : A)
    → m s ≡ (ok a, s')
    → last s' ≡ (ok tt, s'')
    → finally m last s ≡ (ok a, s'')
finally-ok {S} {A} m last s s' s'' a ran ended =
    ap
      (λ (p : Result A × S).
        let (q, t) = last p.1 in elim q [ ok _ ↦ (p.0, t) | err x ↦ (err x, t) ])
      ran
    ∙ ap (λ (p : Result (Unit {0}) × S). elim p.0 [ ok _ ↦ (ok a, p.1) | err x ↦ (err x, p.1) ])
        ended
