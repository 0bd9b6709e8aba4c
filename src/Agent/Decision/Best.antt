-- ===== src/Agent/Decision/Best.antt =====
-- The target of a choice: no eligible vault pays more.
use tapioca_money.Base.{
  ℕ, String, ◌≡◌, inl, inr, true, false, Option, some, List, [], ◌∷◌, arith, sort_by, insert_by,
  insert_all, All, All-insert_by, All-of_insert_all, All-imp, subst, List-cases, Bool-cases,
}
use tapioca_money.Base.Double.{Double, IsIeee}
use tapioca_money.Agent.Decision.{Position, Vault, sorts_after, judge_best, choose_best}

module _ {N : Type 0} ⦃d : Double N⦄ where
  -- `v` does not pay less than any of the vaults
  abbrev pub IsBest : Vault N → List (Vault N) → Type 0
  IsBest v vaults = All (λ (u : Vault N). d.lt v.apy u.apy ≡ false) vaults

  abbrev pub IsNumber : Vault N → Type 0
  IsNumber v = d.is_nan v.apy ≡ false

  -- the list's head is among its best
  HeadIsBest : List (Vault N) → Type 0
  HeadIsBest [] = Unit
  HeadIsBest (v ∷ vaults) = IsBest v (v ∷ vaults)

  no_higher :
      (ieee : IsIeee d) (u v w : Vault N)
      → IsNumber u
      → d.lt u.apy v.apy ≡ true
      → d.lt u.apy w.apy ≡ false
      → d.lt v.apy w.apy ≡ false
  no_higher ieee u v w number above not_above = elim (Bool-cases (d.lt v.apy w.apy)) [
    | inr not_higher ↦ not_higher
    | inl higher ↦
        ground
          (arith, ieee.lt_split v.apy u.apy w.apy number higher, ieee.lt_asym u.apy v.apy above)
  ]

  insert_by-HeadIsBest :
      (ieee : IsIeee d) (v : Vault N) (sorted : List (Vault N))
      → IsNumber v
      → All IsNumber sorted
      → HeadIsBest sorted
      → HeadIsBest (insert_by sorts_after v sorted)
  unfolding HeadIsBest
  insert_by-HeadIsBest ieee v [] number numbers h = (ieee.lt_irrefl v.apy, tt)
  insert_by-HeadIsBest ieee v (u ∷ sorted) number (number', numbers) (h, hs) =
      elim (Bool-cases (sorts_after u v)) [
        | inl before ↦
            let above : d.lt u.apy v.apy ≡ true = ground (arith, ieee.sub_sign u.apy v.apy) in
            rw before (
              ieee.lt_irrefl v.apy,
              (
                ieee.lt_asym u.apy v.apy above,
                All-imp sorted (λ w. no_higher ieee u v w number' above) hs,
              ),
            )
        | inr after ↦ rw after (
          h,
          All-insert_by (λ (w : Vault N). d.lt u.apy w.apy ≡ false) sorts_after v sorted
              (ground (arith, ieee.sub_sign u.apy v.apy)) hs,
        )
      ]

  insert_all-HeadIsBest :
      (ieee : IsIeee d) (sorted vaults : List (Vault N))
      → All IsNumber sorted
      → All IsNumber vaults
      → HeadIsBest sorted
      → HeadIsBest (insert_all sorts_after sorted vaults)
  insert_all-HeadIsBest ieee sorted [] numbers ns h = h
  insert_all-HeadIsBest ieee sorted (v ∷ vaults) numbers (n, ns) h =
      insert_all-HeadIsBest ieee (insert_by sorts_after v sorted) vaults
        (All-insert_by IsNumber sorts_after v sorted n numbers) ns
        (insert_by-HeadIsBest ieee v sorted n numbers h)

  -- The target of a choice among vaults whose APYs are numbers: no vault among them has a higher APY.
  pub choose_best-IsBest :
      (ieee : IsIeee d) (to_fixed : N → ℕ → String) (targeted : Option (List String))
      (current : Position N) (current_apy : N) (eligible : List (Vault N)) (best : Vault N)
      → All IsNumber eligible
      → (choose_best to_fixed targeted current current_apy eligible).target_vault ≡ some best
      → IsBest best eligible
  unfolding choose_best judge_best HeadIsBest
  choose_best-IsBest ieee to_fixed targeted current current_apy eligible best numbers made =
      let head_best = insert_all-HeadIsBest ieee [] eligible tt numbers tt in
      elim (List-cases (sort_by sorts_after eligible)) [
        | inl none_left ↦ absurd (ground arith)
        | inr (v, rest, sorted) ↦
            let same : v ≡ best = ground arith in
            let all_best : IsBest v (sort_by sorts_after eligible) =
              rw sorted (subst HeadIsBest sorted head_best) in
            (All-of_insert_all (λ (u : Vault N). d.lt best.apy u.apy ≡ false) sorts_after []
              eligible (subst (λ w. IsBest w (sort_by sorts_after eligible)) same all_best)).1
      ]
