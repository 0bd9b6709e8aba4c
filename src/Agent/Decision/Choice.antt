-- ===== src/Agent/Decision/Choice.antt =====
-- The target of a decision to rebalance: it is eligible, it is not paused, and its gain reaches the
-- threshold.
use tapioca_money.Base.{
  ℕ, String, ◌≡◌, ◌⊎◌, refl, inl, inr, Bool, true, false, not, Option, none, some, List, [], ◌∷◌,
  ◌≢◌, eq_iff, to_lower, to_upper, ◌++◌, map, arith, filter, head?, sort_by, All, All-filter_imp,
  All-insert_all, All-imp, head?-All, filter-All, subst, sym, ap, if◌then◌else◌, List-cases,
  Option-cases, Bool-cases,
}
use tapioca_money.Base.Double.{Double, IsIeee}
use tapioca_money.Base.Dict.{Dict}
use tapioca_money.Redis.Action.{ok, Result-cases}
use tapioca_money.Agent.Pause.{VaultPauseState}
use tapioca_money.Agent.Decision.{
  min_liquidity_usd, Fetched, Position, Vault, RebalanceDecision, is_eligible, is_redeem_paused,
  is_deposit_paused, sorts_after, effective_threshold, judge_best, choose_best, choose,
  evaluate_rebalancing, evaluate_fetched, evaluate_position, MorphoVault, YoVault,
  MorphoUserPosition, YoUserPosition, all_positions, all_vaults, largest, current_apy_of,
}

module _ {N : Type 0} ⦃d : Double N⦄ where
  -- what the vaults share, the target has, and its gain reaches the threshold
  abbrev pub IsTarget :
      (Vault N → Type 0)
      → Option (List String)
      → Position N
      → N
      → RebalanceDecision N
      → Vault N
      → Type 0
  IsTarget P targeted current current_apy decision best =
      (decision.target_vault ≡ some best)
      × P best
      × (d.le (effective_threshold targeted current) (d.sub best.apy current_apy) ≡ true)

  choose_best-IsTarget :
      (P : Vault N → Type 0) (to_fixed : N → ℕ → String) (targeted : Option (List String))
      (current : Position N) (current_apy : N) (eligible : List (Vault N))
      → All P eligible
      → let decision = choose_best to_fixed targeted current current_apy eligible in
        decision.should_rebalance ≡ true
        → (best : Vault N) × IsTarget P targeted current current_apy decision best
  unfolding choose_best judge_best
  choose_best-IsTarget P to_fixed targeted current current_apy eligible h good =
      elim (Option-cases (head? (sort_by sorts_after eligible))) [
        | inl none_left ↦ absurd (ground arith)
        | inr (best, first) ↦
            let p =
              head?-All P (sort_by sorts_after eligible) best
                (All-insert_all P sorts_after [] eligible tt h) first in
            (best, (ground arith, p, ground arith))
      ]

  -- what the pause service is asked about: the eligible vaults and the current one
  abbrev pub asked_of : Position N → List (Vault N) → List String
  asked_of current vaults =
      map (λ (v : Vault N). v.address) (filter (is_eligible current) vaults)
      ++ current.vault_address ∷ []

  -- what the pause service, if there is one, answers to that question allows to leave the current vault
  -- and to enter the target
  abbrev pub IsOpen : Fetched N → List (Vault N) → Position N → Vault N → Type 0
  IsOpen fetched vaults current best =
      (fetched.states ≡ none)
      ⊎ ((check : List String → Dict VaultPauseState) × (fetched.states ≡ some check)
          × (is_redeem_paused (check (asked_of current vaults)) current.vault_address ≡ false)
          × (is_deposit_paused (check (asked_of current vaults)) best.address ≡ false))

  -- what the target is among
  abbrev pub IsAllowed : Fetched N → List (Vault N) → Position N → Vault N → Type 0
  IsAllowed fetched vaults current v =
      (d.le min_liquidity_usd v.liquidity_usd ≡ true)
      × (to_lower v.address ≢ to_lower current.vault_address)
      × (to_upper v.underlying_symbol ≡ to_upper current.underlying_symbol)
      × IsOpen fetched vaults current v

  is_eligible-IsAllowed :
      (fetched : Fetched N) (vaults : List (Vault N)) (current : Position N) (v : Vault N)
      → is_eligible current v ≡ true
      → IsOpen fetched vaults current v
      → IsAllowed fetched vaults current v
  is_eligible-IsAllowed fetched vaults current v p clear =
      let same_address = eq_iff (to_lower v.address) (to_lower current.vault_address) in
      let same_symbol =
        eq_iff (to_upper v.underlying_symbol) (to_upper current.underlying_symbol) in
      (ground arith, ground (arith, same_address), ground (arith, same_symbol), clear)

  choose-IsTarget :
      (fetched : Fetched N) (targeted : Option (List String)) (current : Position N)
      (current_apy : N) (vaults : List (Vault N))
      → let decision = choose fetched targeted current current_apy vaults in
        decision.should_rebalance ≡ true
        → (best : Vault N) × IsTarget
            (IsAllowed fetched vaults current)
            targeted
            current
            current_apy
            decision
            best
  unfolding choose
  choose-IsTarget fetched targeted current current_apy vaults good =
      let P = IsAllowed fetched vaults current in
      let eligible = filter (is_eligible current) vaults in
      let all_eligible = filter-All (is_eligible current) vaults in
      elim (Option-cases fetched.states) [
        | inl no_service ↦
            let same : choose fetched targeted current current_apy vaults
                ≡ choose_best fetched.to_fixed targeted current current_apy eligible =
              ground arith in
            rw same (
              choose_best-IsTarget P fetched.to_fixed targeted current current_apy eligible
                (All-imp eligible
                  (λ v p. is_eligible-IsAllowed fetched vaults current v p (inl no_service))
                  all_eligible)
                (ground arith))
        | inr (check, service) ↦
            let asked = asked_of current vaults in
            elim (Bool-cases (is_redeem_paused (check asked) current.vault_address)) [
              | inl paused ↦ absurd (ground arith)
              | inr not_paused ↦
                  let open_test : Vault N → Bool =
                    λ v. not (is_deposit_paused (check asked) v.address) in
                  let same : choose fetched targeted current current_apy vaults
                      ≡ choose_best fetched.to_fixed targeted current current_apy
                          (filter open_test eligible) =
                    ground arith in
                  rw same (
                    choose_best-IsTarget P fetched.to_fixed targeted current current_apy
                      (filter open_test eligible)
                      (All-filter_imp open_test eligible
                        (λ v test p.
                          is_eligible-IsAllowed fetched vaults current v p
                            (inr (check, service, not_paused, ground arith)))
                        all_eligible)
                      (ground arith))
            ]
      ]

  -- an amount that is not NaN
  abbrev pub HasAmount : Position N → Type 0
  HasAmount p = d.is_nan p.assets_usd ≡ false

  -- none of the positions is worth more than `p`
  abbrev pub IsLargest : Position N → List (Position N) → Type 0
  IsLargest p ps = All (λ (q : Position N). d.lt p.assets_usd q.assets_usd ≡ false) ps

  no_larger :
      (ieee : IsIeee d) (u v w : Position N)
      → HasAmount u
      → d.lt u.assets_usd v.assets_usd ≡ true
      → d.lt u.assets_usd w.assets_usd ≡ false
      → d.lt v.assets_usd w.assets_usd ≡ false
  no_larger ieee u v w number above not_above = elim (Bool-cases (d.lt v.assets_usd w.assets_usd)) [
    | inr not_larger ↦ not_larger
    | inl larger ↦ ground (
      arith,
      ieee.lt_split v.assets_usd u.assets_usd w.assets_usd number larger,
      ieee.lt_asym u.assets_usd v.assets_usd above,
    )
  ]

  largest-up :
      (p x : Position N) (ps : List (Position N))
      → d.lt p.assets_usd x.assets_usd ≡ true
      → largest x ps ≡ largest p (x ∷ ps)
  unfolding largest
  largest-up p x ps h = sym (ap (λ b. largest (if b then x else p) ps) h)

  largest-stays :
      (p x : Position N) (ps : List (Position N))
      → d.lt p.assets_usd x.assets_usd ≡ false
      → largest p ps ≡ largest p (x ∷ ps)
  unfolding largest
  largest-stays p x ps h = sym (ap (λ b. largest (if b then x else p) ps) h)

  -- what the first position exceeds, the largest does
  largest-keeps :
      (ieee : IsIeee d) (p : Position N) (ps qs : List (Position N))
      → HasAmount p
      → All HasAmount ps
      → IsLargest p qs
      → IsLargest (largest p ps) qs
  unfolding largest
  largest-keeps ieee p [] qs n ns h = h
  largest-keeps ieee p (x ∷ ps) qs n (n', ns) h =
      elim (Bool-cases (d.lt p.assets_usd x.assets_usd)) [
        | inl above ↦
            subst (λ y. IsLargest y qs) (largest-up p x ps above)
              (largest-keeps ieee x ps qs n' ns (All-imp qs (λ q. no_larger ieee p x q n above) h))
        | inr below ↦
            subst (λ y. IsLargest y qs) (largest-stays p x ps below)
              (largest-keeps ieee p ps qs n ns h)
      ]

  largest-IsLargest :
      (ieee : IsIeee d) (p : Position N) (ps : List (Position N))
      → HasAmount p
      → All HasAmount ps
      → IsLargest (largest p ps) (p ∷ ps)
  unfolding largest
  largest-IsLargest ieee p [] n ns = (ieee.lt_irrefl p.assets_usd, tt)
  largest-IsLargest ieee p (x ∷ ps) n (n', ns) =
      elim (Bool-cases (d.lt p.assets_usd x.assets_usd)) [
        | inl above ↦
            let (first, _) =
              largest-keeps ieee x ps (p ∷ []) n' ns
                (ieee.lt_asym p.assets_usd x.assets_usd above, tt) in
            subst (λ y. IsLargest y (p ∷ x ∷ ps)) (largest-up p x ps above)
              (first, largest-IsLargest ieee x ps n' ns)
        | inr below ↦
            let (second, _) = largest-keeps ieee p ps (x ∷ []) n ns (below, tt) in
            let (first, rest) = largest-IsLargest ieee p ps n ns in
            subst (λ y. IsLargest y (p ∷ x ∷ ps)) (largest-stays p x ps below)
              (first, (second, rest))
      ]

  -- the largest position of those that were fetched, and the APY of its vault
  abbrev pub IsCurrent :
      Fetched N → List (MorphoVault N) → List (YoVault N) → Position N → N → Type 0
  IsCurrent fetched morpho_vaults yo_vaults current current_apy =
      (morpho_positions : List (MorphoUserPosition N)) × (yo_positions : List (YoUserPosition N))
      × (p : Position N) × (ps : List (Position N)) × (fetched.morpho_positions
          ≡ ok morpho_positions)
      × (fetched.yo_positions ≡ ok yo_positions)
      × (all_positions morpho_positions yo_positions yo_vaults ≡ p ∷ ps)
      × (current ≡ largest p ps)
      × IsLargest current (p ∷ ps)
      × (current_apy_of fetched morpho_vaults yo_vaults current ≡ ok (some current_apy))

  evaluate_position-IsTarget :
      (fetched : Fetched N) (targeted : Option (List String)) (morpho_vaults : List (MorphoVault N))
      (yo_vaults : List (YoVault N)) (current : Position N) (decision : RebalanceDecision N)
      → evaluate_position fetched targeted morpho_vaults yo_vaults current ≡ ok decision
      → decision.should_rebalance ≡ true
      → (current_apy : N) × (best : Vault N) × (current_apy_of fetched morpho_vaults yo_vaults
            current
          ≡ ok (some current_apy))
        × IsTarget
            (IsAllowed fetched (all_vaults morpho_vaults yo_vaults) current)
            targeted
            current
            current_apy
            decision
            best
  unfolding evaluate_position
  evaluate_position-IsTarget fetched targeted morpho_vaults yo_vaults current decision made good =
      elim (Result-cases (current_apy_of fetched morpho_vaults yo_vaults current)) [
        | inr (e, failed) ↦ absurd (ground arith)
        | inl (none, got) ↦ absurd (ground arith)
        | inl (some apy, got) ↦
            let vaults = all_vaults morpho_vaults yo_vaults in
            let same : choose fetched targeted current apy vaults ≡ decision = ground arith in
            let (best, target) =
              choose-IsTarget fetched targeted current apy vaults (ground arith) in
            (
              apy,
              best,
              got,
              subst (λ x. IsTarget (IsAllowed fetched vaults current) targeted current apy x best)
                  same target,
            )
      ]

  -- all that is fetched of positions has amounts that are not NaN
  abbrev pub HasAmounts : Fetched N → Type 0
  HasAmounts fetched =
      (morpho_positions : List (MorphoUserPosition N)) (yo_positions : List (YoUserPosition N))
      (yo_vaults : List (YoVault N))
      → fetched.morpho_positions ≡ ok morpho_positions
      → fetched.yo_positions ≡ ok yo_positions
      → fetched.yo_vaults ≡ ok yo_vaults
      → All HasAmount (all_positions morpho_positions yo_positions yo_vaults)

  -- A decision to rebalance, from `evaluateRebalancing` with its fetches, filters and thresholds, where
  -- the comparison follows IEEE 754 and no amount is NaN. The vaults were fetched; the current position
  -- is the one that `reduce` finds among all that were fetched, none of which is worth more; and the APY
  -- of its vault is known. The decision names a target. It has at least the minimum liquidity, another
  -- address than the current vault and the same underlying symbol. Where there is a pause service, its
  -- answer about the eligible vaults and the current one pauses neither redeems from the current vault
  -- nor deposits into the target. The target's APY is above that of the current vault by at least the
  -- threshold.
  pub evaluate_rebalancing-IsTarget :
      (ieee : IsIeee d) (fetched : Fetched N) (targeted : Option (List String))
      → HasAmounts fetched
      → (evaluate_rebalancing fetched targeted).should_rebalance ≡ true
      → (morpho_vaults : List (MorphoVault N)) × (yo_vaults : List (YoVault N))
        × (current : Position N) × (current_apy : N) × (best : Vault N) × (fetched.morpho_vaults
            ≡ ok morpho_vaults)
        × (fetched.yo_vaults ≡ ok yo_vaults)
        × IsCurrent fetched morpho_vaults yo_vaults current current_apy
        × IsTarget
            (IsAllowed fetched (all_vaults morpho_vaults yo_vaults) current)
            targeted
            current
            current_apy
            (evaluate_rebalancing fetched targeted)
            best
  unfolding evaluate_rebalancing evaluate_fetched
  evaluate_rebalancing-IsTarget ieee fetched targeted amounts good =
      elim (Result-cases fetched.morpho_positions) [
        | inr (e, failed) ↦ absurd (ground arith)
        | inl (mp, got_mp) ↦ elim (Result-cases fetched.yo_positions) [
          | inr (e, failed) ↦ absurd (ground arith)
          | inl (yp, got_yp) ↦ elim (Result-cases fetched.morpho_vaults) [
            | inr (e, failed) ↦ absurd (ground arith)
            | inl (mv, got_mv) ↦ elim (Result-cases fetched.yo_vaults) [
              | inr (e, failed) ↦ absurd (ground arith)
              | inl (yv, got_yv) ↦ elim (List-cases (all_positions mp yp yv)) [
                | inl no_position ↦ absurd (ground arith)
                | inr (p, ps, positions) ↦
                    let current = largest p ps in
                    let (n, ns) =
                      subst (λ l. All HasAmount l) positions
                        (amounts mp yp yv got_mp got_yp got_yv) in
                    elim (Result-cases (evaluate_position fetched targeted mv yv current)) [
                      | inr (e, failed) ↦ absurd (ground arith)
                      | inl (decision, made) ↦
                          let same : decision ≡ evaluate_rebalancing fetched targeted =
                            ground arith in
                          let (apy, best, got, target) =
                            evaluate_position-IsTarget fetched targeted mv yv current decision made
                              (ground arith) in
                          (
                            mv,
                            yv,
                            current,
                            apy,
                            best,
                            got_mv,
                            got_yv,
                            (
                              mp,
                              yp,
                              p,
                              ps,
                              got_mp,
                              got_yp,
                              positions,
                              refl,
                              largest-IsLargest ieee p ps n ns,
                              got,
                            ),
                            subst
                                (λ x.
                                  IsTarget (IsAllowed fetched (all_vaults mv yv) current) targeted
                                    current apy x best)
                                same target,
                          )
                    ]
              ]
            ]
          ]
        ]
      ]
