-- ===== src/Sentinel/Exit/Batches.antt =====
-- The batches: on enough fuel they settle every position, once each and in order.
use tapioca_money.Base.{
  take-drop, ℕ, zero, suc, ◌≤◌, String, ◌≡◌, refl, sym, ap, ◌∙◌, List, [], ◌∷◌, ◌++◌, arith, length,
  take, drop, length-drop,
}
use tapioca_money.Base.Double.{Double}
use tapioca_money.Sentinel.Types.{Action}
use tapioca_money.Sentinel.Exit.{
  World, UserPosition, settle_all, run_batches, execute_user_exit, max_concurrent_exits,
}

module _ {S N Auth Ctx : Type 0} ⦃d : Double N⦄ (w : World S N Auth Ctx) (now done : ℕ)
    (lock_id : String) (action : Action N) where
  settle_all-append :
      (xs ys : List (UserPosition Auth)) (s : S)
      → let (results, s') = settle_all w now done lock_id action xs s in
        let (rest, s'') = settle_all w now done lock_id action ys s' in
        settle_all w now done lock_id action (xs ++ ys) s ≡ (results ++ rest, s'')
  unfolding settle_all
  settle_all-append [] ys s = refl
  settle_all-append (x ∷ xs) ys s =
      let s' = (execute_user_exit w now done lock_id x action s).1 in
      rw (settle_all-append xs ys s') refl

  length-settle_all :
      (xs : List (UserPosition Auth)) (s : S)
      → length (settle_all w now done lock_id action xs s).0 ≡ length xs
  unfolding settle_all
  length-settle_all [] s = refl
  length-settle_all (x ∷ xs) s =
      ap suc (length-settle_all xs (execute_user_exit w now done lock_id x action s).1)

  -- Where a batch goes in the order of its list, the loop over the batches, on fuel of at least the
  -- number of positions, is the exits one after the other.
  pub run_batches-settle_all :
      (fuel : ℕ) (positions : List (UserPosition Auth)) (s : S)
      → length positions ≤ fuel
      → run_batches w fuel now done lock_id action positions s
        ≡ settle_all w now done lock_id action positions s
  unfolding run_batches settle_all
  run_batches-settle_all zero [] s enough = refl
  run_batches-settle_all zero (p ∷ ps) s enough = absurd (ground arith)
  run_batches-settle_all (suc fuel) [] s enough = refl
  run_batches-settle_all (suc fuel) (p ∷ ps) s enough =
      let batch = take max_concurrent_exits (p ∷ ps) in
      let later = drop max_concurrent_exits (p ∷ ps) in
      let s' = (settle_all w now done lock_id action batch s).1 in
      rw
        (run_batches-settle_all fuel later s'
          (omega (arith, length-drop max_concurrent_exits (p ∷ ps))))
        (sym (settle_all-append batch later s)
          ∙ ap (λ xs. settle_all w now done lock_id action xs s)
              (take-drop max_concurrent_exits (p ∷ ps)))

  -- One result for each position, on enough fuel.
  pub length-run_batches :
      (fuel : ℕ) (positions : List (UserPosition Auth)) (s : S)
      → length positions ≤ fuel
      → length (run_batches w fuel now done lock_id action positions s).0 ≡ length positions
  length-run_batches fuel positions s enough =
      rw (run_batches-settle_all fuel positions s enough) (length-settle_all positions s)
