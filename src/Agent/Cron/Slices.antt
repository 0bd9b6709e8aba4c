-- ===== src/Agent/Cron/Slices.antt =====
-- The batches and their chunks have every user once, in order.
use tapioca_money.Base.{
  ℕ, zero, suc, ◌≤◌, ◌<◌, ◌≡◌, refl, ap, ◌∙◌, List, [], ◌∷◌, ◌++◌, map, take, drop, length,
  length-drop, take-drop, arith,
}
use tapioca_money.Agent.Cron.Cycle.{slices, batches}

module _ {A : Type 0} where
  abbrev pub join : List (List A) → List A
  join [] = []
  join (xs ∷ xss) = xs ++ join xss

  join-slices : (fuel n : ℕ) (xs : List A) → 0 < n → length xs ≤ fuel → join (slices fuel n xs) ≡ xs
  unfolding slices
  join-slices zero n [] h long = refl
  join-slices zero n (x ∷ xs) h long = absurd (omega arith)
  join-slices (suc fuel) n [] h long = refl
  join-slices (suc fuel) n (x ∷ xs) h long =
      let shorter = length-drop n (x ∷ xs) in
      ap (λ ys. take n (x ∷ xs) ++ ys)
        (join-slices fuel n (drop n (x ∷ xs)) h (ground (arith, shorter)))
      ∙ take-drop n (x ∷ xs)

  map-join-slices :
      (n : ℕ) (xss : List (List A))
      → 0 < n
      → map join (map (λ xs. slices (length xs) n xs) xss) ≡ xss
  map-join-slices n [] h = refl
  map-join-slices n (xs ∷ xss) h =
      rw (join-slices (length xs) n xs h (omega arith), map-join-slices n xss h) refl

  -- Batches of a positive size, each in chunks of a positive size, have every user once, in the order
  -- of the list.
  pub join-batches :
      (batch_size concurrency : ℕ) (users : List A)
      → 0 < batch_size
      → 0 < concurrency
      → join (map join (batches batch_size concurrency users)) ≡ users
  unfolding batches
  join-batches batch_size concurrency users h h' =
      rw (map-join-slices concurrency (slices (length users) batch_size users) h')
        (join-slices (length users) batch_size users h (omega arith))
