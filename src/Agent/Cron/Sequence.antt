-- ===== src/Agent/Cron/Sequence.antt =====
-- The parallel run of the users against a plain walk through the list.
use tapioca_money.Base.{◌<◌, ◌≡◌, refl, inl, inr, ap, ◌∙◌, List, [], ◌∷◌, ◌++◌, map, arith}
use tapioca_money.Base.Double.{Double}
use tapioca_money.Redis.Action.{ok, Result-cases}
use tapioca_money.Agent.Cron.Types.{World, User, CronSummary, Cron}
use tapioca_money.Agent.Cron.Cycle.{
  batches, process_user, process_chunk, process_chunks, process_batches, process_users_in_parallel,
}
use tapioca_money.Agent.Cron.Slices.{join, join-batches}

module _ {S N Raw : Type 0} ⦃d : Double N⦄ (w : World S N Raw)
    (process : User → Cron S N (Unit {0})) where
  -- the summary and the store after every user of the list in turn, each exactly once
  abbrev pub after_each : List User → CronSummary N × S → CronSummary N × S
  after_each [] p = p
  after_each (user ∷ users) p = after_each users (process_user w process user p).1

  after_each-append :
      (xs ys : List User) (p : CronSummary N × S)
      → after_each (xs ++ ys) p ≡ after_each ys (after_each xs p)
  after_each-append [] ys p = refl
  after_each-append (x ∷ xs) ys p = after_each-append xs ys (process_user w process x p).1

  process_chunk-after_each :
      (users : List User) (p : CronSummary N × S)
      → (process_chunk w process users p).1 ≡ after_each users p
  unfolding process_chunk
  process_chunk-after_each [] p = refl
  process_chunk-after_each (user ∷ users) p =
      let h = process_chunk-after_each users (process_user w process user p).1 in
      elim (Result-cases (process_user w process user p).0) [
        | inl (_, went) ↦ ground (arith, h)
        | inr (e, threw) ↦ ground (arith, h)
      ]

  process_chunks-after_each :
      (chunks : List (List User)) (p : CronSummary N × S)
      → (process_chunks w process chunks p).0 ≡ ok tt
      → (process_chunks w process chunks p).1 ≡ after_each (join chunks) p
  unfolding process_chunks
  process_chunks-after_each [] p h = refl
  process_chunks-after_each (chunk ∷ chunks) p h =
      elim (Result-cases (process_chunk w process chunk p).0) [
        | inr (e, threw) ↦ absurd (ground arith)
        | inl (_, went) ↦
            let q = (process_chunk w process chunk p).1 in
            let rest = process_chunks-after_each chunks q (ground arith) in
            let here = process_chunk-after_each chunk p in
            let split = after_each-append chunk (join chunks) p in ground (arith, rest, here, split)
      ]

  process_batches-after_each :
      (bs : List (List (List User))) (p : CronSummary N × S)
      → (process_batches w process bs p).0 ≡ ok tt
      → (process_batches w process bs p).1 ≡ after_each (join (map join bs)) p
  unfolding process_batches
  process_batches-after_each [] p h = refl
  process_batches-after_each (b ∷ bs) p h = elim (Result-cases (process_chunks w process b p).0) [
    | inr (e, threw) ↦ absurd (ground arith)
    | inl (_, went) ↦
        let q = (process_chunks w process b p).1 in
        let rest = process_batches-after_each bs q (ground arith) in
        let here = process_chunks-after_each b p (ground arith) in
        let split = after_each-append (join b) (join (map join bs)) p in
        ground (arith, rest, here, split)
  ]

  -- Batches and chunks of a positive size that throw nothing have processed the users of the list in
  -- its order, each exactly once.
  pub process_users_in_parallel-after_each :
      (users : List User) (p : CronSummary N × S)
      → 0 < w.batch_size
      → 0 < w.concurrency
      → (process_users_in_parallel w users process p).0 ≡ ok tt
      → (process_users_in_parallel w users process p).1 ≡ after_each users p
  unfolding process_users_in_parallel
  process_users_in_parallel-after_each users p h h' went =
      process_batches-after_each (batches w.batch_size w.concurrency users) p went
      ∙ ap (λ us. after_each us p) (join-batches w.batch_size w.concurrency users h h')
