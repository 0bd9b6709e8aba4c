-- ===== src/Redis/Limiter/Window.antt =====
-- The sliding window over a whole run: no window of time ever sees more than the limit allowed.
use tapioca_money.Base.{
  ℕ, ◌+◌, ◌-◌, ◌≤◌, ◌<◌, String, ◌≡◌, refl, inl, inr, ◌&&◌, none, List, [], ◌∷◌, ◌++◌, arith, leb,
  ltb, if◌then◌else◌, length, All, All-append, All-filter, All-imp, length-append, Bool-cases,
}
use tapioca_money.Base.Dict
use tapioca_money.Base.Dict.{Dict}
use tapioca_money.Redis.Memory.{Memory, SortedSet, memory_cache, empty_memory}
use tapioca_money.Redis.Memory.Laws.{entries_of}
use tapioca_money.Redis.Limiter.{PartialConfig, with_defaults, member_of, check_and_record}
use tapioca_money.Redis.Limiter.Step.{
  allowed_of, kept, counted, fits, used_key, check_and_record-memory,
}

-- how many of the times lie in the window that ends at `t`
abbrev pub in_window : ℕ → ℕ → List ℕ → ℕ
in_window w t [] = 0
in_window w t (u ∷ us) = (if leb u t && ltb t (u + w) then 1 else 0) + in_window w t us

-- how many lie after `c`
abbrev after : ℕ → List ℕ → ℕ
after c [] = 0
after c (u ∷ us) = (if ltb c u then 1 else 0) + after c us

-- how many entries have a score above `c`
abbrev above : ℕ → SortedSet → ℕ
above c [] = 0
above c (e ∷ es) = (if ltb c e.1 then 1 else 0) + above c es

abbrev ScoresUpTo : ℕ → SortedSet → Type 0
ScoresUpTo t = All (λ e. e.1 ≤ t)

above-append : (c : ℕ) (es fs : SortedSet) → above c (es ++ fs) ≡ above c es + above c fs
above-append c [] fs = omega arith
above-append c (e ∷ es) fs = omega (arith, above-append c es fs)

above-le-length : (c : ℕ) (es : SortedSet) → above c es ≤ length es
above-le-length c [] = omega arith
above-le-length c (e ∷ es) = ground (arith, above-le-length c es)

-- the clean-up removes only what lies outside the window
above-kept : (now w c : ℕ) (es : SortedSet) → now ≤ c + w → above c (kept now w es) ≡ above c es
above-kept now w c [] h = refl
above-kept now w c (e ∷ es) h = ground (arith, above-kept now w c es h)

length-kept : (now w : ℕ) (es : SortedSet) → length (kept now w es) ≤ length es
length-kept now w [] = omega arith
length-kept now w (e ∷ es) = ground (arith, length-kept now w es)

-- all that is left lies in the window, so that all of it is counted
counted-kept :
    (now w : ℕ) (es : SortedSet) → ScoresUpTo now es → counted now w es ≡ length (kept now w es)
counted-kept now w [] h = refl
counted-kept now w (e ∷ es) (b, h) = ground (arith, counted-kept now w es h)

set-fresh :
    (k : String) (v : ℕ) (es : SortedSet)
    → Dict.get k es ≡ none
    → Dict.set k v es ≡ es ++ (k, v) ∷ []
unfolding Dict.get Dict.set
set-fresh k v [] h = refl
set-fresh k v ((j, w) ∷ es) h = ground (arith, set-fresh k v es)

get-kept :
    (k : String) (now w : ℕ) (es : SortedSet)
    → Dict.get k es ≡ none
    → Dict.get k (kept now w es) ≡ none
unfolding Dict.get
get-kept k now w [] h = refl
get-kept k now w ((j, v) ∷ es) h = ground (arith, get-kept k now w es)

-- a time that is past all the others, and past the window
in_window-after :
    (w t now : ℕ) (us : List ℕ)
    → now ≤ t
    → w ≤ now
    → All (λ u. u ≤ now) us
    → in_window w t us ≡ after (t - w) us
in_window-after w t now [] h k b = refl
in_window-after w t now (u ∷ us) h k (b, bs) = ground (arith, in_window-after w t now us h k bs)

module _ (config : PartialConfig) where
  abbrev w : ℕ
  w = (with_defaults config).window_ms

  abbrev limit : ℕ
  limit = (with_defaults config).max_requests

  -- the allowed times so far and the entries, at the time `last`
  record Inv (last : ℕ) (times : List ℕ) (es : SortedSet) : Type 0 where
    scores : ScoresUpTo last es
    bounded : length es ≤ limit
    past : All (λ u. u ≤ last) times
    covered : (c : ℕ) → last ≤ c + w → after c times ≤ above c es
    within : (t : ℕ) → in_window w t times ≤ limit

  Inv-kept :
      (last now : ℕ) (times : List ℕ) (es : SortedSet)
      → last ≤ now
      → Inv last times es
      → Inv now times (kept now w es)
  Inv-kept last now times es h inv = record {
    scores =
        All-filter (λ e. e.1 ≤ now) _ es
          (All-imp es (λ e (p : e.1 ≤ last). omega arith) inv.scores);
    bounded = omega (arith, inv.bounded, length-kept now w es);
    past = All-imp times (λ u (p : u ≤ last). omega arith) inv.past;
    covered = λ c near. omega (arith, inv.covered c (omega arith), above-kept now w c es near);
    within = inv.within;
  }

  -- one more time and its entry, while there is room
  Inv-add :
      (now : ℕ) (member : String) (times : List ℕ) (es : SortedSet)
      → w ≤ now
      → length es < limit
      → Inv now times es
      → Inv now (now ∷ times) (es ++ (member, now) ∷ [])
  Inv-add now member times es past_window room inv = record {
    scores = All-append (λ e. e.1 ≤ now) es ((member, now) ∷ []) inv.scores (omega arith, tt);
    bounded = omega (arith, room, length-append es ((member, now) ∷ []));
    past = (omega arith, inv.past);
    covered = λ c near. ground (arith, inv.covered c near, above-append c es ((member, now) ∷ []));
    within = λ t. ground (
      arith,
      inv.within t,
      inv.covered (t - w),
      above-le-length (t - w) es,
      in_window-after w t now times,
      inv.past,
      room,
    );
  }

  module _ (identifier : String) where
    abbrev key : String
    key = used_key identifier config

    -- the calls of a run, each with its time and its random id, and the times that were allowed
    pub run : List (ℕ × String) → List ℕ → Memory → List ℕ × Memory
    run [] times m = (times, m)
    run ((now, uuid) ∷ calls) times m =
        let (r, m') = check_and_record memory_cache now uuid identifier config m in
        run calls (if allowed_of r then now ∷ times else times) m'

    -- The clock does not go back and is past the window, and no random id repeats a stored member.
    abbrev pub IsRun : ℕ → List (ℕ × String) → Memory → Type 0
    IsRun last [] m = Unit
    IsRun last ((now, uuid) ∷ calls) m =
        (last ≤ now)
        × (w ≤ now)
        × (Dict.get (member_of now uuid) (entries_of key m) ≡ none)
        × IsRun now calls (check_and_record memory_cache now uuid identifier config m).1

    call-Inv :
        (last now : ℕ) (uuid : String) (times : List ℕ) (m : Memory)
        → last ≤ now
        → w ≤ now
        → Dict.get (member_of now uuid) (entries_of key m) ≡ none
        → Inv last times (entries_of key m)
        → let (r, m') = check_and_record memory_cache now uuid identifier config m in
          Inv now (if allowed_of r then now ∷ times else times) (entries_of key m')
    call-Inv last now uuid times m order past_window fresh inv =
        let (same, next) = check_and_record-memory now uuid identifier config m in
        rw (same, next)
          (elim (Bool-cases (fits now config (entries_of key m))) [
            | inl room ↦
                let left = kept now w (entries_of key m) in
                let unused = get-kept (member_of now uuid) now w (entries_of key m) fresh in
                let all_counted =
                  counted-kept now w (entries_of key m)
                    (All-imp (entries_of key m) (λ e (p : e.1 ≤ last). omega arith) inv.scores) in
                rw (room, set-fresh (member_of now uuid) now left unused)
                  (Inv-add now (member_of now uuid) times left past_window
                    (ground (arith, all_counted))
                    (Inv-kept last now times (entries_of key m) order inv))
            | inr full ↦ rw full (Inv-kept last now times (entries_of key m) order inv)
          ])

    run-Inv :
        (last : ℕ) (calls : List (ℕ × String)) (times : List ℕ) (m : Memory)
        → IsRun last calls m
        → Inv last times (entries_of key m)
        → (t : ℕ) → in_window w t (run calls times m).0 ≤ limit
    unfolding run
    run-Inv last [] times m h inv t = inv.within t
    run-Inv last ((now, uuid) ∷ calls) times m (order, past_window, fresh, h) inv t =
        run-Inv now calls _ _ h (call-Inv last now uuid times m order past_window fresh inv) t

    -- Whatever the calls of `checkAndRecordRateLimit` for one identifier on the in-memory store, from
    -- an empty store: every window of the configured length holds at most `maxRequests` allowed ones.
    -- The clock must not go back and must be past the window, and the random ids must not repeat.
    pub run-within_limit :
        (calls : List (ℕ × String)) (t : ℕ)
        → IsRun 0 calls empty_memory
        → in_window w t (run calls [] empty_memory).0 ≤ limit
    unfolding Dict.get
    run-within_limit calls t h =
        run-Inv 0 calls [] empty_memory h
          (record {
            scores = tt;
            bounded = omega arith;
            past = tt;
            covered = λ c _. omega arith;
            within = λ _. omega arith;
          })
          t
