-- ===== src/Redis/Budget/Laws.antt =====
-- The budget of user operations.
use tapioca_money.Base.{ℕ, String, ◌≡◌, ◌⊎◌, inl, inr, Option, arith}
use tapioca_money.Redis.Action.{Result-cases, ok}
use tapioca_money.Redis.Cache.{Cache}
use tapioca_money.Redis.Budget.{userop_budget_key, userop_daily_limit, count_of, get_user_op_count}

-- Over any cache that cannot connect or cannot be read, the count is the whole daily limit, so that
-- no operation fits the budget; otherwise it is the number that is stored.
pub get_user_op_count-closed :
    {S : Type 0} (c : Cache S) (now : ℕ) (wallet : String) (s : S) (n : ℕ)
    → (get_user_op_count c now wallet s).0 ≡ ok n
    → (n ≡ userop_daily_limit)
      ⊎ ((text : Option String) × ((c.connect s).0 ≡ ok tt)
          × ((c.get now (userop_budget_key wallet) (c.connect s).1).0 ≡ ok text)
          × (n ≡ count_of text))
unfolding get_user_op_count
get_user_op_count-closed c now wallet s n e = elim (Result-cases (c.connect s).0) [
  | inr (_, failed) ↦ inl (ground arith)
  | inl (_, connected) ↦
      elim (Result-cases (c.get now (userop_budget_key wallet) (c.connect s).1).0) [
        | inr (_, failed) ↦ inl (ground arith)
        | inl (text, found) ↦ inr (text, ground arith, found, ground arith)
      ]
]
