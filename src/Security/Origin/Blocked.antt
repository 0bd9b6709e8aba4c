-- ===== src/Security/Origin/Blocked.antt =====
-- Which requests are blocked.
use tapioca_money.Base.{
  String, ◌==◌, ◌≡◌, ◌↔◌, inl, inr, false, some, List, any, starts_with, arith, Option-cases,
}
use tapioca_money.Redis.Action.{ok, Result-cases}
use tapioca_money.Sentinel.Exit.{truthy}
use tapioca_money.Security.Origin.{
  Environment, Request, blocked, ends_with, safe_methods, get_allowed_origins, check_origin,
  middleware,
}

-- A request is blocked exactly if its method is not safe, its path is not that of the cron run, and it
-- names an origin that is neither allowed nor any name that ends in .vercel.app.
pub middleware-blocked :
    (env : Environment) (request : Request)
    → (middleware env request ≡ ok blocked) ↔ (
        (any (λ m. m == request.method) safe_methods ≡ false)
        × (starts_with request.pathname "/api/agent/cron" ≡ false)
        × ((origin : String) × (allowed : List String) × (truthy request.origin ≡ some origin)
            × (get_allowed_origins env ≡ ok allowed)
            × (any (λ o. o == origin) allowed ≡ false)
            × (ends_with origin ".vercel.app" ≡ false)))
unfolding middleware check_origin
middleware-blocked env request = (
  λ h. elim (Option-cases (truthy request.origin)) [
    | inl e ↦ absurd (ground arith)
    | inr (origin, e) ↦ elim (Result-cases (get_allowed_origins env)) [
      | inr (x, threw) ↦ absurd (ground arith)
      | inl (allowed, a) ↦
          (ground arith, ground arith, (origin, allowed, e, a, ground arith, ground arith))
    ]
  ],
  λ (m, p, (origin, allowed, e, a, o, v)). ground arith,
)
