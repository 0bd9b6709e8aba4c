-- ===== src/Security/Origin.antt =====
-- middleware.ts: the check of the `Origin` of a request. What the environment sets is an argument; an
-- APP_URL that is no URL makes the check throw.
pub mod Blocked
use tapioca_money.Base.{
  String, ◌==◌, Bool, true, false, ◌||◌, not, Option, none, some, List, [], ◌∷◌, ◌++◌, any, filter,
  is_empty, starts_with, ◌+++◌, if◌then◌else◌,
}
use Prim.Native.String
use tapioca_money.Redis.Action.{Result, ok, err, and_then}
use tapioca_money.Sentinel.Exit.{truthy}

pub record Environment : Type 0 where
  -- `new URL(NEXT_PUBLIC_APP_URL).origin`, where it is set
  pub app_origin : Result (Option String)
  pub vercel_url : Option String
  pub vercel_branch_url : Option String
  -- the parts of ALLOWED_ORIGINS between commas, trimmed
  pub allowed_origins : List String

pub record Request : Type 0 where
  pub method : String
  pub pathname : String
  pub origin : Option String

-- `NextResponse.next()`, or 403
pub data Response : Type 0 where
  next blocked : Response

-- `s.endsWith(t)`
unfoldable pub ends_with : String → String → Bool
ends_with String.[] t = is_empty t
ends_with (String.◌∷◌ c s) t = (String.◌∷◌ c s == t) || ends_with s t

abbrev pub safe_methods : List String
safe_methods = "GET" ∷ "HEAD" ∷ "OPTIONS" ∷ []

abbrev pub optional : Option String → List String
optional none = []
optional (some s) = s ∷ []

abbrev pub https : Option String → List String
https none = []
https (some host) = ("https://" +++ host) ∷ []

abbrev pub fixed_origins : List String
fixed_origins =
    "https://tapioca.money" ∷ "https://www.tapioca.money" ∷ "http://localhost:3000"
    ∷ "https://localhost:3000" ∷ "http://localhost:3001" ∷ "https://localhost:3001" ∷ []

unfoldable pub get_allowed_origins : Environment → Result (List String)
get_allowed_origins env = and_then env.app_origin λ app. ok (
    optional app
    ++ https (truthy env.vercel_url)
    ++ https (truthy env.vercel_branch_url)
    ++ filter (λ s. not (is_empty s)) env.allowed_origins
    ++ fixed_origins)

-- the origin is given and not empty
unfoldable pub check_origin : Environment → String → Result Response
check_origin env origin = and_then (get_allowed_origins env) λ allowed.
    if any (λ o. o == origin) allowed || ends_with origin ".vercel.app" then ok next else ok blocked

unfoldable pub middleware : Environment → Request → Result Response
middleware env request =
    if any (λ m. m == request.method) safe_methods
    then ok next
    else if starts_with request.pathname "/api/agent/cron"
    then ok next
    else elim (truthy request.origin) [ none ↦ ok next | some origin ↦ check_origin env origin ]
