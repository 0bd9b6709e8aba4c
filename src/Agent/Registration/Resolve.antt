-- ===== src/Agent/Registration/Resolve.antt =====
-- Which registrations are resolved, and to which account.
use tapioca_money.Base.{
  ℕ, String, ◌==◌, ◌≡◌, refl, ◌⊎◌, inl, inr, Bool, true, false, Option, some, none, List, [], ◌∷◌,
  any, sym, ◌∙◌, subst, find?, arith, if◌then◌else◌, Option-cases, Bool-cases,
}
use tapioca_money.Redis.Action.{Action, Result, ok, err, Result-cases}
use tapioca_money.Security.Authorization.{Authorization, decrypt_authorization, decrypt_field}
use tapioca_money.Agent.Session.{AgentSession, from_raw, is_valid, account_address}
use tapioca_money.Agent.Registration.{
  User, ResolveResult, ResolveError, resolved, refused, DecryptedResult, decrypted, undecrypted,
  account_of, not_found, is_registered, resolve_row, resolve_agent_registration,
  resolve_and_decrypt_registration, reset_agent_registration,
}

resolve_row-resolved :
    (now : ℕ) (wallet address : String) (data_of auth : Authorization)
    → resolve_row now wallet data_of ≡ resolved address auth
    → (session : AgentSession) × (from_raw (some data_of) ≡ some session)
      × (is_valid now session ≡ true)
      × (wallet ≡ address)
      × (data_of ≡ auth)
unfolding resolve_row is_valid
resolve_row-resolved now wallet address data_of auth h =
    elim (Option-cases (from_raw (some data_of))) [
      | inl e ↦ absurd (ground arith)
      | inr (session, e) ↦ (session, e, ground arith, ground arith, ground arith)
    ]

find?-holds : {A : Type 0} (p : A → Bool) (xs : List A) (x : A) → find? p xs ≡ some x → p x ≡ true
find?-holds p [] x h = absurd (ground arith)
find?-holds p (y ∷ ys) x h = elim (Bool-cases (p y)) [
  | inl e ↦ ground (arith, e)
  | inr e ↦ find?-holds p ys x (ground (arith, e))
]

find?-none : {A : Type 0} (p : A → Bool) (xs : List A) → ((x : A) → p x ≡ false) → find? p xs ≡ none
find?-none p [] h = refl
find?-none p (x ∷ xs) h = rw (h x, find?-none p xs h) refl

-- once a wallet is reset, asking for it alone finds no registration
pub reset_agent_registration-not_found :
    (now : ℕ) (users : List User) (wallet : String)
    → resolve_agent_registration now (reset_agent_registration wallet users) (wallet ∷ [])
      ≡ not_found
unfolding resolve_agent_registration reset_agent_registration
reset_agent_registration-not_found now [] wallet = refl
reset_agent_registration-not_found now (user ∷ users) wallet =
    ground (arith, reset_agent_registration-not_found now users wallet)

resolve_agent_registration-resolved :
    (now : ℕ) (users : List User) (addresses : List String) (address : String)
    (data_of : Authorization)
    → resolve_agent_registration now users addresses ≡ resolved address data_of
    → (session : AgentSession) × (from_raw (some data_of) ≡ some session)
      × (is_valid now session ≡ true)
      × (any (λ a. address == a) addresses ≡ true)
unfolding resolve_agent_registration
resolve_agent_registration-resolved now users addresses address data_of h =
    elim (Option-cases (find? (is_registered addresses) users)) [
      | inl e ↦ absurd (ground arith)
      | inr (user, found) ↦ elim (Option-cases user.authorization_7702) [
        | inl e ↦ absurd (ground arith)
        | inr (stored, e) ↦
            let (session, raw, valid, same, _) =
              resolve_row-resolved now user.wallet_address address stored data_of
                (ground (arith, found, e)) in
            let listed = find?-holds (is_registered addresses) users user found in
            (
              session,
              ground arith,
              valid,
              subst (λ a. any (λ b. a == b) addresses ≡ true) same (ground (arith, listed)),
            )
      ]
    ]

decrypt_authorization-kept :
    {S : Type 0} (decrypt : String → Action S String) (data_of auth : Authorization) (s : S)
    → (decrypt_authorization decrypt data_of s).0 ≡ ok auth
    → (auth.eoa_address ≡ data_of.eoa_address) × (auth.expiry ≡ data_of.expiry)
unfolding decrypt_authorization
decrypt_authorization-kept decrypt data_of auth s h =
    let account = decrypt_field decrypt data_of.serialized_account s in
    elim (Result-cases account.0) [
      | inr (e, threw) ↦ absurd (ground arith)
      | inl (opened, ran) ↦
          elim (Result-cases (decrypt_field decrypt data_of.session_private_key account.1).0) [
            | inr (e, threw) ↦ absurd (ground (arith, ran))
            | inl (opened', ran') ↦ (ground (arith, ran), ground (arith, ran))
          ]
    ]

from_raw-auth :
    (data_of : Authorization) (session : AgentSession)
    → from_raw (some data_of) ≡ some session
    → (session.auth.smart_wallet_address ≡ data_of.smart_wallet_address)
      × (session.auth.eoa_address ≡ data_of.eoa_address)
unfolding from_raw
from_raw-auth data_of session h = elim (Option-cases data_of.type) [
  | inl e ↦ absurd (ground arith)
  | inr (t, e) ↦ (ground arith, ground arith)
]

-- what is said of a registration that was resolved and decrypted
abbrev HasAccount : ℕ → List String → Result DecryptedResult → Type 0
HasAccount now addresses (ok (decrypted address data_of auth account)) =
    (any (λ a. address == a) addresses ≡ true)
    × ((session : AgentSession) × (from_raw (some data_of) ≡ some session)
        × (is_valid now session ≡ true)
        × (account ≡ (
            if session.type == "zerodev-erc4337-session"
            then data_of.smart_wallet_address
            else data_of.eoa_address)))
HasAccount now addresses (ok (undecrypted _ _ _)) = Unit {0}
HasAccount now addresses (err _) = Unit {0}

ResolveResult-cases :
    (r : ResolveResult)
    → ((a : String) × (d : Authorization) × (r ≡ resolved a d))
      ⊎ ((e : ResolveError) × (m : String) × (n : ℕ) × (r ≡ refused e m n))
ResolveResult-cases (resolved a d) = inl (a, d, refl)
ResolveResult-cases (refused e m n) = inr (e, m, n, refl)

decrypted-ran :
    {S : Type 0} (decrypt : String → Action S String) (now : ℕ) (users : List User)
    (addresses : List String) (s : S) (address : String) (stored auth : Authorization)
    → resolve_agent_registration now users addresses ≡ resolved address stored
    → (decrypt_authorization decrypt stored s).0 ≡ ok auth
    → (resolve_and_decrypt_registration decrypt now users addresses s).0
      ≡ ok (decrypted address stored auth (account_of stored auth))
unfolding resolve_and_decrypt_registration
decrypted-ran decrypt now users addresses s address stored auth e opened = ground (arith, e, opened)

-- A registration that is resolved and decrypted: it is of a wallet that was asked for, its session has a
-- valid type and has not expired, and the account is the smart wallet of an ERC-4337 session, else the
-- wallet of the stored document, which the decryption does not change.
pub resolve_and_decrypt_registration-account :
    {S : Type 0} (decrypt : String → Action S String) (now : ℕ) (users : List User)
    (addresses : List String) (s : S) (address : String) (data_of auth : Authorization)
    (account : Option String)
    → (resolve_and_decrypt_registration decrypt now users addresses s).0
      ≡ ok (decrypted address data_of auth account)
    → (any (λ a. address == a) addresses ≡ true)
      × ((session : AgentSession) × (from_raw (some data_of) ≡ some session)
          × (is_valid now session ≡ true)
          × (account ≡ (
              if session.type == "zerodev-erc4337-session"
              then data_of.smart_wallet_address
              else data_of.eoa_address)))
unfolding resolve_and_decrypt_registration account_address
resolve_and_decrypt_registration-account decrypt now users addresses s address data_of auth account
      h =
    elim (ResolveResult-cases (resolve_agent_registration now users addresses)) [
      | inr (error, message, status, e) ↦ absurd (ground (arith, e))
      | inl (address', stored, e) ↦ elim (Result-cases (decrypt_authorization decrypt stored s).0) [
        | inr (e', threw) ↦ absurd (ground (arith, e))
        | inl (auth', opened) ↦
            let (session, raw, valid, listed) =
              resolve_agent_registration-resolved now users addresses address' stored e in
            let (smart, eoa) = from_raw-auth stored session raw in
            let (kept, _) = decrypt_authorization-kept decrypt stored auth' s opened in
            let account' : account_of stored auth' ≡ (
                if session.type == "zerodev-erc4337-session"
                then stored.smart_wallet_address
                else stored.eoa_address) =
              ground (arith, raw, smart, eoa, kept) in
            let same : ok (decrypted address' stored auth' (account_of stored auth'))
                ≡ ok (decrypted address data_of auth account) =
              sym (decrypted-ran decrypt now users addresses s address' stored auth' e opened)
              ∙ h in
            subst (λ r. HasAccount now addresses r) same (listed, (session, raw, valid, account'))
      ]
    ]
