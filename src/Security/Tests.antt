-- ===== src/Security/Tests.antt =====
-- The guards at concrete inputs. The cipher of the tests hides nothing: it escapes the colon.
use tapioca_money.Base.{
  ℕ, zero, suc, ◌+◌, ◌↔◌, is_empty, any, map, starts_with, to_lower, ◌==◌, String, ◌≡◌, refl, ap,
  sym, subst, ◌∙◌, inl, inr, Bool, true, false, none, some, List, [], ◌∷◌, nat_eq, if◌then◌else◌,
  arith, Bool-cases, length,
}
use Prim.Native.Char.{Char, char, code, IsScalar}
use tapioca_money.Redis.Action.{Result, ok, err}
use tapioca_money.Security.Encryption.{Cipher, string_length, is_encrypted, encrypt, decrypt}
use tapioca_money.Security.Encryption.RoundTrip.{IsCipher, has_colon, decrypt-encrypt}
use tapioca_money.Base.Dict
use tapioca_money.Sentinel.Exit.{truthy}
use tapioca_money.Security.Recipient.{
  zero_address, has, blocked_contract_addresses, validate_transfer_recipient,
}
use tapioca_money.Security.Recipient.Valid.{validate_transfer_recipient_iff}
use tapioca_money.Security.Origin.{
  Environment, Request, blocked, ends_with, safe_methods, get_allowed_origins, middleware,
}
use tapioca_money.Security.Origin.Blocked.{middleware-blocked}
use tapioca_money.Security.Access.{
  LinkedAccount, Privy, require_auth_for_address, check_owner, authenticate_request,
  authenticate_token, user_of, evict, extract_all_wallet_addresses, extract_wallet_address,
  is_evm_wallet, is_embedded_wallet, slice_from,
}
use tapioca_money.Security.Access.Owned.{
  IsOwner, IsBounded, require_auth_for_address-IsOwner, require_auth_for_address-IsBounded,
}

abbrev letter_a : Char
letter_a = char b'a' tt

abbrev escape : String → String
escape String.[] = String.[]
escape (String.◌∷◌ c s) =
    let rest = escape s in
    if nat_eq (code c) b':'
    then String.◌∷◌ letter_a (String.◌∷◌ (char b'c' tt) rest)
    else if nat_eq (code c) b'a'
    then String.◌∷◌ letter_a (String.◌∷◌ (char b'b' tt) rest)
    else String.◌∷◌ c rest

-- `escaped` says whether an "a" came before
abbrev unescape : Bool → String → String
unescape escaped String.[] = String.[]
unescape true (String.◌∷◌ c s) =
    let rest = unescape false s in
    if nat_eq (code c) b'c' then String.◌∷◌ (char b':' tt) rest else String.◌∷◌ letter_a rest
unescape false (String.◌∷◌ c s) =
    let inside = unescape true s in
    let rest = unescape false s in if nat_eq (code c) b'a' then inside else String.◌∷◌ c rest

char-is :
    (c d : Char) (n : ℕ) (q : IsScalar n) → ((p : IsScalar n) → p ≡ q) → n ≡ code c → c ≡ char n q
char-is (char m p) d n q only h =
    subst (λ k. (r : IsScalar k) → char k r ≡ char n q) h (λ r. ap (λ t. char n t) (only r)) p

unescape-escape : (s : String) → unescape false (escape s) ≡ s
unescape-escape String.[] = refl
unescape-escape (String.◌∷◌ c s) = elim (Bool-cases (nat_eq (code c) b':')) [
  | inl colon ↦
      let same : c ≡ char b':' tt = char-is c c b':' tt (λ p. refl) (ground arith) in
      rw (colon, unescape-escape s) (ap (λ x. String.◌∷◌ x s) (sym same))
  | inr other ↦ elim (Bool-cases (nat_eq (code c) b'a')) [
    | inl a ↦
        let same : c ≡ letter_a = char-is c c b'a' tt (λ p. refl) (ground arith) in
        rw (other, a, unescape-escape s) (ap (λ x. String.◌∷◌ x s) (sym same))
    | inr b ↦ rw (other, b) (rw (b, unescape-escape s) refl)
  ]
]

has_colon-escape : (s : String) → has_colon (escape s) ≡ false
has_colon-escape String.[] = refl
has_colon-escape (String.◌∷◌ c s) = ground (arith, has_colon-escape s)

-- a number as so many "x" and a "y"
abbrev unary : ℕ → String → String
unary zero rest = String.◌∷◌ (char b'y' tt) rest
unary (suc n) rest = String.◌∷◌ (char b'x' tt) (unary n rest)

abbrev to_text : List ℕ → String
to_text [] = String.[]
to_text (n ∷ ns) = unary n (to_text ns)

abbrev of_text : ℕ → String → List ℕ
of_text n String.[] = []
of_text n (String.◌∷◌ c s) =
    let more = of_text (suc n) s in
    let rest = of_text 0 s in if nat_eq (code c) b'x' then more else n ∷ rest

of_text-unary : (k n : ℕ) (rest : String) → of_text k (unary n rest) ≡ (k + n) ∷ of_text 0 rest
of_text-unary k zero rest = ap (λ m. m ∷ of_text 0 rest) (omega arith)
of_text-unary k (suc n) rest =
    of_text-unary (suc k) n rest ∙ ap (λ m. m ∷ of_text 0 rest) (omega arith)

of_text-to_text : (ns : List ℕ) → of_text 0 (to_text ns) ≡ ns
of_text-to_text [] = refl
of_text-to_text (n ∷ ns) =
    rw (of_text-unary 0 n (to_text ns), of_text-to_text ns) (ap (λ m. m ∷ ns) (omega arith))

has_colon-unary :
    (n : ℕ) (rest : String) → has_colon rest ≡ false → has_colon (unary n rest) ≡ false
has_colon-unary zero rest h = h
has_colon-unary (suc n) rest h = has_colon-unary n rest h

has_colon-to_text : (ns : List ℕ) → has_colon (to_text ns) ≡ false
has_colon-to_text [] = refl
has_colon-to_text (n ∷ ns) = has_colon-unary n (to_text ns) (has_colon-to_text ns)

abbrev zeros : ℕ → List ℕ
zeros zero = []
zeros (suc n) = 0 ∷ zeros n

abbrev cipher : Cipher String
cipher = record {
  key_of_hex = λ text. text;
  random_bytes = λ _. zeros 12;
  seal = λ _ _ plaintext. ok (escape plaintext, zeros 16);
  unseal = λ _ _ _ text. ok (unescape false text);
  to_base64 = to_text;
  from_base64 = of_text 0;
}

sealed_parts :
    (plaintext : String) (sealed : String × List ℕ)
    → cipher.seal "" [] plaintext ≡ ok sealed
    → (escape plaintext, zeros 16) ≡ sealed
sealed_parts plaintext sealed made = ground arith

cipher-IsCipher : IsCipher cipher
cipher-IsCipher = record {
  seals = λ _ _ plaintext _ _. ((escape plaintext, zeros 16), refl);
  unseal_seal = λ _ _ plaintext sealed made.
      subst (λ t. ok (unescape false t.0) ≡ ok plaintext) (sealed_parts plaintext sealed made)
        (ap (λ s. ok s) (unescape-escape plaintext));
  length_random = λ _. refl;
  length_tag = λ _ _ plaintext sealed made.
      subst (λ t. length t.1 ≡ 16) (sealed_parts plaintext sealed made) refl;
  seal_colon = λ _ _ plaintext sealed made.
      subst (λ t. has_colon t.0 ≡ false) (sealed_parts plaintext sealed made)
        (has_colon-escape plaintext);
  from_to = of_text-to_text;
  base64_colon = has_colon-to_text;
}

abbrev key : String
key = "0123456789abcdef0123456789abcdef0123456789abcdef0123456789abcdef"

-- one process has the key in its cache, the other has not
decrypt-encrypt_example :
    (sealed : String) × ((encrypt cipher (some key) "a:b" (none, 0)).0 ≡ ok sealed)
    × (is_encrypted sealed ≡ true)
    × ((decrypt cipher (some key) sealed (some (key, key), 5)).0 ≡ ok "a:b")
unfolding string_length is_encrypted
decrypt-encrypt_example =
    decrypt-encrypt cipher cipher-IsCipher key "a:b" none (some (key, key)) 0 5 (refl, refl) refl
      refl tt refl

abbrev sets_nothing : Environment
sets_nothing = record {
  app_origin = ok none;
  vercel_url = none;
  vercel_branch_url = none;
  allowed_origins = [];
}

abbrev foreign_post : Request
foreign_post = record {
  method = "POST";
  pathname = "/api/transfer/send";
  origin = some "https://evil.example";
}

middleware-blocked_example : (middleware sets_nothing foreign_post ≡ ok blocked) ↔ (
    (any (λ m. m == "POST") safe_methods ≡ false)
    × (starts_with "/api/transfer/send" "/api/agent/cron" ≡ false)
    × ((origin : String) × (allowed : List String) × (truthy (some "https://evil.example")
          ≡ some origin)
        × (get_allowed_origins sets_nothing ≡ ok allowed)
        × (any (λ o. o == origin) allowed ≡ false)
        × (ends_with origin ".vercel.app" ≡ false)))
middleware-blocked_example = middleware-blocked sets_nothing foreign_post

abbrev any_text : String → Bool
any_text _ = true

validate_transfer_recipient_iff_example :
    ((validate_transfer_recipient any_text blocked_contract_addresses "0xA" "0xB"
        (some ("0xa" ∷ []))).valid
      ≡ true)
    ↔ ((is_empty "0xA" ≡ false)
        × (any_text "0xA" ≡ true)
        × ((to_lower "0xA" == to_lower zero_address) ≡ false)
        × ((to_lower "0xA" == to_lower "0xB") ≡ false)
        × (has blocked_contract_addresses (to_lower "0xA") ≡ false)
        × (has (map to_lower ("0xa" ∷ [])) (to_lower "0xA") ≡ false))
validate_transfer_recipient_iff_example =
    validate_transfer_recipient_iff any_text blocked_contract_addresses "0xA" "0xB"
      (some ("0xa" ∷ []))

abbrev accounts : List LinkedAccount
accounts =
    record {
      type = "wallet";
      chain_type = none;
      wallet_client_type = some "privy";
      address = some "0xA";
    }
    ∷ []

abbrev privy : Privy
privy = record { verify_access_token = λ _. ok "u"; get_user = λ _. ok accounts }

require_auth_for_address-IsOwner_example : IsOwner privy 0 (some "Bearer t") "0xa" []
unfolding require_auth_for_address check_owner authenticate_request authenticate_token user_of evict
    extract_all_wallet_addresses extract_wallet_address is_evm_wallet is_embedded_wallet slice_from
    Dict.get Dict.set to_lower
require_auth_for_address-IsOwner_example =
    require_auth_for_address-IsOwner privy 0 (some "Bearer t") "0xa" []
      (record {
        authenticated = true;
        user_id = some "u";
        wallet_address = some "0xa";
        all_wallet_addresses = some ("0xa" ∷ []);
        error = none;
      })
      refl refl

names_u :
    (text user_id : String) → privy.verify_access_token text ≡ ok user_id → is_empty user_id ≡ false
names_u text user_id h =
    sym (ap (λ (r : Result String). elim r [ ok s ↦ is_empty s | err e ↦ false ]) h)

require_auth_for_address-IsBounded_example :
    IsBounded (require_auth_for_address privy 0 (some "Bearer t") "0xa" []).1
require_auth_for_address-IsBounded_example =
    require_auth_for_address-IsBounded privy 0 (some "Bearer t") "0xa" [] names_u (tt, omega arith)
