-- ===== src/Security/Encryption.antt =====
-- lib/security/encryption.ts. AES-256-GCM, the random bytes and base64 are parameters. The state is the
-- key that was parsed last, with the text it was parsed from; a key is what `Buffer.from` makes of it.
pub mod RoundTrip
use tapioca_money.Base.{
  ℕ, zero, suc, String, ◌==◌, ◌+++◌, Bool, true, false, Option, none, some, List, [], ◌∷◌, length,
  nat_eq, is_empty, includes, starts_with, to_string, if◌then◌else◌,
}
use Prim.Native.Char.{Char, code}
use Prim.Native.String
use tapioca_money.Redis.Action.{Result, ok, err, Action, pure, throw}

-- node's crypto and Buffer
pub record Cipher (Key : Type 0) : Type 0 where
  pub key_of_hex : String → Key
  -- the n-th `crypto.randomBytes(IV_LENGTH)`
  pub random_bytes : ℕ → List ℕ
  -- the ciphertext as base64, and the tag; an error where `createCipheriv` refuses the key
  pub seal : Key → List ℕ → String → Result (String × List ℕ)
  pub unseal : Key → List ℕ → List ℕ → String → Result String
  pub to_base64 : List ℕ → String
  pub from_base64 : String → List ℕ

abbrev pub iv_length : ℕ
iv_length = 12

abbrev pub auth_tag_length : ℕ
auth_tag_length = 16

abbrev pub encrypted_prefix : String
encrypted_prefix = "encrypted:v1:"

unfoldable pub string_length : String → ℕ
string_length String.[] = 0
string_length (String.◌∷◌ c s) = suc (string_length s)

-- the first part and the others, of which there is at least one in all
unfoldable pub split_parts : String → String × List String
split_parts String.[] = (String.[], [])
split_parts (String.◌∷◌ c s) =
    let (first, others) = split_parts s in
    if nat_eq (code c) b':' then (String.[], first ∷ others) else (String.◌∷◌ c first, others)

-- `s.split(":")`
unfoldable pub split_colons : String → List String
split_colons s = let (first, others) = split_parts s in first ∷ others

unfoldable pub is_encrypted : String → Bool
is_encrypted value = starts_with value encrypted_prefix

-- `_cachedKeySource` and `_cachedKey`
abbrev pub KeyCache : Type 0 → Type 0
KeyCache Key = Option (String × Key)

-- with the number of initialization vectors that were drawn
abbrev pub Crypto : Type 0 → Type 0
Crypto Key = KeyCache Key × ℕ

-- the handler of `decrypt`
abbrev pub decryption_error : String → String
decryption_error message =
    if includes message "auth"
    then "Decryption failed: data has been tampered with or corrupted"
    else "Decryption failed: " +++ message

module _ {Key : Type 0} (cipher : Cipher Key) where
  abbrev pub parse_key : String → Result Key × KeyCache Key
  parse_key source = (ok (cipher.key_of_hex source), some (source, cipher.key_of_hex source))

  -- `env` is DATABASE_ENCRYPTION_KEY
  unfoldable pub get_encryption_key : Option String → Action (KeyCache Key) Key
  get_encryption_key none cache =
      throw "DATABASE_ENCRYPTION_KEY environment variable is not set" cache
  get_encryption_key (some source) cache =
      if is_empty source
      then throw "DATABASE_ENCRYPTION_KEY environment variable is not set" cache
      else if nat_eq (string_length source) 64
      then elim cache [
        | none ↦ parse_key source
        | some (cached_source, key) ↦
            if cached_source == source
            then pure key (some (cached_source, key))
            else parse_key source
      ]
      else throw "DATABASE_ENCRYPTION_KEY must be 64 hex characters (32 bytes)" cache

  abbrev pub encoded : List ℕ → String × List ℕ → String
  encoded iv (ciphertext, tag) =
      encrypted_prefix
      +++ (cipher.to_base64 iv +++ (":" +++ (ciphertext +++ (":" +++ cipher.to_base64 tag))))

  unfoldable pub encrypt : Option String → String → Action (Crypto Key) String
  encrypt env plaintext (cache, drawn) =
      if is_empty plaintext
      then throw "Cannot encrypt empty string" (cache, drawn)
      else if is_encrypted plaintext
      then pure plaintext (cache, drawn)
      else (let (found, cache') = get_encryption_key env cache in
          elim found [
            | err e ↦ (err e, (cache', drawn))
            | ok key ↦
                let iv = cipher.random_bytes drawn in
                elim (cipher.seal key iv plaintext) [
                  | err e ↦ (err e, (cache', suc drawn))
                  | ok sealed ↦ (ok (encoded iv sealed), (cache', suc drawn))
                ]
          ])

  -- the body of the `try`
  abbrev pub open_parts : Key → String → String → String → Result String
  open_parts key iv_base64 encrypted_data auth_tag_base64 =
      let iv = cipher.from_base64 iv_base64 in
      let auth_tag = cipher.from_base64 auth_tag_base64 in
      if nat_eq (length iv) iv_length
      then if nat_eq (length auth_tag) auth_tag_length
        then cipher.unseal key iv auth_tag encrypted_data
        else err
            ("Invalid auth tag length: expected 16 bytes, got " +++ to_string (length auth_tag))
      else err ("Invalid IV length: expected 12 bytes, got " +++ to_string (length iv))

  -- the parsed format
  unfoldable pub decrypt_parts : Key → List String → Result String
  decrypt_parts key (prefix ∷ version ∷ iv_base64 ∷ encrypted_data ∷ auth_tag_base64 ∷ []) =
      if prefix == "encrypted"
      then if version == "v1"
        then elim (open_parts key iv_base64 encrypted_data auth_tag_base64) [
          | ok plaintext ↦ ok plaintext
          | err message ↦ err (decryption_error message)
        ]
        else err ("Unsupported encryption version: " +++ version)
      else err
          ("Invalid encrypted format: expected prefix \"encrypted\", got \"" +++ prefix +++ "\"")
  decrypt_parts key _ = err "Invalid encrypted format: expected 5 parts separated by colons"

  unfoldable pub decrypt : Option String → String → Action (Crypto Key) String
  decrypt env ciphertext (cache, drawn) =
      if is_empty ciphertext
      then throw "Cannot decrypt empty string" (cache, drawn)
      else if is_encrypted ciphertext
      then (let (found, cache') = get_encryption_key env cache in
          elim found [
            | err e ↦ (err e, (cache', drawn))
            | ok key ↦ (decrypt_parts key (split_colons ciphertext), (cache', drawn))
          ])
      else pure ciphertext (cache, drawn)
