-- ===== src/Security/Encryption/RoundTrip.antt =====
-- What was encrypted is decrypted again, with base64 and AES-256-GCM as node documents them.
use tapioca_money.Base.{
  ℕ, String, ◌+++◌, ◌≡◌, refl, ap, ◌∙◌, Bool, true, false, ◌||◌, ◌&&◌, leb, none, some, List, [],
  ◌∷◌, length, nat_eq, is_empty, arith, eq_iff, Bool-cases, inl, inr, ◌==◌,
}
use Prim.Native.Char.{char, code}
use text.Mathlib.TextLemmas.{nil-append, cons-append, append_assoc}
use text.Mathlib.TextPositions.{starts_with-append}
use Prim.Native.String
use tapioca_money.Redis.Action.{ok}
use tapioca_money.Security.Encryption.{
  Cipher, KeyCache, string_length, split_parts, split_colons, is_encrypted, encoded,
  encrypted_prefix, get_encryption_key, decrypt_parts, encrypt, decrypt,
}

abbrev pub has_colon : String → Bool
has_colon String.[] = false
has_colon (String.◌∷◌ c s) = nat_eq (code c) b':' || has_colon s

abbrev pub is_hex_digit : ℕ → Bool
is_hex_digit c = leb b'0' c && leb c b'9' || leb b'a' c && leb c b'f' || leb b'A' c && leb c b'F'

abbrev pub is_hex : String → Bool
is_hex String.[] = true
is_hex (String.◌∷◌ c s) = is_hex_digit (code c) && is_hex s

-- the text of a key of 32 bytes
abbrev pub IsHexKey : String → Type 0
IsHexKey source = (string_length source ≡ 64) × (is_hex source ≡ true)

-- what is relied on: a key of 32 bytes seals, a tag has 16 bytes, unsealing undoes sealing, and base64
-- has no colon and is undone
pub record IsCipher {Key : Type 0} (cipher : Cipher Key) : Type 0 where
  pub seals :
      (source : String) (iv : List ℕ) (plaintext : String)
      → IsHexKey source
      → length iv ≡ 12
      → (sealed : String × List ℕ) × (cipher.seal (cipher.key_of_hex source) iv plaintext
          ≡ ok sealed)
  pub unseal_seal :
      (key : Key) (iv : List ℕ) (plaintext : String) (sealed : String × List ℕ)
      → cipher.seal key iv plaintext ≡ ok sealed
      → cipher.unseal key iv sealed.1 sealed.0 ≡ ok plaintext
  pub length_random : (n : ℕ) → length (cipher.random_bytes n) ≡ 12
  pub length_tag :
      (key : Key) (iv : List ℕ) (plaintext : String) (sealed : String × List ℕ)
      → cipher.seal key iv plaintext ≡ ok sealed
      → length sealed.1 ≡ 16
  pub seal_colon :
      (key : Key) (iv : List ℕ) (plaintext : String) (sealed : String × List ℕ)
      → cipher.seal key iv plaintext ≡ ok sealed
      → has_colon sealed.0 ≡ false
  pub from_to : (bytes : List ℕ) → cipher.from_base64 (cipher.to_base64 bytes) ≡ bytes
  pub base64_colon : (bytes : List ℕ) → has_colon (cipher.to_base64 bytes) ≡ false

-- the cached key is that of its text
abbrev pub IsParsed : {Key : Type 0} → Cipher Key → KeyCache Key → Type 0
IsParsed cipher none = Unit {0}
IsParsed cipher (some (source, key)) = key ≡ cipher.key_of_hex source

split_parts-whole : (s : String) → has_colon s ≡ false → split_parts s ≡ (s, [])
unfolding split_parts
split_parts-whole String.[] h = refl
split_parts-whole (String.◌∷◌ c s) h = ground (arith, split_parts-whole s)

split_parts-append :
    (s t : String)
    → has_colon s ≡ false
    → split_parts (s +++ (":" +++ t)) ≡ (s, (split_parts t).0 ∷ (split_parts t).1)
unfolding split_parts ◌+++◌
split_parts-append String.[] t h =
    rw (nil-append (String.◌++◌ ":" t), cons-append (char b':' tt) "" t, nil-append t) refl
split_parts-append (String.◌∷◌ c s) t h =
    rw (cons-append c s (String.◌++◌ ":" t)) (ground (arith, split_parts-append s t))

prefix-append :
    (s : String) → encrypted_prefix +++ s ≡ "encrypted" +++ (":" +++ ("v1" +++ (":" +++ s)))
unfolding ◌+++◌
prefix-append s =
    append_assoc "encrypted" ":v1:" s
    ∙ ap (λ t. String.◌++◌ "encrypted" t)
        (append_assoc ":" "v1:" s ∙ ap (λ t. String.◌++◌ ":" t) (append_assoc "v1" ":" s))

is_encrypted-prefix : (s : String) → is_encrypted (encrypted_prefix +++ s) ≡ true
unfolding is_encrypted ◌+++◌
is_encrypted-prefix s = starts_with-append encrypted_prefix s

is_empty-encrypted : (s : String) → is_encrypted s ≡ true → is_empty s ≡ false
unfolding is_encrypted
is_empty-encrypted String.[] h = absurd (ground arith)
is_empty-encrypted (String.◌∷◌ c s) h = refl

module _ {Key : Type 0} (cipher : Cipher Key) (laws : IsCipher cipher) where
  -- the key that any cache of parsed keys gives, and the cache after it
  get_encryption_key-ok :
      (source : String) (cache : KeyCache Key)
      → string_length source ≡ 64
      → IsParsed cipher cache
      → (after : KeyCache Key) × (get_encryption_key cipher (some source) cache
          ≡ (ok (cipher.key_of_hex source), after))
        × IsParsed cipher after
  unfolding get_encryption_key string_length
  get_encryption_key-ok String.[] cache long parsed = absurd (omega arith)
  get_encryption_key-ok (String.◌∷◌ c s) none long parsed =
      (some (String.◌∷◌ c s, cipher.key_of_hex (String.◌∷◌ c s)), ground (arith, long), refl)
  get_encryption_key-ok (String.◌∷◌ c s) (some (source, key)) long parsed =
      elim (Bool-cases (source == String.◌∷◌ c s)) [
        | inr other ↦
            (some (String.◌∷◌ c s, cipher.key_of_hex (String.◌∷◌ c s)), ground arith, refl)
        | inl same ↦
            let equal : source ≡ String.◌∷◌ c s = (eq_iff source (String.◌∷◌ c s)).0 same in
            (some (source, key), rw (parsed, equal) (ground arith), parsed)
      ]

  split_colons-encoded :
      (iv : List ℕ) (sealed : String × List ℕ)
      → has_colon sealed.0 ≡ false
      → split_colons (encoded cipher iv sealed)
        ≡ "encrypted" ∷ "v1" ∷ cipher.to_base64 iv ∷ sealed.0 ∷ cipher.to_base64 sealed.1 ∷ []
  unfolding split_colons
  split_colons-encoded iv sealed h =
      rw
        (
          prefix-append (
              cipher.to_base64 iv +++ (":" +++ (sealed.0 +++ (":" +++ cipher.to_base64 sealed.1)))),
          split_parts-append "encrypted" _ refl,
          split_parts-append "v1" _ refl,
          split_parts-append (cipher.to_base64 iv) _ (laws.base64_colon iv),
          split_parts-append sealed.0 _ h,
          split_parts-whole (cipher.to_base64 sealed.1) (laws.base64_colon sealed.1),
        )
        refl

  decrypt_parts-encoded :
      (key : Key) (iv : List ℕ) (plaintext : String) (sealed : String × List ℕ)
      → length iv ≡ 12
      → cipher.seal key iv plaintext ≡ ok sealed
      → decrypt_parts cipher key (split_colons (encoded cipher iv sealed)) ≡ ok plaintext
  unfolding decrypt_parts
  decrypt_parts-encoded key iv plaintext sealed long made =
      rw (split_colons-encoded iv sealed (laws.seal_colon key iv plaintext sealed made)) (
        ground (
          arith,
          laws.from_to iv,
          laws.from_to sealed.1,
          laws.length_tag key iv plaintext sealed made,
          laws.unseal_seal key iv plaintext sealed made,
        ))

  -- A text that is not empty and not encrypted yet, under a key of 64 hexadecimal digits: `encrypt` gives
  -- an encrypted text, which `decrypt` undoes, each with whatever parsed key its process has cached.
  pub decrypt-encrypt :
      (source plaintext : String) (cache later : KeyCache Key) (drawn drawn' : ℕ)
      → IsHexKey source
      → is_empty plaintext ≡ false
      → is_encrypted plaintext ≡ false
      → IsParsed cipher cache
      → IsParsed cipher later
      → (sealed : String) × ((encrypt cipher (some source) plaintext (cache, drawn)).0 ≡ ok sealed)
        × (is_encrypted sealed ≡ true)
        × ((decrypt cipher (some source) sealed (later, drawn')).0 ≡ ok plaintext)
  unfolding encrypt decrypt
  decrypt-encrypt source plaintext cache later drawn drawn' (long, hex) full fresh parsed parsed' =
      let (after, found, _) = get_encryption_key-ok source cache long parsed in
      let (after', found', _) = get_encryption_key-ok source later long parsed' in
      let key = cipher.key_of_hex source in
      let iv = cipher.random_bytes drawn in
      let (parts, made) = laws.seals source iv plaintext (long, hex) (laws.length_random drawn) in
      let sealed = encoded cipher iv parts in
      let marked : is_encrypted sealed ≡ true = is_encrypted-prefix _ in
      let opened = decrypt_parts-encoded key iv plaintext parts (laws.length_random drawn) made in
      (
        sealed,
        rw (full, fresh, found, made) refl,
        marked,
        rw (is_empty-encrypted sealed marked, marked, found') opened,
      )
