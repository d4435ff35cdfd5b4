-- ===== src/Secrets.antt =====
-- The envelope of a credential, supabase/functions/_shared/crypto.ts.
--
-- WebCrypto, base64 and UTF-8 are the platform's: parameters, with the laws of their
-- specifications. The random bytes of `getRandomValues` are an argument.
pub mod RoundTrip
pub mod Uniform
use rebalance_webull.Prelude.{
  ◌<◌, ℕ, zero, suc, ◌+◌, ◌-◌, ◌≤◌, ◌%◌, ◌≡◌, Bool, true, false, ◌&&◌, ◌||◌, not, Option, none,
  some, List, [], ◌∷◌, ◌++◌, map, reverse, Text, codes, IsAscii, all, length, drop, leb, ltb, ◌==◌,
  if◌then◌else◌, arith,
}

abbrev pub Bytes : Type 0
Bytes = List ℕ

-- Every element is a byte.
abbrev pub are_bytes : Bytes → Bool
are_bytes bytes = all (λ b. ltb b 256) bytes

-- The letters of base64 (RFC 4648, section 4), without padding.
abbrev pub is_letter64 : ℕ → Bool
is_letter64 c =
    (leb b'A' c && leb c b'Z')
    || (leb b'a' c && leb c b'z')
    || (leb b'0' c && leb c b'9')
    || c == b'+'
    || c == b'/'

abbrev pub is_digit : ℕ → Bool
is_digit c = leb b'0' c && leb c b'9'

abbrev pub is_empty : Text → Bool
is_empty [] = true
is_empty _ = false

abbrev pub repeat : ℕ → ℕ → Text
repeat c zero = []
repeat c (suc n) = c ∷ repeat c n

pub record Platform : Type 0 where
  -- `btoa` on a binary string, `atob`, which throws on what is no base64, and a decimal numeral.
  pub btoa : Bytes → Text
  pub atob : Text → Option Bytes
  pub decimal : ℕ → Text
  -- `TextEncoder` and `TextDecoder`.
  pub encode : Text → Bytes
  pub decode : Bytes → Text
  -- AES-GCM under a key, a nonce and additional data; `none` is a rejection.
  pub encrypt : Bytes → Bytes → Bytes → Bytes → Bytes
  pub decrypt : Bytes → Bytes → Bytes → Bytes → Option Bytes
  pub atob-btoa : (b : Bytes) → are_bytes b ≡ true → atob (btoa b) ≡ some b
  -- Letters, with padding up to a multiple of four.
  pub btoa_padded :
      (b : Bytes)
      → (body : Text) × (k : ℕ) × (btoa b ≡ body ++ repeat b'=' k)
        × (all is_letter64 body ≡ true)
        × (k ≤ 3)
        × ((length body + k) % 4 ≡ 0)
  -- From 10^21 on, JavaScript writes a number with an exponent.
  pub decimal_digits :
      (n : ℕ)
      → n < 1_000_000_000_000_000_000_000
      → (is_empty (decimal n) ≡ false) × (all is_digit (decimal n) ≡ true)
  pub encode_bytes : (t : Text) → IsAscii t → are_bytes (encode t) ≡ true
  pub decode-encode : (t : Text) → IsAscii t → decode (encode t) ≡ t
  pub encrypt_bytes :
      (key iv aad plain : Bytes)
      → are_bytes plain ≡ true
      → are_bytes (encrypt key iv aad plain) ≡ true
  pub decrypt-encrypt :
      (key iv aad plain : Bytes)
      → are_bytes plain ≡ true
      → decrypt key iv aad (encrypt key iv aad plain) ≡ some plain

-- `replace(/x/g, "y")` for one character.
abbrev pub replace : ℕ → ℕ → Text → Text
replace from to t = map (λ c. if c == from then to else c) t

unfoldable pub drop_padding : Text → Text
drop_padding [] = []
drop_padding (c ∷ t) = if c == b'=' then drop_padding t else c ∷ t

-- `replace(/=+$/, "")`
unfoldable pub strip_padding : Text → Text
unfolding drop_padding
strip_padding t = reverse (drop_padding (reverse t))

-- `split(".")`
abbrev pub before : ℕ → List Text → List Text
before c [] = (c ∷ []) ∷ []
before c (part ∷ parts) = (c ∷ part) ∷ parts

unfoldable pub split_dots : Text → List Text
split_dots [] = [] ∷ []
split_dots (c ∷ t) = let rest = split_dots t in if c == b'.' then [] ∷ rest else before c rest

-- The value of a call, or the message of its CryptoError.
pub data Outcome (A : Type 0) : Type 0 where
  returned : A → Outcome A
  failed : Text → Outcome A

infixl 5 ◌>>=◌
abbrev pub ◌>>=◌ : {A B : Type 0} → Outcome A → (A → Outcome B) → Outcome B
returned a >>= f = f a
failed message >>= f = failed message

abbrev pub or_fail : {A : Type 0} → Text → Option A → Outcome A
or_fail message none = failed message
or_fail message (some a) = returned a

abbrev pub check : {A : Type 0} → Bool → Text → Outcome A → Outcome A
check ok message rest = if ok then rest else failed message

-- Two decodings, of which either may throw.
abbrev pub both : Option Bytes → Option Bytes → Option (Bytes × Bytes)
both none b = none
both (some a) none = none
both (some a) (some b) = some (a, b)

module _ (p : Platform) where
  unfoldable pub b64url_encode : Bytes → Text
  unfolding strip_padding
  b64url_encode bytes = strip_padding (replace b'/' b'_' (replace b'+' b'-' (p.btoa bytes)))

  unfoldable pub b64_decode : Text → Option Bytes
  b64_decode text =
      let normalised = replace b'_' b'/' (replace b'-' b'+' text) in
      p.atob (normalised ++ repeat b'=' ((4 - length normalised % 4) % 4))

  unfoldable pub import_key : Text → Outcome Bytes
  unfolding b64_decode
  import_key encoded = do
    raw ← or_fail (codes "APP_ENCRYPTION_KEY is not valid base64") (b64_decode encoded)
    check (length raw == 32)
        (codes "APP_ENCRYPTION_KEY must decode to 32 bytes, got " ++ p.decimal (length raw))
        (returned raw)

  -- `encryptSecret`, with the bytes that `getRandomValues` gives.
  unfoldable pub encrypt_secret : Bytes → Text → Text → Text → ℕ → Outcome Text
  unfolding import_key b64url_encode
  encrypt_secret iv plaintext key aad key_version =
      check (not (is_empty plaintext)) (codes "refusing to encrypt an empty value") (
        import_key key >>= λ crypto_key.
        let sealed = p.encrypt crypto_key iv (p.encode aad) (p.encode plaintext) in
        returned (
          codes "v"
          ++ (p.decimal key_version
              ++ (codes "." ++ (b64url_encode iv ++ (codes "." ++ b64url_encode sealed))))))

  -- `/^v\d+$/`
  unfoldable pub is_version : Text → Bool
  is_version [] = false
  is_version (c ∷ t) = c == b'v' && not (is_empty t) && all is_digit t

  abbrev pub decoded_text : Option Bytes → Outcome Text
  decoded_text none = failed (codes "credential could not be decrypted")
  decoded_text (some opened) = returned (p.decode opened)

  -- The last `try`, whose catch clause replaces every error by one message.
  abbrev pub open_sealed : Text → Bytes → Bytes → Outcome Bytes → Outcome Text
  open_sealed aad iv sealed (failed message) = failed (codes "credential could not be decrypted")
  open_sealed aad iv sealed (returned crypto_key) =
      decoded_text (p.decrypt crypto_key iv (p.encode aad) sealed)

  unfoldable pub decrypt_parts : Text → Text → List Text → Outcome Text
  unfolding import_key is_version b64_decode
  decrypt_parts key aad (version ∷ iv_part ∷ payload ∷ []) =
      check (is_version version) (codes "unsupported credential envelope version: " ++ version) (
        or_fail (codes "credential envelope is not valid base64url")
          (both (b64_decode iv_part) (b64_decode payload))
        >>= λ decoded.
            check (length decoded.0 == 12)
              (codes "expected a 12-byte iv, got " ++ p.decimal (length decoded.0))
              (open_sealed aad decoded.0 decoded.1 (import_key key)))
  decrypt_parts key aad parts = failed (codes "malformed credential envelope")

  -- `decryptSecret`
  unfoldable pub decrypt_secret : Text → Text → Text → Outcome Text
  unfolding decrypt_parts split_dots
  decrypt_secret envelope key aad = decrypt_parts key aad (split_dots envelope)

-- `hintOf`
unfoldable pub hint_of : Text → Text
hint_of secret = if leb 4 (length secret) then drop (length secret - 4) secret else codes "****"
