-- ===== src/Secrets/RoundTrip.antt =====
-- What `encryptSecret` of supabase/functions/_shared/crypto.ts seals, `decryptSecret` opens.
use rebalance_webull.Prelude.{
  ℕ, zero, suc, ◌+◌, ◌-◌, ◌≤◌, ◌<◌, ◌%◌, ◌≡◌, refl, sym, ap, ◌∙◌, Bool, true, false, ◌&&◌, not,
  some, [], ◌∷◌, ◌++◌, reverse, Text, IsAscii, all, length, ◌==◌, if◌then◌else◌, arith, Bool-cases,
  inl, inr,
}
use mathlib.Core.Path.{ap₂}
use mathlib.Core.List.{reverse-cons, reverse-reverse, reverse-append}
use rebalance_webull.Validation.Plain.{all-weaken}
use rebalance_webull.Secrets.{
  Bytes, are_bytes, is_letter64, is_digit, is_empty, repeat, Platform, replace, drop_padding,
  strip_padding, split_dots, returned, b64url_encode, b64_decode, import_key, encrypt_secret,
  is_version, decrypt_parts, decrypt_secret,
}

-- Neither padding nor a separator.
abbrev is_clean : ℕ → Bool
is_clean c = not (c == b'=') && not (c == b'.')

-- The alphabet of URLs.
abbrev to_url : Text → Text
to_url t = replace b'/' b'_' (replace b'+' b'-' t)

abbrev from_url : Text → Text
from_url t = replace b'_' b'/' (replace b'-' b'+' t)

abbrev url_letter : ℕ → ℕ
url_letter c =
    if (if c == b'+' then b'-' else c) == b'/' then b'_' else if c == b'+' then b'-' else c

abbrev base_letter : ℕ → ℕ
base_letter c =
    if (if c == b'-' then b'+' else c) == b'_' then b'/' else if c == b'-' then b'+' else c

letter-clean : (c : ℕ) → is_letter64 c ≡ true → is_clean (url_letter c) ≡ true
letter-clean c h = elim (Bool-cases (c == b'+')) [
  | inl plus ↦ rw plus refl
  | inr other ↦ elim (Bool-cases (c == b'/')) [
    | inl slash ↦ rw (other, slash) refl
    | inr letter ↦ rw (other, letter) (ground arith)
  ]
]

base_letter-url_letter : (c : ℕ) → is_letter64 c ≡ true → base_letter (url_letter c) ≡ c
base_letter-url_letter c h = elim (Bool-cases (c == b'+')) [
  | inl plus ↦ rw plus (ground arith)
  | inr other ↦ elim (Bool-cases (c == b'/')) [
    | inl slash ↦ rw (other, slash) (ground arith)
    | inr letter ↦
        let no_dash : (c == b'-') ≡ false = ground arith in
        let no_line : (c == b'_') ≡ false = ground arith in rw (other, letter, no_dash, no_line)
  ]
]

to_url-clean : (t : Text) → all is_letter64 t ≡ true → all is_clean (to_url t) ≡ true
to_url-clean [] h = refl
to_url-clean (c ∷ t) h =
    let first : is_letter64 c ≡ true = ground arith in
    let rest : all is_letter64 t ≡ true = ground arith in
    rw (letter-clean c first) (to_url-clean t rest)

from_url-to_url : (t : Text) → all is_letter64 t ≡ true → from_url (to_url t) ≡ t
from_url-to_url [] h = refl
from_url-to_url (c ∷ t) h =
    let first : is_letter64 c ≡ true = ground arith in
    let rest : all is_letter64 t ≡ true = ground arith in
    ap₂ (λ a b. a ∷ b) (base_letter-url_letter c first) (from_url-to_url t rest)

to_url-repeat : (t : Text) (k : ℕ) → to_url (t ++ repeat b'=' k) ≡ to_url t ++ repeat b'=' k
to_url-repeat [] zero = refl
to_url-repeat [] (suc k) = ap (λ u. b'=' ∷ u) (to_url-repeat [] k)
to_url-repeat (c ∷ t) k = ap (λ u. url_letter c ∷ u) (to_url-repeat t k)

all-append : (p : ℕ → Bool) (s t : Text) → all p s ≡ true → all p t ≡ true → all p (s ++ t) ≡ true
all-append p [] t h k = k
all-append p (c ∷ s) t h k = ground (arith, all-append p s t)

all-reverse : (p : ℕ → Bool) (t : Text) → all p t ≡ true → all p (reverse t) ≡ true
all-reverse p [] h = refl
all-reverse p (c ∷ t) h =
    rw reverse-cons
      (all-append p (reverse t) (c ∷ []) (all-reverse p t (ground arith)) (ground arith))

drop_padding-repeat : (k : ℕ) (t : Text) → drop_padding (repeat b'=' k ++ t) ≡ drop_padding t
unfolding drop_padding
drop_padding-repeat zero t = refl
drop_padding-repeat (suc k) t = drop_padding-repeat k t

drop_padding_of_clean : (t : Text) → all is_clean t ≡ true → drop_padding t ≡ t
unfolding drop_padding
drop_padding_of_clean [] h = refl
drop_padding_of_clean (c ∷ t) h = ground arith

padding_width : (n k : ℕ) → k ≤ 3 → (n + k) % 4 ≡ 0 → (4 - n % 4) % 4 ≡ k
padding_width n k h e = ground (arith, e)

split_dots-append :
    (s t : Text) → all is_clean s ≡ true → split_dots (s ++ b'.' ∷ t) ≡ s ∷ split_dots t
unfolding split_dots
split_dots-append [] t h = refl
split_dots-append (c ∷ s) t h =
    let no_dot : (c == b'.') ≡ false = ground arith in
    let rest : all is_clean s ≡ true = ground arith in rw (no_dot, split_dots-append s t rest)

split_dots_of_clean : (s : Text) → all is_clean s ≡ true → split_dots s ≡ s ∷ []
unfolding split_dots
split_dots_of_clean [] h = refl
split_dots_of_clean (c ∷ s) h =
    let no_dot : (c == b'.') ≡ false = ground arith in
    let rest : all is_clean s ≡ true = ground arith in rw (no_dot, split_dots_of_clean s rest)

repeat_snoc : (c k : ℕ) → repeat c k ++ (c ∷ []) ≡ c ∷ repeat c k
repeat_snoc c zero = refl
repeat_snoc c (suc k) = ap (λ t. c ∷ t) (repeat_snoc c k)

reverse-repeat : (c k : ℕ) → reverse (repeat c k) ≡ repeat c k
reverse-repeat c zero = refl
reverse-repeat c (suc k) =
    reverse-cons c (repeat c k) ∙ ap (λ t. t ++ (c ∷ [])) (reverse-repeat c k) ∙ repeat_snoc c k

strip_padding-repeat :
    (t : Text) (k : ℕ) → all is_clean t ≡ true → strip_padding (t ++ repeat b'=' k) ≡ t
unfolding strip_padding
strip_padding-repeat t k h =
    rw
      (
        reverse-append t (repeat b'=' k),
        reverse-repeat b'=' k,
        drop_padding-repeat k (reverse t),
        drop_padding_of_clean (reverse t) (all-reverse is_clean t h),
      )
      (reverse-reverse t)

digit_clean : (c : ℕ) → is_digit c ≡ true → is_clean c ≡ true
digit_clean c h = ground arith

module _ (p : Platform) where
  -- The letters that stand for the bytes.
  record IsEncoded (b : Bytes) (text : Text) : Type 0 where
    clean : all is_clean text ≡ true
    decodes : b64_decode p text ≡ some b

  b64url_encode-IsEncoded : (b : Bytes) → are_bytes b ≡ true → IsEncoded b (b64url_encode p b)
  unfolding b64url_encode b64_decode
  b64url_encode-IsEncoded b bytes =
      let (body, k, padded, letters, few, whole) = p.btoa_padded b in
      let stripped : b64url_encode p b ≡ to_url body =
        ap (λ t. strip_padding (to_url t)) padded
        ∙ ap strip_padding (to_url-repeat body k)
        ∙ strip_padding-repeat (to_url body) k (to_url-clean body letters) in
      let back : from_url (to_url body) ≡ body = from_url-to_url body letters in
      rw stripped (record {
        clean = to_url-clean body letters;
        decodes =
            ap (λ t. p.atob (t ++ repeat b'=' ((4 - length t % 4) % 4))) back
            ∙ ap (λ n. p.atob (body ++ repeat b'=' n)) (padding_width (length body) k few whole)
            ∙ ap p.atob (sym padded)
            ∙ p.atob-btoa b bytes;
      })

  version-IsClean :
      (n : ℕ) → n < 1_000_000_000_000_000_000_000 → all is_clean (b'v' ∷ p.decimal n) ≡ true
  version-IsClean n small =
      all-weaken is_digit is_clean (p.decimal n) digit_clean (p.decimal_digits n small).1

  version-is_version :
      (n : ℕ) → n < 1_000_000_000_000_000_000_000 → is_version p (b'v' ∷ p.decimal n) ≡ true
  unfolding is_version
  version-is_version n small = rw ((p.decimal_digits n small).0, (p.decimal_digits n small).1)

  -- A credential of ASCII characters that is not empty and is encrypted under a key of 32 bytes with a nonce of 12
  -- bytes is decrypted, with the same key and for the same user, to the same credential, for
  -- every version of the key below 10^21.
  pub decrypt_secret-encrypt_secret :
      (iv : Bytes) (plaintext key aad : Text) (key_version : ℕ) (crypto_key : Bytes)
      → import_key p key ≡ returned crypto_key
      → are_bytes iv ≡ true
      → length iv ≡ 12
      → is_empty plaintext ≡ false
      → IsAscii plaintext
      → key_version < 1_000_000_000_000_000_000_000
      → (envelope : Text) × (encrypt_secret p iv plaintext key aad key_version ≡ returned envelope)
        × (decrypt_secret p envelope key aad ≡ returned plaintext)
  unfolding encrypt_secret decrypt_secret decrypt_parts
  decrypt_secret-encrypt_secret iv plaintext key aad key_version crypto_key imported bytes twelve
        some_text ascii small =
      let sealed = p.encrypt crypto_key iv (p.encode aad) (p.encode plaintext) in
      let nonce = b64url_encode-IsEncoded iv bytes in
      let payload = b64url_encode-IsEncoded sealed (
        p.encrypt_bytes crypto_key iv (p.encode aad) (p.encode plaintext)
          (p.encode_bytes plaintext ascii)) in
      let v = b'v' ∷ p.decimal key_version in
      let parts : split_dots (v ++ b'.' ∷ (b64url_encode p iv ++ b'.' ∷ b64url_encode p sealed))
          ≡ v ∷ b64url_encode p iv ∷ b64url_encode p sealed ∷ [] =
        split_dots-append v _ (version-IsClean key_version small)
        ∙ ap (λ rest. v ∷ rest)
            (split_dots-append (b64url_encode p iv) _ nonce.clean
              ∙ ap (λ rest. b64url_encode p iv ∷ rest)
                  (split_dots_of_clean (b64url_encode p sealed) payload.clean)) in
      (
        v ++ b'.' ∷ (b64url_encode p iv ++ b'.' ∷ b64url_encode p sealed),
        rw (some_text, imported) refl,
        rw
            (
              parts,
              version-is_version key_version small,
              nonce.decodes,
              payload.decodes,
              twelve,
              imported,
              p.decrypt-encrypt crypto_key iv (p.encode aad) (p.encode plaintext)
                  (p.encode_bytes plaintext ascii),
            )
            (ap returned (p.decode-encode plaintext ascii)),
      )
