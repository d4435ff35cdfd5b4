-- ===== src/Tests/Envelopes.antt =====
-- A platform with a base64 that spends four letters on each byte and a cipher that only adds a tag,
-- on which the theorems on the envelope apply.
use rebalance_webull.Prelude.{
  ℕ, zero, suc, ◌+◌, ◌-◌, ◌*◌, ◌/◌, ◌%◌, ◌≡◌, refl, ap, true, Option, none, some, [], ◌∷◌, ◌++◌,
  Text, codes, IsAscii, all, length, ◌==◌, arith, if◌then◌else◌,
}
use rebalance_webull.Secrets.{
  Bytes, are_bytes, is_letter64, is_digit, repeat, Platform, returned, failed, encrypt_secret,
  decrypt_secret, import_key, b64_decode,
}
use rebalance_webull.Secrets.RoundTrip.{decrypt_secret-encrypt_secret}
use rebalance_webull.Secrets.Uniform.{decrypt_secret-agree}

abbrev to_letters : Bytes → Text
to_letters [] = []
to_letters (b ∷ bs) = (b'A' + (b / 16) % 16) ∷ (b'A' + b % 16) ∷ b'A' ∷ b'A' ∷ to_letters bs

abbrev with_byte : ℕ → Option Bytes → Option Bytes
with_byte b none = none
with_byte b (some bs) = some (b ∷ bs)

abbrev of_letters : Text → Option Bytes
of_letters [] = some []
of_letters (x ∷ y ∷ z ∷ w ∷ t) = with_byte ((x - b'A') * 16 + (y - b'A')) (of_letters t)
of_letters _ = none

of_letters-to_letters : (b : Bytes) → are_bytes b ≡ true → of_letters (to_letters b) ≡ some b
of_letters-to_letters [] h = refl
of_letters-to_letters (b ∷ bs) h =
    let rest : are_bytes bs ≡ true = ground arith in
    rw (of_letters-to_letters bs rest) (ap (λ n. some (n ∷ bs)) (ground arith))

letters-of_bytes : (b : Bytes) → all is_letter64 (to_letters b) ≡ true
letters-of_bytes [] = refl
letters-of_bytes (b ∷ bs) = ground (arith, letters-of_bytes bs)

length-to_letters : (b : Bytes) → (length (to_letters b) + 0) % 4 ≡ 0
length-to_letters [] = refl
length-to_letters (b ∷ bs) = ground (arith, length-to_letters bs)

append_none : (t : Text) → t ≡ t ++ []
append_none [] = refl
append_none (c ∷ t) = ap (λ u. c ∷ u) (append_none t)

unary_digits : (n : ℕ) → all is_digit (repeat b'1' n) ≡ true
unary_digits zero = refl
unary_digits (suc n) = unary_digits n

ascii_bytes : (t : Text) → IsAscii t → are_bytes t ≡ true
ascii_bytes [] h = refl
ascii_bytes (c ∷ t) (small, h) = ground (arith, ascii_bytes t h)

-- The tag of a sealed text is the length of the additional data.
abbrev tag : Bytes → ℕ
tag aad = length aad % 256

abbrev opened_envelope : Bytes → Bytes → Option Bytes
opened_envelope aad [] = none
opened_envelope aad (t ∷ plain) = if t == tag aad then some plain else none

pub sealed_bytes : (aad plain : Bytes) → are_bytes plain ≡ true → are_bytes (tag aad ∷ plain) ≡ true
sealed_bytes aad plain h = ground arith

pub opened_envelope-sealed :
    (aad plain : Bytes) → opened_envelope aad (tag aad ∷ plain) ≡ some plain
opened_envelope-sealed aad plain = ground arith

abbrev sample_platform : Platform
sample_platform = record {
  btoa = to_letters;
  atob = of_letters;
  decimal = λ n. repeat b'1' (suc n);
  encode = λ t. t;
  decode = λ b. b;
  encrypt = λ key iv aad plain. tag aad ∷ plain;
  decrypt = λ key iv aad sealed. opened_envelope aad sealed;
  atob-btoa = of_letters-to_letters;
  btoa_padded = λ b. (
    to_letters b,
    0,
    append_none (to_letters b),
    letters-of_bytes b,
    omega arith,
    length-to_letters b,
  );
  decimal_digits = λ n small. (refl, unary_digits n);
  encode_bytes = ascii_bytes;
  decode-encode = λ t h. refl;
  encrypt_bytes = λ key iv aad plain h. sealed_bytes aad plain h;
  decrypt-encrypt = λ key iv aad plain h. opened_envelope-sealed aad plain;
}

abbrev sample_key : Text
sample_key = sample_platform.btoa (repeat 7 32)

abbrev sample_nonce : Bytes
sample_nonce = repeat 200 12

sample_key_imported : import_key sample_platform sample_key ≡ returned (repeat 7 32)
unfolding import_key b64_decode
sample_key_imported = refl

decrypt_secret-encrypt_secret_example :
    (envelope : Text) × (encrypt_secret sample_platform sample_nonce
        (codes "api-key")
        sample_key
        (codes "u1")
        1
      ≡ returned envelope)
    × (decrypt_secret sample_platform envelope sample_key (codes "u1") ≡ returned (codes "api-key"))
decrypt_secret-encrypt_secret_example =
    decrypt_secret-encrypt_secret sample_platform sample_nonce (codes "api-key") sample_key
      (codes "u1") 1 (repeat 7 32) sample_key_imported refl (omega arith) refl
      (refl, (refl, (refl, (refl, (refl, (refl, (refl, tt))))))) (omega arith)

-- The envelope of "api-key" for a user of two letters.
abbrev sample_envelope : Text
sample_envelope =
    codes "v1."
    ++ (sample_platform.btoa sample_nonce
        ++ (codes "." ++ sample_platform.btoa (2 ∷ codes "api-key")))

refused_for_other :
    decrypt_secret sample_platform sample_envelope sample_key (codes "other")
    ≡ failed (codes "credential could not be decrypted")
unfolding decrypt_secret b64_decode
refused_for_other = refl

refused_for_key :
    decrypt_secret sample_platform sample_envelope (codes "AAAA") (codes "u1")
    ≡ failed (codes "credential could not be decrypted")
unfolding decrypt_secret b64_decode
refused_for_key = refl

decrypt_secret-agree_example :
    codes "credential could not be decrypted" ≡ codes "credential could not be decrypted"
decrypt_secret-agree_example =
    decrypt_secret-agree sample_platform sample_envelope sample_key (codes "other") (codes "AAAA")
      (codes "u1") (codes "credential could not be decrypted")
      (codes "credential could not be decrypted") refused_for_other refused_for_key
