-- ===== src/Secrets/Uniform.antt =====
-- What the errors of `decryptSecret` of supabase/functions/_shared/crypto.ts tell.
use rebalance_webull.Prelude.{
  ◌≡◌, sym, ◌∙◌, Option, none, some, List, [], ◌∷◌, Text, codes, length, ◌==◌, Bool-cases,
  Option-cases, inl, inr,
}
use rebalance_webull.Secrets.{
  Bytes, Platform, Outcome, returned, failed, both, b64_decode, import_key, is_version,
  decoded_text, open_sealed, decrypt_parts, split_dots, decrypt_secret,
}

failed-injective : {A : Type 0} {m n : Text} → ◌≡◌ {A = Outcome A} (failed m) (failed n) → m ≡ n
failed-injective e = cc

module _ (p : Platform) where
  abbrev refused : Text
  refused = codes "credential could not be decrypted"

  decoded_text-refused :
      (opened : Option Bytes) (m : Text) → decoded_text p opened ≡ failed m → m ≡ refused
  decoded_text-refused none m e = sym (failed-injective e)
  decoded_text-refused (some bytes) m e = cc

  open_sealed-refused :
      (aad : Text) (iv sealed : Bytes) (key : Outcome Bytes) (m : Text)
      → open_sealed p aad iv sealed key ≡ failed m
      → m ≡ refused
  open_sealed-refused aad iv sealed (failed message) m e = sym (failed-injective e)
  open_sealed-refused aad iv sealed (returned key) m e = decoded_text-refused _ m e

  decrypt_parts-agree :
      (parts : List Text) (key aad key' aad' : Text) (m m' : Text)
      → decrypt_parts p key aad parts ≡ failed m
      → decrypt_parts p key' aad' parts ≡ failed m'
      → m ≡ m'
  unfolding decrypt_parts
  decrypt_parts-agree (v ∷ a ∷ b ∷ []) key aad key' aad' m m' e e' =
      elim (Bool-cases (is_version p v)) [
        | inr bad ↦ failed-injective (sym (rw bad at e) ∙ (rw bad at e'))
        | inl good ↦ elim (Option-cases (both (b64_decode p a) (b64_decode p b))) [
          | inl none_decoded ↦
              failed-injective
                (sym (rw (good, none_decoded) at e) ∙ (rw (good, none_decoded) at e'))
          | inr (x, decoded) ↦ elim (Bool-cases (length x.0 == 12)) [
            | inr short ↦
                failed-injective
                  (sym (rw (good, decoded, short) at e) ∙ (rw (good, decoded, short) at e'))
            | inl twelve ↦
                open_sealed-refused aad x.0 x.1 (import_key p key) m
                  (rw (good, decoded, twelve) at e)
                ∙ sym (
                    open_sealed-refused aad' x.0 x.1 (import_key p key') m'
                      (rw (good, decoded, twelve) at e'))
          ]
        ]
      ]
  decrypt_parts-agree [] key aad key' aad' m m' e e' = failed-injective (sym e ∙ e')
  decrypt_parts-agree (v ∷ []) key aad key' aad' m m' e e' = failed-injective (sym e ∙ e')
  decrypt_parts-agree (v ∷ a ∷ []) key aad key' aad' m m' e e' = failed-injective (sym e ∙ e')
  decrypt_parts-agree (v ∷ a ∷ b ∷ c ∷ rest) key aad key' aad' m m' e e' =
      failed-injective (sym e ∙ e')

  -- Where the same envelope is refused under two keys, or for two users, the two errors say the
  -- same: which of the key, the user and the bytes was wrong is not told.
  pub decrypt_secret-agree :
      (envelope key aad key' aad' : Text) (m m' : Text)
      → decrypt_secret p envelope key aad ≡ failed m
      → decrypt_secret p envelope key' aad' ≡ failed m'
      → m ≡ m'
  unfolding decrypt_secret
  decrypt_secret-agree envelope key aad key' aad' m m' e e' =
      decrypt_parts-agree (split_dots envelope) key aad key' aad' m m' e e'
