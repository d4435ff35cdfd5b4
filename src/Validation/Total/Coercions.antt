-- ===== src/Validation/Total/Coercions.antt =====
-- `String` and `Number` return on values in which no object has a key `toString`.
use rebalance_webull.Prelude.{
  ◌≡◌, refl, ◌≢◌, false, none, some, [], ◌∷◌, ◌++◌, String, Text, codes, arith, str_eq, Bool-cases,
  inl, inr,
}
use mathlib.Core.Path.{subst}
use rebalance_webull.Js.{
  joined_total, item_text_total, item_text, Runtime, Json, null, boolean, num, str, arr, obj, Items,
  nil, cons, Fields, end, field, lookup, get, body_or_empty, to_text, join, join_rest, to_number,
}

-- No object in the value has a key `toString`.
unfoldable mutual
  pub IsPlain : {N : Type 0} → Json N → Type 0
  IsPlain null = Unit
  IsPlain (boolean b) = Unit
  IsPlain (num n) = Unit
  IsPlain (str t) = Unit
  IsPlain (arr vs) = IsPlainItems vs
  IsPlain (obj fs) = IsPlainFields fs

  pub IsPlainItems : {N : Type 0} → Items N → Type 0
  IsPlainItems nil = Unit
  IsPlainItems (cons v vs) = IsPlain v × IsPlainItems vs

  pub IsPlainFields : {N : Type 0} → Fields N → Type 0
  IsPlainFields end = Unit
  IsPlainFields (field k v fs) = (str_eq k "toString" ≡ false) × IsPlain v × IsPlainFields fs

module _ {N : Type 0} where
  lookup-to_string : (fs : Fields N) → IsPlainFields fs → lookup "toString" fs ≡ none
  unfolding lookup IsPlainFields
  lookup-to_string end h = refl
  lookup-to_string (field k v fs) (e, _, h) = rw e (lookup-to_string fs h)

  lookup-IsPlain :
      (k : String) (fs : Fields N) {v : Json N}
      → IsPlainFields fs
      → lookup k fs ≡ some v
      → IsPlain v
  unfolding lookup IsPlainFields
  lookup-IsPlain k end h e = cc
  lookup-IsPlain k (field j w fs) {v} (_, p, h) e = elim (Bool-cases (str_eq j k)) [
    | inl same ↦ let found : w ≡ v = ground arith in subst IsPlain found p
    | inr other ↦ lookup-IsPlain k fs h (rw other at e)
  ]

  pub get-IsPlain :
      (input : Json N) (k : String) {v : Json N} → IsPlain input → get input k ≡ some v → IsPlain v
  unfolding get IsPlain
  get-IsPlain (obj fs) k h e = lookup-IsPlain k fs h e
  get-IsPlain null k h e = cc
  get-IsPlain _ k h e = cc

module _ {N : Type 0} ⦃r : Runtime N⦄ where
  mutual
    unfolding to_text join join_rest IsPlain IsPlainItems lookup

    to_text_total : (v : Json N) → IsPlain v → (t : Text) × (to_text v ≡ some t)
    to_text_total null h = (_, refl)
    to_text_total (boolean b) h = (_, refl)
    to_text_total (num n) h = (_, refl)
    to_text_total (str t) h = (_, refl)
    to_text_total (arr vs) h = join_total vs h
    to_text_total (obj fs) h = (codes "[object Object]", ground (arith, lookup-to_string fs h))

    join_total : (vs : Items N) → IsPlainItems vs → (t : Text) × (join vs ≡ some t)
    join_total nil h = ([], refl)
    join_total (cons v vs) (p, h) =
        let (t, e) = to_text_total v p in
        let (u, k) = join_rest_total vs h in
        joined_total (item_text v (to_text v)) (join_rest vs) (λ a b. a ++ b)
          (item_text_total v (to_text v) e).1 k

    join_rest_total : (vs : Items N) → IsPlainItems vs → (t : Text) × (join_rest vs ≡ some t)
    join_rest_total nil h = ([], refl)
    join_rest_total (cons v vs) (p, h) =
        let (t, e) = to_text_total v p in
        let (u, k) = join_rest_total vs h in
        joined_total (item_text v (to_text v)) (join_rest vs) (λ a b. b',' ∷ a ++ b)
          (item_text_total v (to_text v) e).1 k

  pub to_text-ne-none : (v : Json N) → IsPlain v → to_text v ≢ none
  to_text-ne-none v h e = let (t, k) = to_text_total v h in cc

  pub to_number-ne-none : (v : Json N) → IsPlain v → to_number v ≢ none
  unfolding to_number
  to_number-ne-none null h = λ e. cc
  to_number-ne-none (boolean b) h = λ e. cc
  to_number-ne-none (num n) h = λ e. cc
  to_number-ne-none (str t) h = λ e. cc
  to_number-ne-none (arr vs) h = ground (arith, to_text-ne-none (arr vs) h)
  to_number-ne-none (obj fs) h = ground (arith, to_text-ne-none (obj fs) h)

pub body_or_empty-IsPlain : {N : Type 0} (v : Json N) → IsPlain v → IsPlain (body_or_empty v)
unfolding body_or_empty IsPlain
body_or_empty-IsPlain null h = tt
body_or_empty-IsPlain (boolean b) h = h
body_or_empty-IsPlain (num n) h = h
body_or_empty-IsPlain (str t) h = h
body_or_empty-IsPlain (arr vs) h = h
body_or_empty-IsPlain (obj fs) h = h
