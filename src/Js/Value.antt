-- ===== src/Js/Value.antt =====
-- JSON values as `JSON.parse` returns them, and the coercions `String(value)` and `Number(value)`.
--
-- An object holds each key once. A coercion of an object looks up its method `toString`: where
-- the object carries a key of that name, the value there is not callable, and the coercion throws
-- a TypeError, which is `none`.
use rebalance_webull.Prelude.{
  ◌≡◌, refl, Bool, true, false, Option, none, some, String, Text, codes, ◌++◌, [], ◌∷◌, str_eq,
  if◌then◌else◌,
}
use rebalance_webull.Js.Interface.{Runtime}

mutual
  pub data Json (N : Type 0) : Type 0 where
    null : Json N
    boolean : Bool → Json N
    num : N → Json N
    str : Text → Json N
    arr : Items N → Json N
    obj : Fields N → Json N

  pub data Items (N : Type 0) : Type 0 where
    nil : Items N
    cons : Json N → Items N → Items N

  pub data Fields (N : Type 0) : Type 0 where
    end : Fields N
    field : String → Json N → Fields N → Fields N

module _ {N : Type 0} where
  unfoldable pub lookup : String → Fields N → Option (Json N)
  lookup k end = none
  lookup k (field j v fs) = if str_eq j k then some v else lookup k fs

  -- `input?.[path]`; `none` is `undefined`. No value but an object has a property of the names
  -- that the program asks for.
  unfoldable pub get : Json N → String → Option (Json N)
  unfolding lookup
  get (obj fs) k = lookup k fs
  get _ k = none

  abbrev is_some : Option (Json N) → Bool
  is_some none = false
  is_some (some _) = true

  -- `path in input`, on an object.
  unfoldable pub has_key : Json N → String → Bool
  unfolding get
  has_key v k = is_some (get v k)

  -- `value ?? {}`
  unfoldable pub body_or_empty : Json N → Json N
  body_or_empty null = obj end
  body_or_empty v = v

abbrev bool_text : Bool → Text
bool_text true = codes "true"
bool_text false = codes "false"

infixl 5 ◌>>=◌
abbrev pub ◌>>=◌ {ℓ κ} : {A : Type ℓ} {B : Type κ} → Option A → (A → Option B) → Option B
none >>= f = none
some a >>= f = f a

-- `join` writes nothing for `null`.
abbrev pub item_text : {N : Type 0} → Json N → Option Text → Option Text
item_text null t = some []
item_text v t = t

module _ {N : Type 0} ⦃r : Runtime N⦄ where
  unfoldable mutual
    unfolding lookup

    -- `String(value)`
    pub to_text : Json N → Option Text
    to_text null = some (codes "null")
    to_text (boolean b) = some (bool_text b)
    to_text (num n) = some (r.text_of_number n)
    to_text (str s) = some s
    to_text (arr vs) = join vs
    to_text (obj fs) = elim (lookup "toString" fs) [
      | none ↦ some (codes "[object Object]")
      | some _ ↦ none
    ]

    -- `Array.prototype.join` with commas.
    pub join : Items N → Option Text
    join nil = some []
    join (cons v vs) = item_text v (to_text v) >>= λ t. join_rest vs >>= λ u. some (t ++ u)

    pub join_rest : Items N → Option Text
    join_rest nil = some []
    join_rest (cons v vs) =
        item_text v (to_text v) >>= λ t. join_rest vs >>= λ u. some (b',' ∷ t ++ u)

  -- `Number(value)`
  unfoldable pub to_number : Json N → Option N
  unfolding to_text
  to_number null = some (r.of_ℕ 0)
  to_number (boolean b) = some (r.of_ℕ (if b then 1 else 0))
  to_number (num n) = some n
  to_number v = to_text v >>= λ t. some (r.number_of_text t)

-- Two texts that are there are joined to a text.
pub joined_total :
    (m n : Option Text) (g : Text → Text → Text) {t u : Text}
    → m ≡ some t
    → n ≡ some u
    → (w : Text) × ((m >>= λ a. n >>= λ b. some (g a b)) ≡ some w)
joined_total m n g {t} {u} e k = (g t u, rw (e, k))

pub item_text_total :
    {N : Type 0} (v : Json N) (o : Option Text) {t : Text}
    → o ≡ some t
    → (u : Text) × (item_text v o ≡ some u)
item_text_total null o {t} e = ([], refl)
item_text_total v o {t} e = (t, e)
