-- ===== src/Web/Session/Redirects.antt =====
-- Where the proxy and the sign-in of the web client send a user.
use mathlib.Core.Path.{subst}
use rebalance_webull.Prelude.{
  ◌≡◌, refl, Bool, true, false, ◌||◌, Option, some, List, [], ◌∷◌, Text, text_eq, codes, trim,
  Bool-cases, inl, inr, ◌⊎◌,
}
use rebalance_webull.Web.Session.{
  Url, set_param, get_param, hidden_next, Cookie, passed, redirected, is_public, update_session,
  refused, signed_in_to, form_text, is_local, sign_in, login_url, local_or_dashboard, is_empty,
}

redirected-not_passed : (url : Url) (cookies : List Cookie) → ¬ (redirected url ≡ passed cookies)
redirected-not_passed url cookies e = cc

refused-not_signed_in : (message target : Text) → ¬ (refused message ≡ signed_in_to target)
refused-not_signed_in message target e = cc

signed_in_to-injective : {s t : Text} → signed_in_to s ≡ signed_in_to t → s ≡ t
signed_in_to-injective e = cc

local_or_dashboard-IsLocal : (next : Text) → is_local (local_or_dashboard next) ≡ true
local_or_dashboard-IsLocal next = elim (Bool-cases (is_local next)) [
  | inl here ↦ rw here here
  | inr away ↦ rw away refl
]

-- A request that is passed on to a page is of a signed-in user or for a public path.
pub update_session_passed :
    (rotations : List (List Cookie)) (signed_in : Bool) (url : Url) (cookies : List Cookie)
    → update_session rotations signed_in url ≡ passed cookies
    → (signed_in ≡ true) ⊎ (is_public url.pathname ≡ true)
unfolding update_session
update_session_passed rotations true url cookies e = inl refl
update_session_passed rotations false url cookies e = elim (Bool-cases (is_public url.pathname)) [
  | inl public ↦ inr public
  | inr closed ↦ absurd (redirected-not_passed _ _ (rw closed at e))
]

get_param-set_param :
    (name value : Text) (params : List (Text × Text))
    → text_eq name name ≡ true
    → get_param name (set_param name value params) ≡ some value
unfolding get_param set_param
get_param-set_param name value [] same = rw same
get_param-set_param name value (param ∷ params) same = elim (Bool-cases (text_eq param.0 name)) [
  | inl found ↦ rw (found, same)
  | inr other ↦ rw (other, other) (get_param-set_param name value params same)
]

-- The redirect of a sign-in, whatever `next` the form carries, begins with one slash.
pub sign_in-IsLocal :
    (accepts : Text → Text → Bool) (email password next : Option Text) (target : Text)
    → sign_in accepts email password next ≡ signed_in_to target
    → is_local target ≡ true
unfolding sign_in
sign_in-IsLocal accepts email password next target e =
    let address = trim (form_text [] email) in
    let secret = form_text [] password in
    elim (Bool-cases (is_empty address || is_empty secret)) [
      | inl missing ↦ absurd (refused-not_signed_in _ target (rw missing at e))
      | inr given ↦ elim (Bool-cases (accepts address secret)) [
        | inr wrong ↦ absurd (refused-not_signed_in _ target (rw (given, wrong) at e))
        | inl right ↦
            subst (λ t. is_local t ≡ true) (signed_in_to-injective (rw (given, right) at e))
              (local_or_dashboard-IsLocal (form_text (codes "/dashboard") next))
      ]
    ]

sign_in-local :
    (accepts : Text → Text → Bool) (email password path : Text)
    → is_local path ≡ true
    → trim email ≡ email
    → is_empty email ≡ false
    → is_empty password ≡ false
    → accepts email password ≡ true
    → sign_in accepts (some email) (some password) (some path) ≡ signed_in_to path
unfolding sign_in
sign_in-local accepts email password path here trimmed some_email some_password good =
    rw (trimmed, some_email, some_password, good, here) refl

-- A user who asks for a local page with no session is sent to /login with that page as `next`, and
-- a sign-in that carries this `next`, or what the hidden field of the form holds, and an accepted
-- email and password ends at the page.
pub sign_in-update_session :
    (accepts : Text → Text → Bool) (email password : Text) (rotations : List (List Cookie))
    (url : Url)
    → is_public url.pathname ≡ false
    → is_local url.pathname ≡ true
    → trim email ≡ email
    → is_empty email ≡ false
    → is_empty password ≡ false
    → accepts email password ≡ true
    → (login : Url) × (update_session rotations false url ≡ redirected login)
      × (login.pathname ≡ codes "/login")
      × (sign_in accepts (some email) (some password) (get_param (codes "next") login.search)
          ≡ signed_in_to url.pathname)
      × (sign_in accepts (some email) (some password) (some (hidden_next login.search))
          ≡ signed_in_to url.pathname)
unfolding update_session hidden_next
sign_in-update_session accepts email password rotations url closed here trimmed some_email
      some_password good =
    let carried = get_param-set_param (codes "next") url.pathname url.search refl in
    let signed_in =
      sign_in-local accepts email password url.pathname here trimmed some_email some_password
        good in
    (login_url url, rw closed refl, refl, rw carried signed_in, rw carried signed_in)
