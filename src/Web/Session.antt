-- ===== src/Web/Session.antt =====
-- Who may see the pages: the proxy of web/lib/supabase/proxy.ts and the sign-in of
-- web/app/login/actions.ts, with the field that web/components/login-form.tsx carries.
--
-- Supabase is a service: whether a session's claims are valid, the cookies that it rotates and
-- whether it accepts a password are arguments.
pub mod Redirects
use rebalance_webull.Prelude.{
  ◌≡◌, Bool, true, false, ◌&&◌, ◌||◌, not, Option, none, some, List, [], ◌∷◌, Text, text_eq, codes,
  trim, any, if◌then◌else◌,
}
use rebalance_webull.Api.Postgres.{starts_with}

pub record Url : Type 0 where
  pub pathname : Text
  pub search : List (Text × Text)

-- `URLSearchParams.set`: the first parameter of the name gets the value, later ones go.
unfoldable pub without : Text → List (Text × Text) → List (Text × Text)
without name [] = []
without name (param ∷ params) =
    let rest = without name params in if text_eq param.0 name then rest else param ∷ rest

unfoldable pub set_param : Text → Text → List (Text × Text) → List (Text × Text)
unfolding without
set_param name value [] = (name, value) ∷ []
set_param name value (param ∷ params) =
    let rest = set_param name value params in
    if text_eq param.0 name then (name, value) ∷ without name params else param ∷ rest

-- `URLSearchParams.get`
unfoldable pub get_param : Text → List (Text × Text) → Option Text
get_param name [] = none
get_param name (param ∷ params) =
    let rest = get_param name params in if text_eq param.0 name then some param.1 else rest

abbrev or_dashboard : Option Text → Text
or_dashboard none = codes "/dashboard"
or_dashboard (some next) = next

-- The hidden field `next` of `LoginForm`, by the parameters of its address.
unfoldable pub hidden_next : List (Text × Text) → Text
unfolding get_param
hidden_next search = or_dashboard (get_param (codes "next") search)

pub record Cookie : Type 0 where
  pub name : Text
  pub value : Text

-- `NextResponse.next`, with the cookies that it sets, or `NextResponse.redirect`.
pub data Answer : Type 0 where
  passed : List Cookie → Answer
  redirected : Url → Answer

-- PUBLIC_PATHS
abbrev pub public_paths : List Text
public_paths = codes "/login" ∷ codes "/auth" ∷ []

unfoldable pub is_public : Text → Bool
is_public pathname = any (starts_with pathname) public_paths

-- The cookies of `response` after calls of `setAll`, each of which makes a new response.
unfoldable pub set_all : List Cookie → List (List Cookie) → List Cookie
set_all cookies [] = cookies
set_all cookies (to_set ∷ calls) = set_all to_set calls

abbrev pub login_url : Url → Url
login_url url = record {
  pathname = codes "/login";
  search = set_param (codes "next") url.pathname url.search;
}

abbrev pub dashboard_url : Url
dashboard_url = record { pathname = codes "/dashboard"; search = [] }

-- `updateSession`, by the calls of `setAll` that `getClaims` makes and whether it finds claims.
unfoldable pub update_session : List (List Cookie) → Bool → Url → Answer
unfolding is_public set_all
update_session rotations signed_in url =
    if not signed_in && not (is_public url.pathname)
    then redirected (login_url url)
    else if signed_in && text_eq url.pathname (codes "/login")
    then redirected dashboard_url
    else passed (set_all [] rotations)

pub data SignIn : Type 0 where
  refused : Text → SignIn
  signed_in_to : Text → SignIn

-- `String(formData.get(name) ?? fallback)`
abbrev pub form_text : Text → Option Text → Text
form_text fallback none = fallback
form_text fallback (some t) = t

abbrev pub is_empty : Text → Bool
is_empty [] = true
is_empty _ = false

abbrev pub is_local : Text → Bool
is_local next = starts_with next (codes "/") && not (starts_with next (codes "//"))

-- Only paths of the same origin.
abbrev pub local_or_dashboard : Text → Text
local_or_dashboard next = if is_local next then next else codes "/dashboard"

-- `signIn`, by whether `signInWithPassword` accepts an email and a password.
unfoldable pub sign_in : (Text → Text → Bool) → Option Text → Option Text → Option Text → SignIn
sign_in accepts email password next =
    let address = trim (form_text [] email) in
    let secret = form_text [] password in
    let target = form_text (codes "/dashboard") next in
    if is_empty address || is_empty secret
    then refused (codes "Enter your email and password.")
    else if not (accepts address secret)
    then refused (codes "Those credentials did not work. Check them and try again.")
    else signed_in_to (local_or_dashboard target)
