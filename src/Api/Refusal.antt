-- ===== src/Api/Refusal.antt =====
-- Requests with no user, for supabase/functions/api/index.ts.
use mathlib.Core.Path.{fun_ext, ap₂, subst}
use rebalance_webull.Prelude.{
  ◌≡◌, refl, ◌≢◌, inl, inr, ap, true, Option, none, some, List, [], ◌∷◌, Text, codes, Option-cases,
  Bool-cases, String, str_eq, eq_iff, false,
}
use rebalance_webull.Js.{Runtime}
use rebalance_webull.Api.Http.{unauthorized, Response, fail}
use rebalance_webull.Api.Effects.{Program, done}
use rebalance_webull.Api.Engine.{Env, api_error}
use rebalance_webull.Api.Auth.{AuthedUser, bearer_token, require_user, with_token}
use rebalance_webull.Api.App.{
  Endpoint, health, Pattern, guards, Router, routes, Request, find_route, when_matched, guarded,
  caught, dispatch, serve, respond,
}
use rebalance_webull.Api.Guarding.{is_covered, routed-covered}

module _ {N : Type 0} where
  -- The response of `requireUser` to a request with no bearer token.
  abbrev pub missing_token : Response N
  missing_token = fail (api_error unauthorized (codes "missing bearer token"))

  guarded_refuses :
      (router : Router) (req : Request N) (gs : List Pattern) (user : Option AuthedUser)
      (next : Option AuthedUser → Program N (Response N))
      → is_covered router req.path gs ≡ true
      → bearer_token req.authorization ≡ []
      → guarded router req gs user next ≡ done missing_token
  unfolding guarded require_user when_matched
  guarded_refuses router req [] user next h e = cc
  guarded_refuses router req (g ∷ gs) user next h e =
      elim (Option-cases (router.matches g req.path)) [
        | inl missed ↦ rw (missed, guarded_refuses router req gs user next (rw missed at h) e)
        | inr (id, found) ↦ rw (found, e)
      ]

  with_token-agree :
      (token : Text) (f g : AuthedUser → Program N (Response N))
      → ((u : AuthedUser) → f u ≡ g u)
      → with_token token f ≡ with_token token g
  with_token-agree token f g h = ap (with_token token) (fun_ext h)

  -- Once a user is known, only what the handler does for a user matters.
  guarded_known-agree :
      (router : Router) (req : Request N) (gs : List Pattern) (u : AuthedUser)
      (f g : Option AuthedUser → Program N (Response N))
      → ((v : AuthedUser) → f (some v) ≡ g (some v))
      → guarded router req gs (some u) f ≡ guarded router req gs (some u) g
  unfolding guarded require_user
  guarded_known-agree router req [] u f g k = k u
  guarded_known-agree router req (p ∷ gs) u f g k =
      ap₂ (when_matched (router.matches p req.path))
        (with_token-agree (bearer_token req.authorization) _ _
          (λ v. guarded_known-agree router req gs v f g k))
        (guarded_known-agree router req gs u f g k)

  -- Behind a guard that matches, the handler is never given `undefined` for its user.
  guarded-agree :
      (router : Router) (req : Request N) (gs : List Pattern)
      (f g : Option AuthedUser → Program N (Response N))
      → is_covered router req.path gs ≡ true
      → ((u : AuthedUser) → f (some u) ≡ g (some u))
      → guarded router req gs none f ≡ guarded router req gs none g
  unfolding guarded require_user when_matched
  guarded-agree router req [] f g h k = cc
  guarded-agree router req (p ∷ gs) f g h k = elim (Option-cases (router.matches p req.path)) [
    | inl missed ↦ rw missed (guarded-agree router req gs f g (rw missed at h) k)
    | inr (id, found) ↦ rw found (
        with_token-agree (bearer_token req.authorization) _ _
          (λ v. guarded_known-agree router req gs v f g k))
  ]

  -- A handler that is given no user, or a user.
  abbrev pub or_else :
      Program N (Response N)
      → (AuthedUser → Program N (Response N))
      → Option AuthedUser
      → Program N (Response N)
  or_else lost handler none = lost
  or_else lost handler (some user) = handler user

-- No handler is registered for OPTIONS.
find_route_of_options :
    (router : Router) (method : String) (path : Text) (e : Endpoint) (id : Text)
    → find_route router method path routes ≡ some (e, id)
    → str_eq method "OPTIONS" ≡ false
unfolding find_route
find_route_of_options router method path e id found = elim (Bool-cases (str_eq method "OPTIONS")) [
  | inl same ↦
      let none_found : find_route router "OPTIONS" path routes ≡ some (e, id) =
        subst (λ m. find_route router m path routes ≡ some (e, id))
          ((eq_iff method "OPTIONS").0 same) found in
      absurd cc
  | inr other ↦ other
]

module _ {N : Type 0} ⦃r : Runtime N⦄ (env : Env) (router : Router) (req : Request N) where
  -- A request to a routed path other than /health with no bearer token is answered 401, and no
  -- service is asked anything.
  pub respond_without_token :
      (e : Endpoint) (id : Text)
      → find_route router req.method req.path routes ≡ some (e, id)
      → e ≢ health
      → bearer_token req.authorization ≡ []
      → respond env router req ≡ done missing_token
  unfolding respond
  respond_without_token e id found k none_given =
      rw (find_route_of_options router req.method req.path e id found) (
        ap caught (
          guarded_refuses router req guards none
            (dispatch env req (find_route router req.method req.path routes))
            (routed-covered router req.path req.method e id found k) none_given))

  dispatch-some :
      (e : Endpoint) (id : Text) (u : AuthedUser)
      → dispatch env req (some (e, id)) (some u) ≡ serve env req e id u
  unfolding dispatch serve
  dispatch-some health id u = refl
  dispatch-some _ id u = refl

  -- On every routed path other than /health the handler runs only with a user that `requireUser`
  -- set: the answer is the same whatever the handler would do with none.
  pub respond_with_user :
      (lost : Program N (Response N)) (e : Endpoint) (id : Text)
      → find_route router req.method req.path routes ≡ some (e, id)
      → e ≢ health
      → respond env router req
        ≡ caught (guarded router req guards none (or_else lost (serve env req e id)))
  unfolding respond
  respond_with_user lost e id found k =
      rw (find_route_of_options router req.method req.path e id found, found)
        (ap caught (
          guarded-agree router req guards (dispatch env req (some (e, id)))
            (or_else lost (serve env req e id))
            (routed-covered router req.path req.method e id found k) (λ u. dispatch-some e id u)))
