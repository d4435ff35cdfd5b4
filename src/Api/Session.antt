-- ===== src/Api/Session.antt =====
-- Whom the application of supabase/functions acts for: from the header of a request to its calls.
use rebalance_webull.Prelude.{
  str_eq, Bool-cases, inl, inr, ◌≡◌, refl, Bool, true, false, Option, none, some, List, [], ◌∷◌,
  Text,
}
use rebalance_webull.Js.{Runtime}
use rebalance_webull.Api.Http.{Response}
use rebalance_webull.Api.Effects.{
  Call, get_user, select, rpc, fetch, AuthUser, AuthReply, Reply, Program, done, throw, crash, ask,
}
use rebalance_webull.Api.Engine.{Env}
use rebalance_webull.Api.Auth.{AuthedUser, bearer_token, require_user, with_token, signed_in}
use rebalance_webull.Api.Lawful.{IsLawful, KeepsLaws}
use rebalance_webull.Api.Lawful.Handlers.{serve-KeepsLaws}
use rebalance_webull.Api.App.{
  Endpoint, health, Pattern, guards, Router, routes, Request, find_route, when_matched, guarded,
  caught, serve, with_user, dispatch, respond,
}

abbrev accepted : Text → Bool → Option AuthUser → Option AuthedUser → Option AuthedUser
accepted token false (some user) known =
    some (record { id = user.id; email = user.email; token = token })
accepted token _ _ known = known

-- What the program knows of its user after a reply to `getUser(token)`.
abbrev pub learn : Text → Option AuthReply → Option AuthedUser → Option AuthedUser
learn token none known = known
learn token (some reply) known = accepted token reply.failed reply.user known

module _ {N : Type 0} ⦃r : Runtime N⦄ where
  abbrev pub IsLawfulFor : Option AuthedUser → Call N → Type 0
  IsLawfulFor none c = ⊥
  IsLawfulFor (some user) c = IsLawful user c

  -- The auth server is asked about the bearer token of the header only, and every other call acts
  -- for a user that the auth server has named for that token before.
  abbrev pub IsAuthorised : {A : Type 0} → Text → Option AuthedUser → Program N A → Type 0
  IsAuthorised token known (done a) = Unit
  IsAuthorised token known (throw e) = Unit
  IsAuthorised token known crash = Unit
  IsAuthorised token known (ask (get_user asked) k) =
      (asked ≡ token)
      × ((reply : Reply {N = N} (get_user asked))
          → IsAuthorised token (learn asked reply known) (k reply))
  IsAuthorised token known (ask (select asked query) k) =
      IsLawfulFor known (select asked query)
      × ((reply : Reply (select asked query)) → IsAuthorised token known (k reply))
  IsAuthorised token known (ask (rpc procedure) k) =
      IsLawfulFor known (rpc procedure)
      × ((reply : Reply (rpc procedure)) → IsAuthorised token known (k reply))
  IsAuthorised token known (ask (fetch request) k) =
      IsLawfulFor known (fetch request)
      × ((reply : Reply (fetch request)) → IsAuthorised token known (k reply))

  IsAuthorised-of_KeepsLaws :
      {A : Type 0} (token : Text) (user : AuthedUser) (p : Program N A)
      → KeepsLaws user p
      → IsAuthorised token (some user) p
  IsAuthorised-of_KeepsLaws token user (done a) h = tt
  IsAuthorised-of_KeepsLaws token user (throw e) h = tt
  IsAuthorised-of_KeepsLaws token user crash h = tt
  IsAuthorised-of_KeepsLaws token user (ask (get_user asked) k) (never, h) = absurd never
  IsAuthorised-of_KeepsLaws token user (ask (select asked query) k) (c, h) =
      (c, λ reply. IsAuthorised-of_KeepsLaws token user (k reply) (h reply))
  IsAuthorised-of_KeepsLaws token user (ask (rpc procedure) k) (c, h) =
      (c, λ reply. IsAuthorised-of_KeepsLaws token user (k reply) (h reply))
  IsAuthorised-of_KeepsLaws token user (ask (fetch request) k) (c, h) =
      (c, λ reply. IsAuthorised-of_KeepsLaws token user (k reply) (h reply))

  signed_in-IsAuthorised :
      (token : Text) (next : AuthedUser → Program N (Response N)) (failed : Bool)
      (user : Option AuthUser) (known : Option AuthedUser)
      → ((u : AuthedUser) → IsAuthorised token (some u) (next u))
      → IsAuthorised token (accepted token failed user known) (signed_in token next failed user)
  signed_in-IsAuthorised token next false (some user) known k = k _
  signed_in-IsAuthorised token next false none known k = tt
  signed_in-IsAuthorised token next true user known k = tt

  with_token-IsAuthorised :
      (token : Text) (next : AuthedUser → Program N (Response N)) (known : Option AuthedUser)
      → ((u : AuthedUser) → IsAuthorised token (some u) (next u))
      → IsAuthorised token known (with_token token next)
  with_token-IsAuthorised [] next known k = tt
  with_token-IsAuthorised (c ∷ cs) next known k = (
    refl,
    elim [
      | none ↦ tt
      | some reply ↦ signed_in-IsAuthorised (c ∷ cs) next reply.failed reply.user known k
    ],
  )

  when_matched-IsAuthorised :
      (token : Text) (known : Option AuthedUser) (m : Option Text)
      (asked skipped : Program N (Response N))
      → IsAuthorised token known asked
      → IsAuthorised token known skipped
      → IsAuthorised token known (when_matched m asked skipped)
  unfolding when_matched
  when_matched-IsAuthorised token known none asked skipped h k = k
  when_matched-IsAuthorised token known (some id) asked skipped h k = h

  guarded-IsAuthorised :
      (router : Router) (req : Request N) (gs : List Pattern) (known : Option AuthedUser)
      (next : Option AuthedUser → Program N (Response N))
      → ((u : Option AuthedUser) → IsAuthorised (bearer_token req.authorization) u (next u))
      → IsAuthorised (bearer_token req.authorization) known (guarded router req gs known next)
  unfolding guarded require_user
  guarded-IsAuthorised router req [] known next k = k known
  guarded-IsAuthorised router req (g ∷ gs) known next k =
      when_matched-IsAuthorised (bearer_token req.authorization) known (router.matches g req.path) _
        _
        (with_token-IsAuthorised (bearer_token req.authorization) _ known
          (λ u. guarded-IsAuthorised router req gs (some u) next k))
        (guarded-IsAuthorised router req gs known next k)

  caught-IsAuthorised :
      (token : Text) (known : Option AuthedUser) (p : Program N (Response N))
      → IsAuthorised token known p
      → IsAuthorised token known (caught p)
  unfolding caught
  caught-IsAuthorised token known (done a) h = tt
  caught-IsAuthorised token known (throw e) h = tt
  caught-IsAuthorised token known crash h = tt
  caught-IsAuthorised token known (ask (get_user asked) k) (c, h) =
      (c, λ reply. caught-IsAuthorised token (learn asked reply known) (k reply) (h reply))
  caught-IsAuthorised token known (ask (select asked query) k) (c, h) =
      (c, λ reply. caught-IsAuthorised token known (k reply) (h reply))
  caught-IsAuthorised token known (ask (rpc procedure) k) (c, h) =
      (c, λ reply. caught-IsAuthorised token known (k reply) (h reply))
  caught-IsAuthorised token known (ask (fetch request) k) (c, h) =
      (c, λ reply. caught-IsAuthorised token known (k reply) (h reply))

  with_user-IsAuthorised :
      (token : Text) (known : Option AuthedUser) (handler : AuthedUser → Program N (Response N))
      → ((u : AuthedUser) → KeepsLaws u (handler u))
      → IsAuthorised token known (with_user known handler)
  with_user-IsAuthorised token none handler k = tt
  with_user-IsAuthorised token (some u) handler k =
      IsAuthorised-of_KeepsLaws token u (handler u) (k u)

  dispatch-IsAuthorised :
      (env : Env) (req : Request N) (found : Option (Endpoint × Text)) (token : Text)
      (known : Option AuthedUser)
      → IsAuthorised token known (dispatch env req found known)
  unfolding dispatch
  dispatch-IsAuthorised env req none token known = tt
  dispatch-IsAuthorised env req (some (health, id)) token known = tt
  dispatch-IsAuthorised env req (some (endpoint, id)) token known =
      with_user-IsAuthorised token known (serve env req endpoint id)
        (serve-KeepsLaws N env req endpoint id)

  -- For every request, whatever the services answer: the auth server is asked only about the
  -- bearer token of the request's header; every other call is made for a user that the auth
  -- server has named for that token before, with that user's token on reads, the user's id on
  -- writes and on requests to the engine; and every write carries valid data.
  pub respond-IsAuthorised :
      (env : Env) (router : Router) (req : Request N)
      → IsAuthorised (bearer_token req.authorization) none (respond env router req)
  unfolding respond
  respond-IsAuthorised env router req =
      let handler : Option AuthedUser → Program N (Response N) =
        dispatch env req (find_route router req.method req.path routes) in
      let served : IsAuthorised (bearer_token req.authorization) none
          (caught (guarded router req guards none handler)) =
        caught-IsAuthorised (bearer_token req.authorization) none
          (guarded router req guards none handler)
          (guarded-IsAuthorised router req guards none handler (
            dispatch-IsAuthorised env req (find_route router req.method req.path routes)
              (bearer_token req.authorization))) in
      elim (Bool-cases (str_eq req.method "OPTIONS")) [
        | inl asked ↦ rw asked tt
        | inr other ↦ rw other served
      ]
