-- ===== src/Api/Guarding.antt =====
-- Every route of the application of supabase/functions but /health stands behind a guard.
use rebalance_webull.Prelude.{
  ◌≡◌, refl, ◌≢◌, inl, inr, sym, ◌∙◌, Bool, true, false, ◌||◌, Option, none, some, List, [], ◌∷◌,
  ◌++◌, String, Text, arith, Option-cases, Bool-cases, All, str_eq,
}
use rebalance_webull.Api.App.{
  Endpoint, health, Segment, lit, id_param, wildcard, Pattern, guards, Route, Router, routes,
  find_route,
}

abbrev pub matched : Option Text → Bool
matched none = false
matched (some _) = true

-- One of the guards matches the path.
abbrev pub is_covered : Router → Text → List Pattern → Bool
is_covered router path [] = false
is_covered router path (g ∷ gs) = matched (router.matches g path) || is_covered router path gs

matched_of_ne : (o : Option Text) → o ≢ none → matched o ≡ true
matched_of_ne none h = absurd (h refl)
matched_of_ne (some t) h = refl

module _ (router : Router) (path : Text) where
  -- The route is /health, or a guard matches where it does.
  abbrev IsBehind : Route → Type 0
  IsBehind rt =
      (id : Text)
      → router.matches rt.pattern path ≡ some id
      → rt.endpoint ≢ health
      → is_covered router path guards ≡ true

  below :
      (p : Pattern) (s : Segment) (q : Pattern) (id : Text)
      → router.matches (p ++ s ∷ q) path ≡ some id
      → matched (router.matches (p ++ wildcard ∷ []) path) ≡ true
  below p s q id h = matched_of_ne _ (router.wildcard_covers p s q path id h)

  behind_broker :
      (name : String) (id : Text)
      → router.matches (lit "broker" ∷ lit name ∷ []) path ≡ some id
      → is_covered router path guards ≡ true
  behind_broker name id h = ground (arith, below (lit "broker" ∷ []) (lit name) [] id h)

  behind_bots :
      (id : Text)
      → router.matches (lit "bots" ∷ []) path ≡ some id
      → is_covered router path guards ≡ true
  behind_bots id h = ground arith

  behind_bot :
      (q : Pattern) (id : Text)
      → router.matches (lit "bots" ∷ id_param ∷ q) path ≡ some id
      → is_covered router path guards ≡ true
  behind_bot q id h = ground (arith, below (lit "bots" ∷ []) id_param q id h)

  behind_self :
      (g : Pattern) (id : Text) (gs hs : List Pattern)
      → router.matches g path ≡ some id
      → is_covered router path (gs ++ g ∷ hs) ≡ true
  behind_self g id [] hs h = ground arith
  behind_self g id (x ∷ gs) hs h = ground (arith, behind_self g id gs hs h)

  routes-IsBehind : All IsBehind routes
  routes-IsBehind = (
    λ id h not_health. absurd (not_health refl),
    (
      λ id h k.
          behind_self (lit "me" ∷ []) id
            ((lit "broker" ∷ wildcard ∷ []) ∷ (lit "bots" ∷ []) ∷ (lit "bots" ∷ wildcard ∷ []) ∷ [])
            [] h,
      (
        λ id h k. behind_broker "connection" id h,
        (
          λ id h k. behind_broker "credentials" id h,
          (
            λ id h k. behind_broker "credentials" id h,
            (
              λ id h k. behind_broker "verify" id h,
              (
                λ id h k. behind_broker "account" id h,
                (
                  λ id h k. behind_bots id h,
                  (
                    λ id h k. behind_bot [] id h,
                    (
                      λ id h k. behind_bots id h,
                      (
                        λ id h k. behind_bot [] id h,
                        (
                          λ id h k. behind_bot [] id h,
                          (
                            λ id h k. behind_bot (lit "status" ∷ []) id h,
                            (
                              λ id h k. behind_bot (lit "rebalance" ∷ []) id h,
                              (
                                λ id h k. behind_bot (lit "orders" ∷ []) id h,
                                (λ id h k. behind_bot (lit "allocation" ∷ []) id h, tt),
                              ),
                            ),
                          ),
                        ),
                      ),
                    ),
                  ),
                ),
              ),
            ),
          ),
        ),
      ),
    ),
  )

  find_route-covered :
      (method : String) (rts : List Route) (e : Endpoint) (id : Text)
      → All IsBehind rts
      → find_route router method path rts ≡ some (e, id)
      → e ≢ health
      → is_covered router path guards ≡ true
  unfolding find_route
  find_route-covered method [] e id all h k = cc
  find_route-covered method (rt ∷ rts) e id (behind, all) h k =
      elim (Bool-cases (str_eq rt.method method)) [
        | inl same ↦ elim (Option-cases (router.matches rt.pattern path)) [
          | inl missed ↦
              find_route-covered method rts e id all (rw (same, missed, find_route) at h) k
          | inr (j, found) ↦
              let same_endpoint : rt.endpoint ≡ e = ground arith in
              behind j found (λ q. k (sym same_endpoint ∙ q))
        ]
        | inr other ↦ find_route-covered method rts e id all (rw other at h) k
      ]

  -- A guard matches every path on which a handler other than that of /health is found.
  pub routed-covered :
      (method : String) (e : Endpoint) (id : Text)
      → find_route router method path routes ≡ some (e, id)
      → e ≢ health
      → is_covered router path guards ≡ true
  routed-covered method e id h k = find_route-covered method routes e id routes-IsBehind h k
