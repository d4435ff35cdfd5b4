-- ===== src/Web/Account/Loads.antt =====
-- The loads of web/components/account-panel.tsx, as steps.
use rebalance_webull.Prelude.{ℕ, suc, ◌≤◌, ◌≡◌, ◌⊎◌, true, none, Text}
use rebalance_webull.Js.{Runtime, null}
use rebalance_webull.Web.Client.{Settled}
use rebalance_webull.Web.Account.{Panel, unloaded, begun, ended, can_refresh}

module _ {N : Type 0} ⦃r : Runtime N⦄ where
  -- The effect of the mount, a press of "Refresh" where it is enabled, or the end of a load.
  pub data Step (s u : Panel N) : Type 0 where
    mount : s ≡ unloaded → u ≡ begun s → Step s u
    press : can_refresh s ≡ true → u ≡ begun s → Step s u
    finish_load :
        (exception : Text) (outcome : Settled N) (left : ℕ)
        → s.in_flight ≡ suc left
        → u ≡ ended exception outcome left
        → Step s u

  pub data Reach : Panel N → Type 0 where
    here : Reach unloaded
    next : {s u : Panel N} → Reach s → Step s u → Reach u

  -- The panel is just as a load left it, with no other in flight.
  abbrev pub IsLoaded : Panel N → Type 0
  IsLoaded s = (exception : Text) × (outcome : Settled N) × (s ≡ ended exception outcome 0)

  -- At most one call is in flight. The panel is loading, or it is just as a load left it. Never
  -- are there an error and an account.
  abbrev pub IsCoherent : Panel N → Type 0
  IsCoherent s =
      (s.in_flight ≤ 1)
      × ((s.loading ≡ true) ⊎ IsLoaded s)
      × ((s.error ≡ none) ⊎ (s.snapshot ≡ null))
