-- ===== src/Web/Account.antt =====
-- The account on the dashboard, web/components/account-panel.tsx: its loads and what it shows.
pub mod Loads
use rebalance_webull.Prelude.{
  ℕ, suc, ◌≡◌, Bool, true, false, Option, none, some, List, [], ◌∷◌, Text, codes, if◌then◌else◌,
}
use rebalance_webull.Js.{
  Runtime, Json, null, boolean, num, str, arr, obj, Items, nil, cons, get, to_text, ◌>>=◌,
}
use rebalance_webull.Web.Client.{Settled, resolved, rejected, crashed}
use rebalance_webull.Web.Controls.{message_or, truthy}
use rebalance_webull.Web.Format.{Display, money, quantity}

-- `data`, `error` and `loading`, with the number of calls of `load` that have not ended.
pub record Panel (N : Type 0) : Type 0 where
  pub snapshot : Json N
  pub error : Option Text
  pub loading : Bool
  pub in_flight : ℕ

-- What the component starts with.
abbrev pub unloaded : {N : Type 0} → Panel N
unloaded = record { snapshot = null; error = none; loading = true; in_flight = 0 }

-- `load` up to its `await`.
unfoldable pub begun : {N : Type 0} → Panel N → Panel N
begun s = record s { loading = true; in_flight = suc s.in_flight }

module _ {N : Type 0} ⦃r : Runtime N⦄ where
  -- The rest of `load`, by the outcome of `api.account()`, the message of an exception other than
  -- an `ApiError`, and the number of calls left.
  unfoldable pub ended : Text → Settled N → ℕ → Panel N
  ended exception (resolved payload) left = record {
    snapshot = payload;
    error = none;
    loading = false;
    in_flight = left;
  }
  ended exception (rejected e) left = record {
    snapshot = null;
    error = some (message_or exception (to_text e.message));
    loading = false;
    in_flight = left;
  }
  ended exception crashed left = record {
    snapshot = null;
    error = some exception;
    loading = false;
    in_flight = left;
  }

-- `disabled` of "Refresh", negated.
unfoldable pub can_refresh : {N : Type 0} → Panel N → Bool
can_refresh s = if s.loading then false else true

pub record Position (N : Type 0) : Type 0 where
  pub symbol : Option (Json N)
  pub held : Text
  pub price : Text
  pub avg_cost : Text
  pub market_value : Text

-- What the panel shows: an error, a notice, or the figures of an account and its positions.
pub data View (N : Type 0) : Type 0 where
  error_view : Text → View N
  notice : Text → View N
  account_view : List (Text × Text) → List (Position N) → View N

module _ {N : Type 0} ⦃r : Runtime N⦄ where
  -- An argument of which `undefined` has a default.
  abbrev currency_or_default : Option (Json N) → Option Text
  currency_or_default none = some (codes "USD")
  currency_or_default (some v) = to_text v

  -- `money(value, data.currency)`
  unfoldable money_in : Display N → Json N → Option (Json N) → Option Text
  unfolding money
  money_in p account value =
      currency_or_default (get account "currency") >>= λ currency. money p value currency

  unfoldable position_of : Display N → Json N → Json N → Option (Position N)
  unfolding quantity money_in
  position_of p account null = none
  position_of p account row = quantity p (get row "quantity") >>= λ held.
      money_in p account (get row "price") >>= λ price.
      money_in p account (get row "avg_cost") >>= λ cost.
      money_in p account (get row "market_value") >>= λ value. some (record {
        symbol = get row "symbol";
        held = held;
        price = price;
        avg_cost = cost;
        market_value = value;
      })

  unfoldable positions_of : Display N → Json N → Items N → Option (List (Position N))
  unfolding position_of
  positions_of p account nil = some []
  positions_of p account (cons row rows) = position_of p account row >>= λ first.
      positions_of p account rows >>= λ rest. some (first ∷ rest)

  -- `data.positions`: only a value with a `length` that is no 0 is mapped.
  unfoldable listed : Display N → Json N → Option (Json N) → Option (List (Position N))
  unfolding positions_of truthy
  listed p account none = none
  listed p account (some null) = none
  listed p account (some (arr rows)) = positions_of p account rows
  listed p account (some (str [])) = some []
  listed p account (some (str s)) = none
  listed p account (some (obj fields)) =
      if truthy (get (obj fields) "length") then none else some []
  listed p account (some v) = some []

  unfoldable figures : Display N → Json N → Option (List (Text × Text))
  unfolding money_in
  figures p account = money_in p account (get account "total_value") >>= λ total.
      money_in p account (get account "cash") >>= λ cash.
      money_in p account (get account "equity") >>= λ equity.
      some ((codes "Total value", total) ∷ (codes "Cash", cash) ∷ (codes "Equity", equity) ∷ [])

  unfoldable account_shown : Display N → Bool → Json N → Option (View N)
  unfolding figures listed truthy
  account_shown p loading account =
      if truthy (some account)
      then (figures p account >>= λ sums.
          listed p account (get account "positions") >>= λ rows. some (account_view sums rows))
      else some (notice (if loading then codes "Loading…" else codes "No data."))

  -- The body of the card; `none` is an exception. An empty error counts as none.
  unfoldable pub panel_view : Display N → Panel N → Option (View N)
  unfolding account_shown
  panel_view p s = elim s.error [
    | none ↦ account_shown p s.loading s.snapshot
    | some [] ↦ account_shown p s.loading s.snapshot
    | some (c ∷ cs) ↦ some (error_view (c ∷ cs))
  ]
