-- ===== src/Web/Format.antt =====
-- Display formatting, web/lib/format.ts. `Intl`, `Date` and the clock are an argument. The number
-- -0, which `Intl` alone would show with its sign, is 0 here.
pub mod Ages
use rebalance_webull.Prelude.{
  ℕ, Bool, true, false, Option, none, some, [], ◌++◌, Text, codes, if◌then◌else◌,
}
use rebalance_webull.Js.{Runtime, Decimals, Json, num, to_number, ◌>>=◌}
use rebalance_webull.Api.Request.{or_json}
use rebalance_webull.Web.Controls.{truthy}

pub record Display (N : Type 0) : Type 0 where
  -- `format` of `Intl.NumberFormat("en-US", …)` for a currency with two places, which throws on a
  -- text that is no currency code, and for a decimal with at most eight.
  pub currency_text : Text → N → Option Text
  pub decimal_text : N → Text
  -- `Date.now()`, `new Date(value).getTime()`, and `toLocaleString("en-GB", …)` of the date.
  pub now : N
  pub time_of : Json N → N
  pub date_text : Json N → Text

module _ {N : Type 0} ⦃r : Runtime N⦄ where
  -- `Number(value ?? 0)`; `none` of the value is `undefined`.
  unfoldable pub number_or_zero : Option (Json N) → Option N
  number_or_zero value = to_number (or_json value (num (r.of_ℕ 0)))

  -- `money`; `none` of the result is an exception.
  unfoldable pub money : Display N → Option (Json N) → Text → Option Text
  unfolding number_or_zero
  money p value currency =
      number_or_zero value >>= λ n. p.currency_text currency (if r.is_finite n then n else r.of_ℕ 0)

  unfoldable pub quantity : Display N → Option (Json N) → Option Text
  unfolding number_or_zero
  quantity p value = number_or_zero value >>= λ n. some (p.decimal_text n)

  abbrev or_zero : Option N → N
  or_zero none = r.of_ℕ 0
  or_zero (some n) = n

  -- `bps`, by the number of places.
  unfoldable pub bps : Decimals N r → ℕ → Option N → Text
  bps d places value = d.to_fixed places (d.div (or_zero value) (r.of_ℕ 100)) ++ codes "%"

  unfoldable pub signed_bps : Decimals N r → Option N → Text
  signed_bps d value =
      let n = or_zero value in
      (if r.lt (r.of_ℕ 0) n then codes "+" else [])
      ++ (d.to_fixed 2 (d.div n (r.of_ℕ 100)) ++ codes "%")

  unfoldable pub date_time : Display N → Option (Json N) → Text
  unfolding truthy
  date_time p none = codes "—"
  date_time p (some value) = if truthy (some value) then p.date_text value else codes "—"

  -- `relative` of a value that is no empty one.
  unfoldable pub age_from : Decimals N r → N → Text
  age_from d diff =
      let minutes = r.round (d.div diff (r.of_ℕ 60000)) in
      let hours = r.round (d.div minutes (r.of_ℕ 60)) in
      if r.lt minutes (r.of_ℕ 1)
      then codes "just now"
      else if r.lt minutes (r.of_ℕ 60)
      then r.text_of_number minutes ++ codes "m ago"
      else if r.lt hours (r.of_ℕ 24)
      then r.text_of_number hours ++ codes "h ago"
      else r.text_of_number (r.round (d.div hours (r.of_ℕ 24))) ++ codes "d ago"

  unfoldable pub relative : Decimals N r → Display N → Option (Json N) → Text
  unfolding age_from truthy
  relative d p none = codes "never"
  relative d p (some value) =
      if truthy (some value) then age_from d (d.sub p.now (p.time_of value)) else codes "never"
