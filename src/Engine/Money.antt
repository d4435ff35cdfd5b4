-- ===== src/Engine/Money.antt =====
-- Money and quantities, api/src/engine/money.py.
--
-- Each amount is a whole number of the unit that `money` and `quantity` quantize to: a value and a
-- price count 0.0001, a quantity counts 0.00000001 of a share. The brokers quantize what they
-- report, and the columns of the database have these scales. Products and quotients are exact
-- before they are rounded, as they are in Python while its 28 digits hold them: a sum of money
-- below 10 ^ 15 and a product of quantity and price below 10 ^ 16 do so.
use rebalance_webull.Prelude.{ℕ, ◌+◌, ◌-◌, ◌*◌, ◌/◌, ltb, ◌==◌, if◌then◌else◌}

-- An input before its sign is tested.
pub data ℤ : Type 0 where
  pos : ℕ → ℤ
  negsuc : ℕ → ℤ

abbrev pub one_share : ℕ
one_share = 100_000_000

-- `money(quantity * price)`, of a sum of such products in general.
abbrev pub round_money : ℕ → ℕ
round_money product = (product + 50_000_000) / one_share

abbrev pub value_of : ℕ → ℕ → ℕ
value_of quantity price = round_money (quantity * price)

-- `quantity(value / price)` and `whole_shares(value / price)`
abbrev pub quantity_for : ℕ → ℕ → ℕ
quantity_for value price = (value * one_share) / price

abbrev pub whole_shares_for : ℕ → ℕ → ℕ
whole_shares_for value price = (value / price) * one_share

-- `money(apply_bps(value, bps))`, and the same of what is left of the value.
abbrev pub apply_bps : ℕ → ℕ → ℕ
apply_bps value bps = (value * bps + 5000) / 10000

abbrev pub without_bps : ℕ → ℕ → ℕ
without_bps value bps = ((value * 10000 - value * bps) + 5000) / 10000

-- `bps_of`
abbrev pub bps_of : ℕ → ℕ → ℕ
bps_of part whole = if whole == 0 then 0 else (2 * (part * 10000) + whole) / (2 * whole)

abbrev pub min : ℕ → ℕ → ℕ
min a b = if ltb b a then b else a
