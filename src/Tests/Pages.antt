-- ===== src/Tests/Pages.antt =====
-- Pages, a connection and an account, on which the theorems on the web client's views apply.
use rebalance_webull.Prelude.{
  ◌≡◌, ◌↔◌, refl, true, false, Option, none, some, List, [], ◌∷◌, ◌++◌, codes, arith, if◌then◌else◌,
}
use rebalance_webull.Js.{Json, null, str, obj, field, end}
use rebalance_webull.Api.Effects.{Query, responded, json}
use rebalance_webull.Api.Http.{fail}
use rebalance_webull.Web.Client.{resolved, crashed, receive}
use rebalance_webull.Web.Client.Contract.{error_json}
use rebalance_webull.Web.Controls.{truthy}
use rebalance_webull.Web.Connection.{ManagerState, started, saving, ran}
use rebalance_webull.Web.Connection.Secrets.{IsSettled, is_saved, ran-IsSettled, ran-fail}
use rebalance_webull.Web.Account.{Panel, ended}
use rebalance_webull.Web.Format.{Display, age_from, bps, relative, signed_bps}
use rebalance_webull.Web.Format.Ages.{Age, age_text, IsNear, relative-IsNear}
use rebalance_webull.Web.Allocation.{AllocationTarget, Row, rows_of, drift_rows}
use rebalance_webull.Web.Allocation.Unrun.{IsShort, rows_of-IsShort}
use rebalance_webull.Web.Pages.{not_found}
use rebalance_webull.Web.Pages.BotDetail.{bot_query, bot_page}
use rebalance_webull.Web.Pages.Reads.{AllReads, IsAbout, ended_page, bot_page-IsAbout}
use rebalance_webull.Tests.Numbers.{Sample, sample_runtime, sample_decimals}
use rebalance_webull.Tests.Client.{busy_bot}

abbrev connected_row : Json Sample
connected_row =
    obj (field "status" (str (codes "connected")) (field "user_id" (str (codes "u1")) end))

-- The page with a key and a secret typed in.
abbrev filled : ManagerState Sample
filled = record (started connected_row) { api_key = codes "wb_1"; api_secret = codes "s3cret" }

ran-IsSettled_example :
    IsSettled filled
      (resolved connected_row)
      (ran (codes "offline") saving (resolved (obj end)) (resolved connected_row) filled)
    × ((ran
          (codes "offline")
          saving
          (resolved (obj end))
          (resolved connected_row)
          filled).state.api_key
        ≡ (if is_saved {N = Sample} saving (resolved (obj end)) then [] else filled.api_key))
    × ((ran
          (codes "offline")
          saving
          (resolved (obj end))
          (resolved connected_row)
          filled).state.api_secret
        ≡ (if is_saved {N = Sample} saving (resolved (obj end)) then [] else filled.api_secret))
ran-IsSettled_example =
    ran-IsSettled (codes "offline") saving (resolved (obj end)) (resolved connected_row) filled

ran-fail_example :
    ran
      (codes "offline")
      saving
      (receive (responded (fail busy_bot).status (json (error_json (λ issues. null) busy_bot))))
      crashed
      filled
    ≡ record {
      state = record filled { message = some (record { ok = false; text = str busy_bot.message }) };
      refreshed = false;
    }
ran-fail_example = ran-fail (codes "offline") saving crashed filled (λ issues. null) busy_bot

-- A load that was begun at the mount and has failed.
abbrev failed_panel : Panel Sample
failed_panel = ended (codes "offline") crashed 0

-- A clock that stands at the number of milliseconds of two hours, and dates at 0.
abbrev clock : Display Sample
clock = record {
  currency_text = λ currency x. some (sample_runtime.text_of_number x ++ currency);
  decimal_text = sample_runtime.text_of_number;
  now = sample_runtime.of_ℕ 7_200_000;
  time_of = λ value. sample_runtime.of_ℕ 0;
  date_text = λ value. codes "1 Jan 1970, 00:00";
}

epoch_truthy : truthy {N = Sample} (some (str (codes "1970-01-01"))) ≡ true
unfolding truthy
epoch_truthy = refl

relative-IsNear_example :
    (age : Age) × (relative sample_decimals clock (some (str (codes "1970-01-01")))
      ≡ age_text sample_runtime age)
    × IsNear 7_200_000 age
relative-IsNear_example =
    relative-IsNear sample_decimals clock (str (codes "1970-01-01")) 7_200_000 epoch_truthy refl
      (omega arith)

abbrev basket : List (AllocationTarget Sample)
basket =
    record { symbol = codes "VTI"; target_weight_bps = sample_runtime.of_ℕ 9970 }
    ∷ record { symbol = codes "BND"; target_weight_bps = sample_runtime.of_ℕ 30 }
    ∷ []

rows_of-IsShort_example :
    (rows : List Row) × (rows_of sample_decimals clock
        (codes "USD")
        (drift_rows sample_decimals basket none)
      ≡ some rows)
    × IsShort basket (9970 ∷ 30 ∷ []) rows
rows_of-IsShort_example =
    rows_of-IsShort sample_decimals clock (codes "USD") basket (9970 ∷ 30 ∷ []) (λ x. (_, refl))
      (refl, omega arith, (refl, omega arith, tt))

-- No bot is read, and no list.
abbrev no_row : Query Sample → Option (Json Sample)
no_row query = none

abbrev no_rows : Query Sample → Option (List (Json Sample))
no_rows query = none

bot_page-IsAbout_example :
    AllReads (IsAbout (codes "b1")) (bot_page sample_decimals clock (codes "b1"))
    × ((ended_page no_row no_rows (bot_page sample_decimals clock (codes "b1")) ≡ not_found)
        ↔ (no_row (bot_query (codes "b1")) ≡ none))
bot_page-IsAbout_example = bot_page-IsAbout sample_decimals clock (codes "b1") no_row no_rows

-- The cases of web/tests/format.test.ts.
bps_text : bps sample_decimals 2 (some (sample_runtime.of_ℕ 3333)) ≡ codes "33.33%"
unfolding bps
bps_text = refl

bps_of_none : bps sample_decimals 2 none ≡ codes "0.00%"
unfolding bps
bps_of_none = refl

signed_bps_plus : signed_bps sample_decimals (some (sample_runtime.of_ℕ 742)) ≡ codes "+7.42%"
unfolding signed_bps
signed_bps_plus = refl

signed_bps_zero : signed_bps sample_decimals (some (sample_runtime.of_ℕ 0)) ≡ codes "0.00%"
unfolding signed_bps
signed_bps_zero = refl

never_evaluated : relative sample_decimals clock (some null) ≡ codes "never"
unfolding relative truthy
never_evaluated = refl

two_hours : relative sample_decimals clock (some (str (codes "1970-01-01"))) ≡ codes "2h ago"
unfolding relative age_from truthy
two_hours = refl
