-- ===== src/Web/Pages/Lists.antt =====
-- The lists of bots, web/app/(app)/dashboard/page.tsx and web/app/(app)/bots/page.tsx.
use rebalance_webull.Prelude.{
  ℕ, ◌+◌, Bool, true, false, Option, none, some, List, [], ◌∷◌, ◌++◌, Text, text_eq, codes, length,
  ◌==◌, if◌then◌else◌,
}
use rebalance_webull.Js.{Runtime, Decimals, Json, str, get, ◌>>=◌}
use rebalance_webull.Api.Effects.{Query}
use rebalance_webull.Web.Format.{Display, date_time, money, relative}
use rebalance_webull.Web.Pages.{
  Page, read_one, read_many, shown_or_broken, or_empty, each, StatusBadge, text_of, badge,
  optional_text, band_text, bps_unless_null,
}

-- A row of the table of the dashboard.
pub record BotRow : Type 0 where
  pub link : Text
  pub name : Text
  pub holdings : Text
  pub status : StatusBadge
  pub allocated : Text
  pub max_drift : Text
  pub last_run : Text
  pub last_run_title : Text

pub record Dashboard : Type 0 where
  pub running : ℕ
  pub running_line : Text
  -- Whether the warning "No broker connected" is shown.
  pub unconnected : Bool
  pub bots : List BotRow

-- A card of the page of the bots.
pub record BotCard : Type 0 where
  pub link : Text
  pub name : Text
  pub rule : Text
  pub status : StatusBadge
  pub allocated : Text
  pub holdings : Text
  pub max_drift : Text
  pub evaluated : Text
  pub evaluated_title : Text

abbrev pub is_text : {N : Type 0} → Text → Option (Json N) → Bool
is_text text (some (str s)) = text_eq s text
is_text text _ = false

-- `bots.filter((b) => b.status === status).length`
unfoldable pub count_with : {N : Type 0} → Text → List (Json N) → ℕ
count_with status [] = 0
count_with status (bot ∷ bots) =
    let rest = count_with status bots in
    if is_text status (get bot "status") then 1 + rest else rest

-- TRIGGER_LABEL, or the text itself where it is no property that every object has.
unfoldable pub trigger_label : Text → Text
trigger_label trigger =
    if text_eq trigger (codes "schedule")
    then codes "On schedule"
    else if text_eq trigger (codes "drift")
    then codes "On drift"
    else if text_eq trigger (codes "schedule_or_drift")
    then codes "Schedule or drift"
    else trigger

module _ {N : Type 0} ⦃r : Runtime N⦄ where
  unfoldable pub page_connection_query : Query N
  page_connection_query = record {
    table = "broker_connections";
    columns = "*";
    filters = [];
    order = none;
    limit = none;
    maybe_single = true;
  }

  unfoldable pub page_overview_query : Query N
  page_overview_query = record {
    table = "bot_overview";
    columns = "*";
    filters = [];
    order = some ("name", true);
    limit = none;
    maybe_single = false;
  }

  abbrev money_of : Display N → Json N → Option Text
  money_of p bot =
      text_of bot "base_currency" >>= λ currency. money p (get bot "investment_amount") currency

  unfoldable pub bot_row : Decimals N r → Display N → Json N → Option BotRow
  unfolding text_of badge money bps_unless_null relative date_time
  bot_row d p bot = text_of bot "id" >>= λ id. text_of bot "name" >>= λ name.
      text_of bot "target_count" >>= λ holdings. badge bot >>= λ status.
      money_of p bot >>= λ allocated.
      bps_unless_null d bot "latest_max_drift_bps" (codes "—") [] >>= λ drift. some (record {
        link = codes "/bots/" ++ id;
        name = name;
        holdings = holdings ++ codes " holdings";
        status = status;
        allocated = allocated;
        max_drift = drift;
        last_run = relative d p (get bot "latest_run_at");
        last_run_title = date_time p (get bot "latest_run_at");
      })

  -- "{running} of {count} bot(s) running"
  unfoldable pub running_text : List (Json N) → Text
  unfolding count_with
  running_text bots =
      r.text_of_number (r.of_ℕ (count_with (codes "running") bots))
      ++ (codes " of "
          ++ (r.text_of_number (r.of_ℕ (length bots))
              ++ (if length bots == 1 then codes " bot running" else codes " bots running")))

  abbrev status_field : Option (Json N) → Option (Json N)
  status_field none = none
  status_field (some connection) = get connection "status"

  unfoldable pub dashboard_view :
      Decimals N r → Display N → Option (Json N) → Option (List (Json N)) → Option Dashboard
  unfolding count_with running_text bot_row
  dashboard_view d p connection bots = each (bot_row d p) (or_empty bots) >>= λ rows. some (record {
    running = count_with (codes "running") (or_empty bots);
    running_line = running_text (or_empty bots);
    unconnected = if is_text (codes "connected") (status_field connection) then false else true;
    bots = rows;
  })

  unfoldable pub dashboard_page : Decimals N r → Display N → Page N Dashboard
  unfolding page_connection_query page_overview_query dashboard_view
  dashboard_page d p = read_one page_connection_query λ connection.
      read_many page_overview_query λ bots. shown_or_broken (dashboard_view d p connection bots)

  unfoldable pub bot_card : Decimals N r → Display N → Json N → Option BotCard
  unfolding text_of badge money bps_unless_null relative date_time trigger_label band_text
      optional_text
  bot_card d p bot = text_of bot "id" >>= λ id. text_of bot "name" >>= λ name.
      text_of bot "trigger_type" >>= λ trigger. band_text d bot (codes " band") >>= λ band.
      optional_text bot "interval_minutes" (codes " · every ") (codes "m") >>= λ interval.
      badge bot >>= λ status. money_of p bot >>= λ allocated.
      text_of bot "target_count" >>= λ holdings.
      bps_unless_null d bot "latest_max_drift_bps" (codes "—") [] >>= λ drift.
      optional_text bot "latest_run_status" (codes " · ") [] >>= λ run_status. some (record {
        link = codes "/bots/" ++ id;
        name = name;
        rule = trigger_label trigger ++ (band ++ interval);
        status = status;
        allocated = allocated;
        holdings = holdings;
        max_drift = drift;
        evaluated =
            codes "Last evaluated " ++ (relative d p (get bot "latest_run_at") ++ run_status);
        evaluated_title = date_time p (get bot "latest_run_at");
      })

  unfoldable pub bots_page : Decimals N r → Display N → Page N (List BotCard)
  unfolding page_overview_query bot_card
  bots_page d p =
      read_many page_overview_query λ bots. shown_or_broken (each (bot_card d p) (or_empty bots))
