-- ===== src/Web/Pages/Shell.antt =====
-- The frame of the pages, web/app/(app)/layout.tsx, and the page of the connection,
-- web/app/(app)/connection/page.tsx.
use rebalance_webull.Prelude.{Option, none, some, List, [], ◌∷◌, String, Text, codes}
use rebalance_webull.Js.{Runtime, Json, null, str, obj, Fields, end, field, get}
use rebalance_webull.Api.Effects.{AuthUser}
use rebalance_webull.Api.Request.{or_json}
use rebalance_webull.Web.Connection.{ManagerState, started}
use rebalance_webull.Web.Pages.{Page, read_one, shown}
use rebalance_webull.Web.Pages.Lists.{page_connection_query}

-- NAV, by address and label.
abbrev pub navigation : List (Text × Text)
navigation =
    (codes "/dashboard", codes "Dashboard")
    ∷ (codes "/bots", codes "Bots")
    ∷ (codes "/connection", codes "Connection")
    ∷ []

-- What the layout does: it shows its page under a header, or redirects.
pub data Frame (A : Type 0) : Type 0 where
  framed : List (Text × Text) → Option Text → A → Frame A
  sent_to : Text → Frame A

-- `AppLayout`, by the user that `auth.getUser()` finds.
unfoldable pub app_layout : {A : Type 0} → Option AuthUser → A → Frame A
app_layout none children = sent_to (codes "/login")
app_layout (some user) children = framed navigation user.email children

module _ {N : Type 0} where
  abbrev field_or : Option (Json N) → String → Json N → Json N
  field_or none name otherwise = otherwise
  field_or (some row) name otherwise = or_json (get row name) otherwise

  unfoldable pub initial_fields : Option (Json N) → Fields N
  initial_fields row = field "status" (field_or row "status" (str (codes "disconnected"))) (
      field "environment" (field_or row "environment" null) (
        field "account_id" (field_or row "account_id" null) (
          field "account_currency" (field_or row "account_currency" null) (
            field "api_key_hint" (field_or row "api_key_hint" null) (
              field "last_verified_at" (field_or row "last_verified_at" null)
                (field "last_error" (field_or row "last_error" null) end))))))

  -- The `initial` of `ConnectionManager`.
  unfoldable pub initial_connection : Option (Json N) → Json N
  unfolding initial_fields
  initial_connection row = obj (initial_fields row)

-- The page of the connection, by the state that its component starts with.
unfoldable pub connection_page : {N : Type 0} ⦃r : Runtime N⦄ → Page N (ManagerState N)
unfolding page_connection_query initial_connection
connection_page = read_one page_connection_query λ row. shown (started (initial_connection row))
