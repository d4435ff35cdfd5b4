-- ===== src/Web/Connection.antt =====
-- The page of the broker connection, web/components/connection-manager.tsx with the tones of
-- web/components/ui/badge.tsx. The outcomes of the calls are arguments; whether an action is
-- pending is React's.
pub mod Secrets
use rebalance_webull.Prelude.{
  Bool, true, false, ◌&&◌, ◌||◌, not, Option, none, some, List, [], ◌∷◌, ◌++◌, String, Text,
  text_eq, codes, if◌then◌else◌,
}
use rebalance_webull.Js.{Runtime, Json, null, str, get, to_text}
use rebalance_webull.Api.Request.{or_json}
use rebalance_webull.Web.Client.{
  ClientCall, save_credentials, verify, disconnect, Settled, resolved, rejected, crashed,
}
use rebalance_webull.Web.Controls.{message_or, truthy, template_text}
use rebalance_webull.Web.Format.{Display, date_time}

pub data Tone : Type 0 where
  neutral positive negative warning accent : Tone

-- `statusTone`
unfoldable pub status_tone : Text → Tone
status_tone status =
    if text_eq status (codes "running")
      || text_eq status (codes "succeeded")
      || text_eq status (codes "filled")
      || text_eq status (codes "connected")
    then positive
    else if text_eq status (codes "failed")
        || text_eq status (codes "rejected")
        || text_eq status (codes "error")
    then negative
    else if text_eq status (codes "paused")
        || text_eq status (codes "partially_filled")
        || text_eq status (codes "skipped")
    then warning
    else neutral

-- A message, by whether its tone is "ok".
pub record Notice (N : Type 0) : Type 0 where
  pub ok : Bool
  pub text : Json N

pub record ManagerState (N : Type 0) : Type 0 where
  pub connection : Json N
  pub api_key : Text
  pub api_secret : Text
  pub message : Option (Notice N)

-- What the component starts with.
abbrev pub started : {N : Type 0} → Json N → ManagerState N
started initial = record { connection = initial; api_key = []; api_secret = []; message = none }

-- The state after an action, and whether it came to `router.refresh()`.
pub record Ran (N : Type 0) : Type 0 where
  pub state : ManagerState N
  pub refreshed : Bool

-- The actions that `run` is called with.
pub data Task : Type 0 where
  saving verifying disconnecting : Task

-- The first call of an action. Each goes on with `api.connection()`.
unfoldable pub task_call : {N : Type 0} → Task → ManagerState N → ClientCall N
task_call saving s = save_credentials s.api_key s.api_secret
task_call verifying s = verify
task_call disconnecting s = disconnect

abbrev good : {N : Type 0} → Text → ManagerState N → ManagerState N
good text s = record s { message = some (record { ok = true; text = str text }) }

abbrev bad : {N : Type 0} → Json N → ManagerState N → ManagerState N
bad text s = record s { message = some (record { ok = false; text = text }) }

-- The fields once the credentials were stored.
abbrev cleared : {N : Type 0} → ManagerState N → ManagerState N
cleared s = record s { api_key = []; api_secret = [] }

module _ {N : Type 0} ⦃r : Runtime N⦄ where
  -- The `catch` of `run`, by the message of an exception other than an `ApiError`.
  abbrev pub caught_task : Text → Settled N → ManagerState N → Ran N
  caught_task exception (rejected e) s = record {
    state = bad (str (message_or exception (to_text e.message))) s;
    refreshed = false;
  }
  caught_task exception _ s = record { state = bad (str exception) s; refreshed = false }

  -- `setConnection(await api.connection())`, the end of every action.
  unfoldable pub reread : Text → Settled N → ManagerState N → Ran N
  reread exception (resolved payload) s = record {
    state = record s { connection = payload };
    refreshed = true;
  }
  reread exception outcome s = caught_task exception outcome s

  -- What follows a resolved call that reports an `error`: a read of null is an exception.
  unfoldable pub after_result : Text → Text → Json N → Settled N → ManagerState N → Ran N
  unfolding reread truthy
  after_result exception done null second s = caught_task exception crashed s
  after_result exception done result second s =
      if truthy (get result "error")
      then reread exception second (bad (or_json (get result "error") null) s)
      else reread exception second (good done s)

  -- The action of a button, by the outcomes of its two calls.
  unfoldable pub ran : Text → Task → Settled N → Settled N → ManagerState N → Ran N
  unfolding after_result reread
  ran exception saving (resolved result) second s =
      after_result exception (codes "Connected. Credentials stored encrypted.") result second
        (cleared (record s { message = none }))
  ran exception verifying (resolved result) second s =
      after_result exception (codes "Connection verified.") result second
        (record s { message = none })
  ran exception disconnecting (resolved result) second s =
      reread exception second (
        good (codes "Disconnected. Stored credentials were deleted.") (record s { message = none }))
  ran exception task first second s = caught_task exception first (record s { message = none })

  abbrev is_status : Text → Json N → Bool
  is_status status (str s) = text_eq s status
  is_status status _ = false

  -- `connected`
  unfoldable pub is_connected : Json N → Bool
  is_connected row = is_status (codes "connected") (or_json (get row "status") null)

  abbrev shown_hint : Option Text → Option (Json N)
  shown_hint none = none
  shown_hint (some hint) = some (str (codes "•••• " ++ hint))

  abbrev row_value : Json N → String → Json N
  row_value row name = or_json (get row name) (str (codes "—"))

  unfoldable with_hint : Display N → Json N → Option (Json N) → Option (List (Text × Json N))
  unfolding date_time
  with_hint p row none = none
  with_hint p row (some hint) = some (
      (codes "Environment", row_value row "environment")
      ∷ (codes "Account", row_value row "account_id")
      ∷ (codes "Currency", row_value row "account_currency")
      ∷ (codes "API key", hint)
      ∷ (codes "Last verified", str (date_time p (get row "last_verified_at")))
      ∷ [])

  -- The rows under "Status", by label and value; `none` is an exception.
  unfoldable pub status_rows : Display N → Json N → Option (List (Text × Json N))
  unfolding truthy template_text with_hint
  status_rows p row = with_hint p row (
      if truthy (get row "api_key_hint")
      then shown_hint (template_text (get row "api_key_hint"))
      else some (str (codes "none stored")))

module _ {N : Type 0} ⦃r : Runtime N⦄ where
  -- The error under the rows, where there is one.
  unfoldable pub last_error : Json N → Option (Json N)
  unfolding truthy
  last_error row = if truthy (get row "last_error") then get row "last_error" else none

  -- The title of the form, and the text of its button.
  unfoldable pub form_title : Json N → Text
  unfolding is_connected
  form_title row = if is_connected row then codes "Replace API key" else codes "Attach API key"

  unfoldable pub save_text : Bool → Json N → Text
  unfolding is_connected
  save_text busy row =
      if busy
      then codes "Saving…"
      else if is_connected row
      then codes "Replace key"
      else codes "Connect"

-- `disabled` of the buttons, negated.
unfoldable pub can_press : {N : Type 0} ⦃r : Runtime N⦄ → Bool → ManagerState N → Task → Bool
unfolding is_connected
can_press busy s saving = not busy && not (text_eq s.api_key []) && not (text_eq s.api_secret [])
can_press busy s verifying = not busy
can_press busy s disconnecting = not busy && is_connected s.connection
