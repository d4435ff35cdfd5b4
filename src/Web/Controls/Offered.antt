-- ===== src/Web/Controls/Offered.antt =====
-- The buttons of web/components/bot-controls.tsx ask for what the bot is not yet.
use rebalance_webull.Prelude.{◌≡◌, refl, ap, List, ◌≢◌, Bool, true, false, Text, codes, arith}
use rebalance_webull.Validation.Forms.{Action, start, pause, stop}
use rebalance_webull.Api.Effects.{BotStatus, running, paused, stopped}
use rebalance_webull.Api.BotWrites.{status_for}
use rebalance_webull.Js.{Runtime, Json, to_text}
use rebalance_webull.Validation.Check.{Issue}
use rebalance_webull.Api.Http.{ApiError, fail}
use rebalance_webull.Api.Effects.{responded, json}
use rebalance_webull.Web.Client.{receive}
use rebalance_webull.Web.Client.Contract.{error_json, receive-fail}
use rebalance_webull.Web.Controls.{Control, status_control, is_shown, is_enabled, note_of}

-- The text of a status in the tables.
abbrev pub status_text : BotStatus → Text
status_text running = codes "running"
status_text paused = codes "paused"
status_text stopped = codes "stopped"

-- A button for an action that is shown and enabled is pressed with no other action pending, and
-- asks for a status that the bot does not have.
pub is_enabled-status_for :
    (status : BotStatus) (busy : Bool) (action : Action)
    → is_shown (status_text status) (status_control action) ≡ true
    → is_enabled (status_text status) busy (status_control action) ≡ true
    → (busy ≡ false) × (status_for action ≢ status)
unfolding is_shown is_enabled
is_enabled-status_for running false pause h k = (refl, λ e. cc)
is_enabled-status_for running false stop h k = (refl, λ e. cc)
is_enabled-status_for paused false start h k = (refl, λ e. cc)
is_enabled-status_for paused false stop h k = (refl, λ e. cc)
is_enabled-status_for stopped false start h k = (refl, λ e. cc)
is_enabled-status_for _ _ _ h k = ground arith

-- An error of the application is noted by its message, whichever button was pressed.
pub note_of-fail :
    {N : Type 0} ⦃r : Runtime N⦄ (exception : Text) (control : Control)
    (written : List (Issue N) → Json N) (e : ApiError N)
    → note_of exception control (receive (responded (fail e).status (json (error_json written e))))
      ≡ record { ok = false; text = e.message }
unfolding note_of to_text
note_of-fail exception control written e = ap (note_of exception control) (receive-fail written e)
