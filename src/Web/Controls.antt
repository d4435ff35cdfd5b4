-- ===== src/Web/Controls.antt =====
-- The buttons of a bot, web/components/bot-controls.tsx: which are shown and may be pressed, the
-- request that each one sends, and the note that its outcome leaves. The rendering and the pending
-- state are React's; whether an action is pending is an argument.
pub mod Offered
use rebalance_webull.Prelude.{
  Bool, true, false, ◌&&◌, not, Option, none, some, List, [], ◌∷◌, Text, text_eq, codes, ◌++◌,
  if◌then◌else◌,
}
use rebalance_webull.Js.{Json, null, boolean, num, str, get, Runtime, to_text}
use rebalance_webull.Validation.Forms.{Action, start, pause, stop}
use rebalance_webull.Web.Client.{
  ClientCall, set_status, rebalance_now, Settled, resolved, rejected, crashed,
}

pub data Control : Type 0 where
  status_control : Action → Control
  rebalance_control : Control

-- The conditions of the buttons.
unfoldable pub is_shown : Text → Control → Bool
is_shown status (status_control start) = not (text_eq status (codes "running"))
is_shown status (status_control pause) = text_eq status (codes "running")
is_shown status (status_control stop) = true
is_shown status rebalance_control = true

-- `disabled`, negated.
unfoldable pub is_enabled : Text → Bool → Control → Bool
is_enabled status busy (status_control stop) = not busy && not (text_eq status (codes "stopped"))
is_enabled status busy control = not busy

-- The call that a button makes.
unfoldable pub call_of : {N : Type 0} → Text → Control → ClientCall N
call_of bot_id (status_control action) = set_status bot_id action
call_of bot_id rebalance_control = rebalance_now bot_id

pub record Note : Type 0 where
  pub ok : Bool
  pub text : Text

abbrev done_text : Action → Text
done_text start = codes "Bot started."
done_text pause = codes "Bot paused."
done_text stop = codes "Bot stopped."

abbrev framed : Text → Text → Option Text → Option Text
framed before after none = none
framed before after (some t) = some (before ++ (t ++ after))

abbrev good_or_bad : Text → Option Text → Note
good_or_bad exception none = record { ok = false; text = exception }
good_or_bad exception (some t) = record { ok = true; text = t }

abbrev pub message_or : Text → Option Text → Text
message_or exception none = exception
message_or exception (some t) = t

module _ {N : Type 0} ⦃r : Runtime N⦄ where
  -- A value as a condition; `none` is `undefined`.
  unfoldable pub truthy : Option (Json N) → Bool
  truthy none = false
  truthy (some null) = false
  truthy (some (boolean b)) = b
  truthy (some (num n)) = r.same n n && not (r.same n (r.of_ℕ 0))
  truthy (some (str [])) = false
  truthy (some v) = true

  -- A value in a template; `none` of the result is an exception.
  unfoldable pub template_text : Option (Json N) → Option Text
  template_text none = some (codes "undefined")
  template_text (some v) = to_text v

  -- What `rebalance` makes of the result, of which null has no fields.
  unfoldable pub rebalance_text : Json N → Option Text
  unfolding truthy template_text
  rebalance_text null = none
  rebalance_text result =
      if truthy (get result "executed")
      then framed (codes "Rebalanced: ") (codes " order(s) submitted.")
          (template_text (get result "submitted_orders"))
      else framed (codes "No trade: ") [] (template_text (get result "reason"))

  -- What a button makes of the payload of its call.
  unfoldable pub done_with : Control → Json N → Option Text
  unfolding rebalance_text
  done_with (status_control action) payload = some (done_text action)
  done_with rebalance_control payload = rebalance_text payload

  -- The note that `act` leaves, by the message of an exception other than an `ApiError`.
  unfoldable pub note_of : Text → Control → Settled N → Note
  unfolding done_with
  note_of exception control (resolved payload) = good_or_bad exception (done_with control payload)
  note_of exception control (rejected e) = record {
    ok = false;
    text = message_or exception (to_text e.message);
  }
  note_of exception control crashed = record { ok = false; text = exception }
