-- ===== src/Web/Connection/Secrets.antt =====
-- What an action of web/components/connection-manager.tsx leaves of the credentials in its fields.
use rebalance_webull.Prelude.{
  ◌≡◌, ◌⊎◌, inl, inr, refl, ap, if◌then◌else◌, Bool, true, false, some, List, [], Text, Bool-cases,
}
use rebalance_webull.Js.{Runtime, Json, null, str, get, to_text}
use rebalance_webull.Validation.Check.{Issue}
use rebalance_webull.Api.Http.{ApiError, fail}
use rebalance_webull.Api.Effects.{responded, json}
use rebalance_webull.Web.Client.{Settled, resolved, rejected, crashed, receive}
use rebalance_webull.Web.Client.Contract.{error_json, receive-fail}
use rebalance_webull.Web.Controls.{truthy}
use rebalance_webull.Web.Connection.{
  Notice, ManagerState, Ran, Task, saving, verifying, disconnecting, ran, reread, after_result,
}

-- The call that saves credentials resolved. Where it did not, they may have been stored all the same.
abbrev pub is_saved : {N : Type 0} → Task → Settled N → Bool
is_saved saving (resolved payload) = true
is_saved task outcome = false

module _ {N : Type 0} ⦃r : Runtime N⦄ where
  -- The page shows the connection that it last read, and is refreshed, or shows a bad message.
  abbrev pub IsSettled : ManagerState N → Settled N → Ran N → Type 0
  IsSettled s second after =
      ((c : Json N) × (second ≡ resolved c)
        × (after.state.connection ≡ c)
        × (after.refreshed ≡ true))
      ⊎ ((m : Notice N) × (after.state.message ≡ some m)
          × (m.ok ≡ false)
          × (after.state.connection ≡ s.connection)
          × (after.refreshed ≡ false))

  reread-IsSettled :
      (exception : Text) (second : Settled N) (s : ManagerState N)
      → IsSettled s second (reread exception second s)
        × ((reread exception second s).state.api_key ≡ s.api_key)
        × ((reread exception second s).state.api_secret ≡ s.api_secret)
  unfolding reread
  reread-IsSettled exception (resolved c) s = (inl (c, refl, refl, refl), refl, refl)
  reread-IsSettled exception (rejected e) s = (inr (_, refl, refl, refl, refl), refl, refl)
  reread-IsSettled exception crashed s = (inr (_, refl, refl, refl, refl), refl, refl)

  after_result-IsSettled :
      (exception done : Text) (result : Json N) (second : Settled N) (s : ManagerState N)
      → IsSettled s second (after_result exception done result second s)
        × ((after_result exception done result second s).state.api_key ≡ s.api_key)
        × ((after_result exception done result second s).state.api_secret ≡ s.api_secret)
  unfolding after_result
  after_result-IsSettled exception done null second s =
      (inr (_, refl, refl, refl, refl), refl, refl)
  after_result-IsSettled exception done result second s =
      elim (Bool-cases (truthy (get result "error"))) [
        | inl h ↦ rw h (reread-IsSettled exception second _)
        | inr h ↦ rw h (reread-IsSettled exception second _)
      ]

  -- After an action of the page the fields of the key and the secret are empty if the call that
  -- saves them resolved, and as they were in every other case. The page shows the connection that it
  -- read last and is refreshed, or it shows the connection it had, a message that is not "ok", and is
  -- not refreshed.
  pub ran-IsSettled :
      (exception : Text) (task : Task) (first second : Settled N) (s : ManagerState N)
      → IsSettled s second (ran exception task first second s)
        × ((ran exception task first second s).state.api_key
            ≡ (if is_saved task first then [] else s.api_key))
        × ((ran exception task first second s).state.api_secret
            ≡ (if is_saved task first then [] else s.api_secret))
  unfolding ran
  ran-IsSettled exception saving (resolved payload) second s =
      after_result-IsSettled exception _ payload second _
  ran-IsSettled exception verifying (resolved payload) second s =
      after_result-IsSettled exception _ payload second _
  ran-IsSettled exception disconnecting (resolved payload) second s =
      reread-IsSettled exception second _
  ran-IsSettled exception saving _ second s = (inr (_, refl, refl, refl, refl), refl, refl)
  ran-IsSettled exception verifying _ second s = (inr (_, refl, refl, refl, refl), refl, refl)
  ran-IsSettled exception disconnecting _ second s = (inr (_, refl, refl, refl, refl), refl, refl)

  -- If the application answers the first call of an action with an error, the page keeps its
  -- connection, key and secret, and shows the message of the error as one that is not "ok".
  pub ran-fail :
      (exception : Text) (task : Task) (second : Settled N) (s : ManagerState N)
      (written : List (Issue N) → Json N) (e : ApiError N)
      → ran exception task
          (receive (responded (fail e).status (json (error_json written e))))
          second
          s
        ≡ record {
          state = record s { message = some (record { ok = false; text = str e.message }) };
          refreshed = false;
        }
  unfolding ran to_text
  ran-fail exception saving second s written e =
      ap (λ first. ran exception saving first second s) (receive-fail written e)
  ran-fail exception verifying second s written e =
      ap (λ first. ran exception verifying first second s) (receive-fail written e)
  ran-fail exception disconnecting second s written e =
      ap (λ first. ran exception disconnecting first second s) (receive-fail written e)
