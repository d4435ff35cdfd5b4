-- ===== src/Tests/Client.antt =====
-- Users, pages and calls of the web client, on which its theorems apply.
use rebalance_webull.Prelude.{
  ◌≡◌, refl, Bool, true, false, none, some, List, [], ◌∷◌, Text, codes, trim, text_eq, ◌&&◌,
}
use rebalance_webull.Js.{null, str}
use rebalance_webull.Api.Http.{conflict, ApiError, fail}
use rebalance_webull.Api.Effects.{responded, json}
use rebalance_webull.Web.Session.{
  Url, Cookie, passed, redirected, is_public, update_session, signed_in_to, sign_in, get_param,
  hidden_next,
}
use rebalance_webull.Web.Session.Redirects.{sign_in-update_session}
use rebalance_webull.Web.Client.{ClientCall, orders, path_of, method_of, rejected, receive}
use rebalance_webull.Web.Client.Contract.{
  IsRegistered, target_of, path_text, path_of-IsRegistered, code_text, error_json, written_details,
  receive-fail,
}
use rebalance_webull.Tests.Numbers.{Sample, sample_runtime}

abbrev password_table : Text → Text → Bool
password_table email password =
    text_eq email (codes "u1@example.com") && text_eq password (codes "hunter2")

abbrev bots_url : Url
bots_url = record { pathname = codes "/bots/b1"; search = (codes "tab", codes "runs") ∷ [] }

abbrev rotated : List Cookie
rotated = record { name = codes "sb-rebalance-auth-token"; value = codes "t2" } ∷ []

bots_url_passed : update_session (rotated ∷ []) true bots_url ≡ passed rotated
unfolding update_session
bots_url_passed = refl

elsewhere_replaced :
    sign_in password_table
      (some (codes " u1@example.com"))
      (some (codes "hunter2"))
      (some (codes "//example.org"))
    ≡ signed_in_to (codes "/dashboard")
unfolding sign_in trim
elsewhere_replaced = refl

bots_url_is_private : is_public (codes "/bots/b1") ≡ false
unfolding is_public
bots_url_is_private = refl

address_is_trimmed : trim (codes "u1@example.com") ≡ codes "u1@example.com"
unfolding trim
address_is_trimmed = refl

sign_in-update_session_example :
    (login : Url) × (update_session (rotated ∷ []) false bots_url ≡ redirected login)
    × (login.pathname ≡ codes "/login")
    × (sign_in password_table
          (some (codes "u1@example.com"))
          (some (codes "hunter2"))
          (get_param (codes "next") login.search)
        ≡ signed_in_to (codes "/bots/b1"))
    × (sign_in password_table
          (some (codes "u1@example.com"))
          (some (codes "hunter2"))
          (some (hidden_next login.search))
        ≡ signed_in_to (codes "/bots/b1"))
sign_in-update_session_example =
    sign_in-update_session password_table (codes "u1@example.com") (codes "hunter2") (rotated ∷ [])
      bots_url bots_url_is_private refl address_is_trimmed refl refl refl

abbrev orders_call : ClientCall Sample
orders_call = orders (codes "b1")

path_of-IsRegistered_example :
    IsRegistered (method_of orders_call) (target_of orders_call).0 (target_of orders_call).1
    × (path_of orders_call ≡ path_text (target_of orders_call).2 (target_of orders_call).0)
path_of-IsRegistered_example = path_of-IsRegistered orders_call

abbrev pub busy_bot : ApiError Sample
busy_bot = record {
  code = conflict;
  message = codes "pause the bot before changing its configuration";
  details = none;
}

receive-fail_example :
    receive (responded (fail busy_bot).status (json (error_json (λ issues. null) busy_bot)))
    ≡ rejected (record {
      code = str (code_text busy_bot.code);
      message = str busy_bot.message;
      details = written_details (λ issues. null) busy_bot.details;
    })
receive-fail_example = receive-fail (λ issues. null) busy_bot
