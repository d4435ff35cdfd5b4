-- ===== src/Api/Auth.antt =====
-- The authentication middleware, supabase/functions/_shared/auth.ts.
use rebalance_webull.Prelude.{
  ℕ, Bool, false, Option, none, some, [], ◌∷◌, Text, codes, trim, text_eq, map, take, drop, leb,
  ◌&&◌, ◌+◌, if◌then◌else◌,
}
use rebalance_webull.Api.Http.{unauthorized, Response, fail}
use rebalance_webull.Api.Effects.{get_user, AuthUser, Program, done, ask, awaited}
use rebalance_webull.Api.Engine.{api_error}

pub record AuthedUser : Type 0 where
  pub id : Text
  pub email : Option Text
  pub token : Text

abbrev ascii_lower : ℕ → ℕ
ascii_lower c = if leb b'A' c && leb c b'Z' then c + 32 else c

-- `header.toLowerCase().startsWith("bearer ")`. No code unit but an ASCII letter has `b`, `e`, `a`
-- or `r` for its lower case, and the prefix of a text is lowered by itself.
unfoldable pub has_bearer : Text → Bool
has_bearer header = text_eq (map ascii_lower (take 7 header)) (codes "bearer ")

-- The token of the header `Authorization`; the empty text if there is none.
unfoldable pub bearer_token : Option Text → Text
unfolding has_bearer
bearer_token none = []
bearer_token (some header) = if has_bearer header then trim (drop 7 header) else []

module _ {N : Type 0} where
  abbrev pub refuse : Text → Program N (Response N)
  refuse message = done (fail (api_error unauthorized message))

  abbrev pub signed_in :
      Text → (AuthedUser → Program N (Response N)) → Bool → Option AuthUser → Program N (Response N)
  signed_in token next false (some user) =
      next (record { id = user.id; email = user.email; token = token })
  signed_in token next _ _ = refuse (codes "invalid or expired session")

  abbrev pub with_token : Text → (AuthedUser → Program N (Response N)) → Program N (Response N)
  with_token [] next = refuse (codes "missing bearer token")
  with_token (c ∷ cs) next =
      ask (get_user (c ∷ cs)) (awaited λ reply. signed_in (c ∷ cs) next reply.failed reply.user)

  -- `requireUser`; `next` is what runs behind it, with the user that `currentUser` returns.
  unfoldable pub require_user :
      Option Text → (AuthedUser → Program N (Response N)) → Program N (Response N)
  unfolding bearer_token fail
  require_user header next = with_token (bearer_token header) next
