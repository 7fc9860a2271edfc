-- ===== src/Client/Session.antt =====
-- client/src/contexts/AuthContext.tsx and client/src/api/auth.ts: the session of the web client.
use export_vault.Prelude.{true, false, Option, none, some, [], ◌∷◌}
use export_vault.Text.{Text, codes}
use export_vault.Client.Api.{
  Browser, Payloads, Sent, Reply, Outcome, done, failed, ApiError, Options, no_such_field,
  get_token, set_token, clear_token, api_request, get_request,
}

pub data SessionStatus : Type 0 where
  loading authenticated anonymous : SessionStatus

pub record Session (Account : Type 0) : Type 0 where
  pub user : Option Account
  pub status : SessionStatus
  pub browser : Browser

-- register and login of api/auth.ts
abbrev pub auth_request : Text → Options
auth_request body = record { is_post = true; body = some body; auth = false }

abbrev pub no_field : ApiError
no_field = record {
  message = no_such_field;
  status = 0;
  code = [];
  request_id = none;
  details = none;
}

module _ (p : Payloads) (network : Sent → Reply) where
  open p use {Payload, Account, user_of, token_of}

  abbrev S : Type 0
  S = Session Account

  -- Before the first render.
  abbrev pub opened : Browser → S
  opened b = record { user = none; status = loading; browser = b }

  unfoldable pub logout : S → S
  unfolding clear_token
  logout s = record { user = none; status = anonymous; browser = clear_token s.browser }

  -- Reading `result.user`; `none` is that it throws.
  unfoldable pub user_in : Option Payload → Option (Option Account)
  user_in none = none
  user_in (some x) = user_of x

  -- The `try` of `restore`: a failure of any kind, and an answer that is null, clear the token; an
  -- answer without a user does not.
  unfoldable pub found_user : S → Option (Option Account) → S
  unfolding logout
  found_user s none = logout s
  found_user s (some u) = record s { user = u; status = authenticated }

  unfoldable pub checked : S → Outcome (Option Payload) × Browser → S
  unfolding found_user user_in
  checked s (done payload, b) = found_user (record s { browser = b }) (user_in payload)
  checked s (failed x, b) = logout (record s { browser = b })

  unfoldable pub restore_with : S → Option Text → S
  unfolding checked
  restore_with s none = record s { status = anonymous }
  restore_with s (some []) = record s { status = anonymous }
  restore_with s (some (c ∷ t)) =
      checked s (api_request p network (codes "/api/auth/me") get_request s.browser)

  -- The effect at the first render, of a component that stays mounted.
  unfoldable pub restore : S → S
  unfolding restore_with get_token
  restore s = restore_with s (get_token s.browser)

  unfoldable pub stored : S → Option Account → Outcome Browser → Outcome (Unit {0}) × S
  stored s user (done b) = (done tt, record { user = user; status = authenticated; browser = b })
  stored s user (failed x) = (failed x, s)

  user_or_missing : Option (Option Account) → Option Account
  user_or_missing none = none
  user_or_missing (some u) = u

  -- `result.token` of no payload throws; the user is whatever the payload says.
  unfoldable pub signed_in : S → Option Payload → Option Text → Outcome (Unit {0}) × S
  unfolding stored set_token user_in user_or_missing
  signed_in s payload none = (failed no_field, s)
  signed_in s payload (some token) =
      stored s (user_or_missing (user_in payload)) (set_token token s.browser)

  unfoldable pub token_in : Option Payload → Option Text
  token_in none = none
  token_in (some x) = token_of x

  unfoldable pub logged_in : S → Outcome (Option Payload) × Browser → Outcome (Unit {0}) × S
  unfolding signed_in token_in
  logged_in s (done payload, b) = signed_in (record s { browser = b }) payload (token_in payload)
  logged_in s (failed x, b) = (failed x, record s { browser = b })

  -- `credentials` is the body that JSON.stringify gives.
  unfoldable pub login : (credentials : Text) → S → Outcome (Unit {0}) × S
  unfolding logged_in
  login credentials s =
      logged_in s
        (api_request p network (codes "/api/auth/login") (auth_request credentials) s.browser)

  unfoldable pub registered : Text → S → Outcome (Option Payload) × Browser → Outcome (Unit {0}) × S
  unfolding login
  registered credentials s (done payload, b) = login credentials (record s { browser = b })
  registered credentials s (failed x, b) = (failed x, record s { browser = b })

  unfoldable pub register : (details credentials : Text) → S → Outcome (Unit {0}) × S
  unfolding registered
  register details credentials s =
      registered credentials s
        (api_request p network (codes "/api/auth/register") (auth_request details) s.browser)
