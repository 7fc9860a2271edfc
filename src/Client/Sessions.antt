-- ===== src/Client/Sessions.antt =====
-- The session of the web client (client/src/contexts/AuthContext.tsx) and the check of tokens
-- (server/src/middleware/auth.middleware.ts).
use export_vault.Prelude.{
  ℕ, ◌≡◌, true, false, refl, Bool-cases, inl, inr, ◌==◌, if◌then◌else◌, Option, none, some, [], ◌∷◌,
  ◌++◌, arith,
}
use export_vault.Text.{Text, codes}
use export_vault.Result.{ok, err}
use export_vault.Model.Errors.{unauthorized_error, missing_token}
use export_vault.Auth.{Crypto, require_auth, bearer}
use export_vault.Client.Api.{
  unreachable, Options, Browser, Payloads, Sent, Reply, answered, done, get_token, set_token,
  clear_token, authorization_of, request_of, get_request, api_request, is_ok, received, parsed,
  judged,
}
use export_vault.Client.Session.{
  authenticated, anonymous, Session, opened, restore, restore_with, checked, found_user, user_in,
  login, logout, logged_in, signed_in, stored, token_in, auth_request,
}

-- Either the API has accepted the token that requests carry, with an answer of status 2xx to the
-- client's request for the account, or nobody is signed in and requests carry no token.
pub data IsSettled {Account : Type 0} (network : Sent → Reply) (b : Browser) (s : Session Account)
    : Type 0 where
  in_session :
      (t text : Text) (code : ℕ)
      → s.status ≡ authenticated
      → authorization_of (get_token s.browser) ≡ some t
      → (request_of (codes "/api/auth/me") get_request b).authorization ≡ some t
      → network (request_of (codes "/api/auth/me") get_request b) ≡ answered code text
      → is_ok code ≡ true
      → IsSettled network b s
  out_of_session :
      s.status ≡ anonymous
      → s.user ≡ none
      → authorization_of (get_token s.browser) ≡ none
      → IsSettled network b s

module _ (p : Payloads) (network : Sent → Reply) where
  out : (s : Session p.Account) (b : Browser) → IsSettled network b (logout p network s)
  unfolding logout clear_token get_token authorization_of
  out s b = out_of_session refl refl (ground arith)

  module _ (b : Browser) (c : ℕ) (token : Text) (held : get_token b ≡ some (c ∷ token)) where
    abbrev first : Session p.Account
    first = opened p network b

    abbrev me_request : Sent
    me_request = request_of (codes "/api/auth/me") get_request b

    found_user-IsSettled :
        (code : ℕ) (text : Text) (user : Option (Option p.Account))
        → network me_request ≡ answered code text
        → is_ok code ≡ true
        → IsSettled network b (found_user p network first user)
    unfolding found_user request_of authorization_of
    found_user-IsSettled code text none reply good = out first b
    found_user-IsSettled code text (some u) reply good =
        in_session (bearer ++ c ∷ token) text code refl (rw held refl) (rw held refl) reply good

    judged-IsSettled :
        (code : ℕ) (text : Text) (payload : Option p.Payload)
        → network me_request ≡ answered code text
        → IsSettled network b (checked p network first (judged p code payload b))
    unfolding checked judged
    judged-IsSettled code text payload reply = elim (Bool-cases (is_ok code)) [
      | inl good ↦ rw good (found_user-IsSettled code text (user_in p network payload) reply good)
      | inr bad ↦
          rw bad (out (record first { browser = if code == 401 then clear_token b else b }) b)
    ]

    parsed-IsSettled :
        (code : ℕ) (text : Text) (payload : Option p.Payload)
        → network me_request ≡ answered code text
        → IsSettled network b (checked p network first (parsed p code payload b))
    unfolding checked parsed
    parsed-IsSettled code text none reply = out first b
    parsed-IsSettled code text (some x) reply = judged-IsSettled code text (some x) reply

    received-IsSettled :
        (reply : Reply)
        → network me_request ≡ reply
        → IsSettled network b (checked p network first (received p reply b))
    unfolding checked received
    received-IsSettled unreachable same = out first b
    received-IsSettled (answered code []) same = judged-IsSettled code [] none same
    received-IsSettled (answered code (k ∷ text)) same =
        parsed-IsSettled code (k ∷ text) (p.parse (k ∷ text)) same

  restore_with-IsSettled :
      (b : Browser) (held : Option Text)
      → get_token b ≡ held
      → IsSettled network b (restore_with p network (opened p network b) held)
  unfolding restore_with authorization_of api_request
  restore_with-IsSettled b none same = out_of_session refl refl (rw same refl)
  restore_with-IsSettled b (some []) same = out_of_session refl refl (rw same refl)
  restore_with-IsSettled b (some (c ∷ token)) same = received-IsSettled b c token same _ refl

  -- Whatever the storage holds and whatever becomes of the request: once the session has been restored
  -- it is authenticated, with a token that requests carry and the API has accepted by a status 2xx, or
  -- it is anonymous, without a user and without a token that requests carry.
  pub restore-IsSettled :
      (b : Browser) → IsSettled network b (restore p network (opened p network b))
  unfolding restore
  restore-IsSettled b = restore_with-IsSettled b (get_token b) refl

  -- Let a login be answered with a token that the middleware takes for the account `id` at the time
  -- `now`, in a browser whose storage does not throw. Then the login succeeds, each request of the
  -- client that is to carry a token is let in by the middleware as that account, and behind a logout
  -- each is refused for want of a token.
  pub login_lets_in :
      (c : Crypto) (now : ℕ) (id credentials path text : Text) (k h : ℕ) (token : Text) (status : ℕ)
      (o : Options) (x : p.Payload) (s : Session p.Account)
      → o.auth ≡ true
      → s.browser.blocked ≡ false
      → network (request_of (codes "/api/auth/login") (auth_request credentials) s.browser)
        ≡ answered status (k ∷ text)
      → is_ok status ≡ true
      → p.parse (k ∷ text) ≡ some x
      → p.token_of x ≡ some (h ∷ token)
      → require_auth c now (some (bearer ++ h ∷ token)) ≡ ok id
      → ((login p network credentials s).0 ≡ done tt)
        × (require_auth c now
              (request_of path o (login p network credentials s).1.browser).authorization
            ≡ ok id)
        × (require_auth c now
              (request_of path o
                (logout p network (login p network credentials s).1).browser).authorization
            ≡ err (unauthorized_error missing_token))
  unfolding login logged_in signed_in stored token_in user_in set_token logout clear_token get_token
      authorization_of request_of api_request received parsed judged require_auth
  login_lets_in c now id credentials path text k h token status o x s auth blocked reply good reads
        found accepted =
      ground arith
