-- ===== src/Auth.antt =====
-- Accounts and tokens: server/src/services/auth.service.ts, server/src/middleware/auth.middleware.ts
-- and the handler `me` of server/src/controllers/auth.controller.ts. The packages bcryptjs and
-- jsonwebtoken are the record `Crypto`.
pub mod Laws
use export_vault.Prelude.{
  ℕ, ◌+◌, ◌≤◌, ◌<◌, ◌≡◌, Bool, true, false, not, ◌&&◌, Option, none, some, List, [], ◌∷◌, ◌++◌, leb,
  if◌then◌else◌,
}
use export_vault.Text.{Text, codes, text_eq}
use export_vault.Text.BigInt.{trim}
use export_vault.Model.{User}
use export_vault.Model.Errors.{
  conflict_error, unauthorized_error, plain, foreign, email_taken, bad_credentials, missing_token,
  invalid_token, account_gone,
}
use export_vault.Result.{Result, ok, err}
use export_vault.World.{Env, Db, M, ◌>>=◌, pure, throw, lift, read_clock, fresh_id, query, transact}
use export_vault.Runner.Loop.{p2002}

pub record JwtPayload : Type 0 where
  pub sub : Text
  pub email : Text

-- bcrypt.hash with its salt, bcrypt.compare, and the two functions of jsonwebtoken with the secret
-- of the configuration, at a time; `verify` throws (`none`) on what it does not accept.
pub record Crypto : Type 0 where
  pub hash : (salt password : Text) → ℕ → Text
  pub compare : (password hashed : Text) → Bool
  pub sign : ℕ → JwtPayload → Text
  pub verify : ℕ → Text → Option JwtPayload

abbrev pub bcrypt_rounds : ℕ
bcrypt_rounds = 12

-- toLowerCase; the schema of a request lets no address through that is not ASCII.
abbrev pub lower_char : ℕ → ℕ
lower_char c = if leb b'A' c && leb c b'Z' then c + 32 else c

unfoldable pub to_lower_case : Text → Text
to_lower_case [] = []
to_lower_case (c ∷ s) = lower_char c ∷ to_lower_case s

-- input.email.trim().toLowerCase()
unfoldable pub normalise_email : Text → Text
unfolding to_lower_case trim
normalise_email email = to_lower_case (trim email)

-- findUnique by the address
unfoldable pub find_user : Text → List User → Option User
unfolding text_eq
find_user email [] = none
find_user email (u ∷ us) = if text_eq u.email email then some u else find_user email us

unfoldable pub find_user_by_id : Text → List User → Option User
unfolding text_eq
find_user_by_id id [] = none
find_user_by_id id (u ∷ us) = if text_eq u.id id then some u else find_user_by_id id us

-- prisma.user.create, with the unique index on the address
unfoldable pub create_user : (id name email hashed : Text) → Db → Result User × Db
unfolding find_user
create_user id name email hashed d = elim (find_user email d.users) [
  | some u ↦ (err (plain (foreign p2002)), d)
  | none ↦
      let u : User = record {
        id = id;
        name = name;
        email = email;
        password_hash = hashed;
        created_at = d.now;
        updated_at = d.now;
      } in
      (ok u, record d { users = u ∷ d.users })
]

pub record Login : Type 0 where
  pub token : Text
  pub id : Text
  pub name : Text
  pub email : Text

abbrev pub bearer : Text
bearer = codes "Bearer "

-- header.startsWith(prefix), and what stands behind it
unfoldable pub behind : Text → Text → Option Text
behind [] s = some s
behind (c ∷ p) [] = none
behind (c ∷ p) (d ∷ s) = if text_eq (c ∷ []) (d ∷ []) then behind p s else none

module _ (c : Crypto) where
  unfoldable pub accepted : Option JwtPayload → Result JwtPayload
  accepted none = err (unauthorized_error invalid_token)
  accepted (some payload) = ok payload

  unfoldable pub verify_token : ℕ → Text → Result JwtPayload
  unfolding accepted
  verify_token now token = accepted (c.verify now token)

  unfoldable pub subject : Result JwtPayload → Result Text
  subject (ok payload) = ok payload.sub
  subject (err x) = err x

  unfoldable pub with_token : ℕ → Text → Result Text
  unfolding subject verify_token
  with_token now [] = err (unauthorized_error missing_token)
  with_token now (t ∷ token) = subject (verify_token now (t ∷ token))

  unfoldable pub with_header : ℕ → Option Text → Result Text
  unfolding with_token trim
  with_header now none = err (unauthorized_error missing_token)
  with_header now (some rest) = with_token now (trim rest)

  -- The user id that the middleware puts into the request, or the error that it passes on.
  unfoldable pub require_auth : ℕ → Option Text → Result Text
  unfolding with_header behind
  require_auth now none = err (unauthorized_error missing_token)
  require_auth now (some header) = with_header now (behind bearer header)

  module _ {e : Env} where
    unfoldable pub register_user : (name email password : Text) → M e User
    unfolding create_user normalise_email
    register_user name email password = do
      existing ← query (λ d. find_user (normalise_email email) d.users)
      salt ← fresh_id
      id ← fresh_id
      elim existing [
        | some u ↦ throw (conflict_error email_taken)
        | none ↦ transact (
            create_user id (trim name) (normalise_email email) (c.hash salt password bcrypt_rounds))
      ]

    unfoldable pub check_password : Text → Option User → M e Login
    check_password password none = throw (unauthorized_error bad_credentials)
    check_password password (some u) =
        if not (c.compare password u.password_hash)
        then throw (unauthorized_error bad_credentials)
        else do
          now ← read_clock
          pure (record {
            token = c.sign now (record { sub = u.id; email = u.email });
            id = u.id;
            name = u.name;
            email = u.email;
          })

    unfoldable pub login_user : (email password : Text) → M e Login
    unfolding check_password find_user normalise_email
    login_user email password = do
      user ← query (λ d. find_user (normalise_email email) d.users)
      check_password password user

    found_user : Option User → M e User
    found_user none = throw (unauthorized_error account_gone)
    found_user (some u) = pure u

    unfoldable pub me : Text → M e User
    unfolding found_user find_user_by_id
    me id = do user ← query (λ d. find_user_by_id id d.users); found_user user
