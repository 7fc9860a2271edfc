-- ===== src/Http/Registered.antt =====
-- An account over the routes of server/src/routes/auth.routes.ts: from the body of a registration to
-- the token of a login.
use export_vault.Prelude.{
  ℕ, ◌+◌, ◌≤◌, ◌<◌, ◌≡◌, refl, ap, ◌∙◌, Bool, true, List, Option, none, some, [], ◌∷◌, ◌++◌, arith,
}
use export_vault.Text.{Text, codes}
use export_vault.Text.BigInt.{trim}
use export_vault.Model.{User}
use export_vault.Result.{ok}
use export_vault.World.{Env, Db, World, M, returned, ◌>>=◌, pure, lift}
use export_vault.Auth.{
  register_user, login_user, Crypto, Login, normalise_email, find_user, require_auth, bearer,
}
use export_vault.Auth.Laws.{IsCrypto, registered_user_gets_in}
use export_vault.Config.Checked.{Issue, Checked, valid, invalid, ◌<*>◌, complain}
use export_vault.Http.Middleware.{validate_body}
use export_vault.Http.Accounts.{
  AccountBody, Registration, register_schema, login_schema, post_register, post_login, auth_limited,
  text_field, at_least, name_issues, email_issues, password_issues, an_address,
}

abbrev Applied : {A B : Type 0} → Checked (A → B) → Checked A → B → Type 0
Applied {A} {B} f x b = (g : A → B) × (a : A) × (f ≡ valid g) × (x ≡ valid a) × (g a ≡ b)

apply_valid :
    {A B : Type 0} (f : Checked (A → B)) (x : Checked A) (b : B) → f <*> x ≡ valid b → Applied f x b
apply_valid (valid g) (valid a) b h = (g, a, refl, refl, cc)
apply_valid (valid g) (invalid i is) b h = absurd (cc)
apply_valid (invalid i is) x b h = absurd (cc)

complain_valid :
    {A : Type 0} (a b : A) (is : List Issue) → complain a is ≡ valid b → (is ≡ []) × (a ≡ b)
complain_valid a b [] h = (refl, cc)
complain_valid a b (i ∷ is) h = absurd (cc)

append_empty : {A : Type 0} (xs ys : List A) → xs ++ ys ≡ [] → (xs ≡ []) × (ys ≡ [])
append_empty [] ys h = (refl, h)
append_empty (x ∷ xs) ys h = absurd (cc)

field_valid :
    (path : Text) (prepare : Text → Text) (find : Text → List Issue) (v : Option Text) (t : Text)
    → text_field path prepare find v ≡ valid t
    → (s : Text) × (v ≡ some s) × (find (prepare s) ≡ []) × (prepare s ≡ t)
field_valid path prepare find none t h = absurd (cc)
field_valid path prepare find (some s) t h =
    let (clean, same) = complain_valid (prepare s) t (find (prepare s)) h in (s, refl, clean, same)

long_enough :
    (s : Text) → at_least (codes "password") 10 s ≡ [] → at_least (codes "password") 1 s ≡ []
long_enough s h = ground arith

abbrev make : Text → Text → Text → Registration
make name email password = record { name = name; email = email; password = password }

assembled :
    {A : Type 0} (build k : Text → Text → Text → A) (g : Text → Text → A) (f : Text → A)
    (name email password : Text) (r : A)
    → ◌≡◌ {A = Checked (Text → Text → Text → A)} (valid build) (valid k)
    → k name ≡ g
    → g email ≡ f
    → f password ≡ r
    → build name email password ≡ r
assembled build k g f name email password r same first second third = cc

login_of :
    (is_email : Text → Bool) (b : AccountBody) (s t : Text) (r : Registration)
    → b.email ≡ some s
    → b.password ≡ some t
    → an_address is_email (trim s) ≡ []
    → at_least (codes "password") 1 t ≡ []
    → trim s ≡ r.email
    → t ≡ r.password
    → login_schema is_email b ≡ valid (record { email = r.email; password = r.password })
unfolding login_schema
login_of is_email b s t r there there2 good long same same2 =
    rw (there, there2, good, long, same, same2) refl

-- What a valid registration has is valid for a login.
login_schema-accepts :
    (is_email : Text → Bool) (b : AccountBody) (r : Registration)
    → register_schema is_email b ≡ valid r
    → login_schema is_email b ≡ valid (record { email = r.email; password = r.password })
unfolding register_schema login_schema
login_schema-accepts is_email b r h =
    let named : Checked (Text → Text → Registration) =
      valid make <*> text_field (codes "name") trim name_issues b.name in
    let address : Checked Text = text_field (codes "email") trim (email_issues is_email) b.email in
    let secret : Checked Text = text_field (codes "password") (λ s. s) password_issues b.password in
    let (f, password, read, checked_password, made) = apply_valid (named <*> address) secret r h in
    let (g, email, read2, checked_email, made2) = apply_valid named address f read in
    let (k, name, read3, checked_name, made3) =
      apply_valid (valid make) (text_field (codes "name") trim name_issues b.name) g read2 in
    let (s, there, clean, same) =
      field_valid (codes "email") trim (email_issues is_email) b.email email checked_email in
    let (t, there2, clean2, same2) =
      field_valid (codes "password") (λ s. s) password_issues b.password password
        checked_password in
    let address_ok = (append_empty (an_address is_email (trim s)) _ clean).0 in
    let long = long_enough t (append_empty (at_least (codes "password") 10 t) _ clean2).0 in
    let whole : make name email password ≡ r =
      assembled make k g f name email password r read3 made3 made2 made in
    login_of is_email b s t r there there2 address_ok long (same ∙ ap (λ q. q.email) whole)
      (same2 ∙ ap (λ q. q.password) whole)

-- A registration and a login behind it, with the same body.
abbrev pub post_both :
    (Text → Bool) → Crypto → {e : Env} → (allowed : Bool) → AccountBody → M e (User × Login)
post_both is_email c allowed body = do
  u ← post_register is_email c allowed body
  l ← post_login is_email c allowed body
  pure (u, l)

module _ (is_email : Text → Bool) (c : Crypto) {e : Env} (b : AccountBody) (r : Registration)
    (h : register_schema is_email b ≡ valid r) where
  post_register-valid :
      post_register is_email c {e = e} true b ≡ register_user c r.name r.email r.password
  unfolding post_register auth_limited validate_body lift ◌>>=◌
  post_register-valid = rw h refl

  post_login-valid : post_login is_email c {e = e} true b ≡ login_user c r.email r.password
  unfolding post_login auth_limited validate_body lift ◌>>=◌
  post_login-valid = rw (login_schema-accepts is_email b r h) refl

-- Let the schema of registrations accept a body, as `r`, whose address has no account. Where no call
-- fails and the other processes leave the account with that address alone, a POST to /register and one
-- to /login with the same body, both let through by the rate limiter, return an account and a token
-- that the middleware takes, for the id of that account, from the clock of the login on until the
-- lifetime is over.
pub registered_over_http :
    (is_email : Text → Bool) (c : Crypto) {e : Env} (b : AccountBody) (r : Registration)
    (lifetime : ℕ) (w : World e)
    → ((n : ℕ) → e.fault n ≡ none)
    → ((n : ℕ) (d : Db)
        → find_user (normalise_email r.email) (e.others n d).users
          ≡ find_user (normalise_email r.email) d.users)
    → IsCrypto c lifetime
    → register_schema is_email b ≡ valid r
    → find_user (normalise_email r.email) w.db.users ≡ none
    → (u : User) × (l : Login) × ((post_both is_email c true b w).0 ≡ returned (u, l))
      × ((now : ℕ)
          → (post_both is_email c true b w).1.db.now ≤ now
          → now < (post_both is_email c true b w).1.db.now + lifetime
          → require_auth c now (some (bearer ++ l.token)) ≡ ok u.id)
registered_over_http is_email c {e} b r lifetime w quiet frame crypto h free =
    rw (post_register-valid is_email c {e = e} b r h, post_login-valid is_email c {e = e} b r h)
      (registered_user_gets_in c quiet r.email frame r.name r.password lifetime crypto r.email w
        refl free)
