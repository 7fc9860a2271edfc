-- ===== src/Auth/Laws.antt =====
-- Who gets in (server/src/services/auth.service.ts, server/src/middleware/auth.middleware.ts).
use export_vault.Prelude.{
  ℕ, ◌+◌, ◌≤◌, ◌<◌, ◌≡◌, ◌≢◌, ◌∙◌, ◌↔◌, refl, ap, Bool, true, false, not, Option, none, some, List,
  [], ◌∷◌, ◌++◌, if◌then◌else◌,
}
use export_vault.Text.{Text, text_eq_iff}
use export_vault.Text.BigInt.{trim}
use export_vault.Model.{User}
use export_vault.Model.Errors.{unauthorized_error, bad_credentials}
use export_vault.Result.{ok}
use export_vault.World.{
  Env, Db, World, M, returned, thrown, arrive, throw, pure, ◌>>=◌, read_clock, query, transact,
}
use export_vault.World.Runs.{
  Runs, Runs-pure, Runs-bind, Runs-known, Runs-given, Runs-query, Runs-transact, Runs-read_clock,
  Runs-fresh_id, Runs-mono,
}
use export_vault.Auth.{
  Crypto, JwtPayload, Login, normalise_email, find_user, create_user, check_password, login_user,
  register_user, require_auth, bearer, bcrypt_rounds, behind, with_token, with_header, subject,
  verify_token, accepted,
}

-- What is relied on of bcryptjs and jsonwebtoken: a password matches its own hash, and a token that
-- was signed is accepted until it expires; it is not empty and has no white space at its ends.
pub record IsCrypto (c : Crypto) (lifetime : ℕ) : Type 0 where
  pub compare-hash :
      (salt password : Text) (rounds : ℕ) → c.compare password (c.hash salt password rounds) ≡ true
  pub verify-sign :
      (signed now : ℕ) (p : JwtPayload)
      → signed ≤ now
      → now < signed + lifetime
      → c.verify now (c.sign signed p) ≡ some p
  pub trimmed : (signed : ℕ) (p : JwtPayload) → trim (c.sign signed p) ≡ c.sign signed p
  pub filled : (signed : ℕ) (p : JwtPayload) → c.sign signed p ≢ []

module _ (c : Crypto) {e : Env} where
  check_password-refused :
      (password : Text) (found : Option User) (w : World e)
      → ((check_password c {e = e} password found w).0
          ≡ thrown (unauthorized_error bad_credentials))
        ↔ ((u : User) → found ≡ some u → c.compare password u.password_hash ≡ false)
  unfolding check_password throw pure ◌>>=◌ read_clock
  check_password-refused password none w = (λ _ u same. cc, λ _. refl)
  check_password-refused password (some u) w = by_match (c.compare password u.password_hash) refl
    where
      refused : Bool → Type 0
      refused b =
          ((if not b
              then throw {A = Login} (unauthorized_error bad_credentials)
              else (read_clock >>= λ now. pure (record {
                token = c.sign now (record { sub = u.id; email = u.email });
                id = u.id;
                name = u.name;
                email = u.email;
              })))
            w).0
          ≡ thrown (unauthorized_error bad_credentials)

      by_match :
          (b : Bool)
          → c.compare password u.password_hash ≡ b
          → refused b ↔ ((v : User) → some u ≡ some v → c.compare password v.password_hash ≡ false)
      by_match true right = (λ r. absurd (cc), λ all. let f = all u refl in absurd (cc))
      by_match false wrong = (λ r v same. cc, λ all. refl)

  -- If the call for the account does not fail, a login is refused with the same 401 and the same
  -- message exactly when there is no account with the address, however it is spelled, or the
  -- password does not match the account's hash; the refusal does not tell which.
  pub login_user-refused :
      (email password : Text) (w : World e)
      → e.fault w.calls ≡ none
      → ((login_user c {e = e} email password w).0 ≡ thrown (unauthorized_error bad_credentials))
        ↔ ((u : User)
            → find_user (normalise_email email) (arrive w).db.users ≡ some u
            → c.compare password u.password_hash ≡ false)
  unfolding login_user ◌>>=◌ query
  login_user-refused email password w quiet = rw quiet (
      check_password-refused password (find_user (normalise_email email) (arrive w).db.users)
        (arrive w))

behind-append : (p s : Text) → behind p (p ++ s) ≡ some s
unfolding behind
behind-append [] s = refl
behind-append (c ∷ p) s = rw ((text_eq_iff (c ∷ []) (c ∷ [])).1 refl) (behind-append p s)

module _ (c : Crypto) where
  with_token_accepted :
      (now : ℕ) (token : Text) (p : JwtPayload)
      → token ≢ []
      → c.verify now token ≡ some p
      → with_token c now token ≡ ok p.sub
  unfolding with_token subject verify_token accepted
  with_token_accepted now [] p some_text valid = absurd (some_text refl)
  with_token_accepted now (t ∷ token) p some_text valid = rw valid refl

  require_auth_accepted :
      (now : ℕ) (token : Text) (p : JwtPayload)
      → token ≢ []
      → trim token ≡ token
      → c.verify now token ≡ some p
      → require_auth c now (some (bearer ++ token)) ≡ ok p.sub
  unfolding require_auth with_header
  require_auth_accepted now token p some_text trimmed valid =
      rw (behind-append bearer token, trimmed) (with_token_accepted now token p some_text valid)

put_first :
    (email : Text) (u : User) (us : List User) → u.email ≡ email → find_user email (u ∷ us) ≡ some u
unfolding find_user
put_first email u us same = rw ((text_eq_iff u.email email).1 same) refl

-- A registration and a login behind it.
abbrev pub register_then_login :
    Crypto → {e : Env} → (name email spelled password : Text) → M e (User × Login)
register_then_login c name email spelled password = do
  u ← register_user c name email password
  l ← login_user c spelled password
  pure (u, l)

module _ (c : Crypto) {e : Env} (quiet : (n : ℕ) → e.fault n ≡ none) (email : Text)
    (frame : (n : ℕ) (d : Db)
      → find_user (normalise_email email) (e.others n d).users
        ≡ find_user (normalise_email email) d.users) where
  -- The account with the address is `found`.
  abbrev Has : Option User → World e → Type 0
  Has found w = find_user (normalise_email email) w.db.users ≡ found

  arrive-Has : (found : Option User) (w : World e) → Has found w → Has found (arrive w)
  arrive-Has found w h = frame w.calls w.db ∙ h

  create_user-Runs :
      (id name hashed : Text)
      → Runs {e = e}
          (Has none)
          (λ u w. (u.password_hash ≡ hashed) × Has (some u) w)
          (transact (create_user id name (normalise_email email) hashed))
  unfolding create_user
  create_user-Runs id name hashed = Runs-transact quiet (Has none) (arrive-Has none) _ _ (λ w h.
      let u : User = record {
        id = id;
        name = name;
        email = normalise_email email;
        password_hash = hashed;
        created_at = w.db.now;
        updated_at = w.db.now;
      } in
      rw (h, create_user) (u, refl, (refl, put_first (normalise_email email) u w.db.users refl)))

  module _ (name password : Text) (lifetime : ℕ) (crypto : IsCrypto c lifetime) where
    register_user-Runs :
        Runs {e = e}
          (Has none)
          (λ u w. (c.compare password u.password_hash ≡ true) × Has (some u) w)
          (register_user c name email password)
    unfolding register_user
    register_user-Runs =
        Runs-known (Has none) none (Has none) _ _ _
          (Runs-query quiet (Has none) (arrive-Has none) _ _ (λ w h. (h, h)))
          (Runs-bind (Has none) (λ _ w. Has none w) _ _ _ (Runs-fresh_id (Has none) _ (λ w h. h))
            (λ salt.
              Runs-bind (Has none) (λ _ w. Has none w) _ _ _ (Runs-fresh_id (Has none) _ (λ w h. h))
                (λ id.
                  Runs-mono (Has none) _ _ _
                    (create_user-Runs id (trim name) (c.hash salt password bcrypt_rounds))
                    (λ u w h. (
                      ap (c.compare password) h.0 ∙ crypto.compare-hash salt password bcrypt_rounds,
                      h.1,
                    )))))

    -- What a login returns carries a token that was signed for the account.
    login_user-Runs :
        (spelled : Text) (u : User)
        → normalise_email spelled ≡ normalise_email email
        → c.compare password u.password_hash ≡ true
        → Runs {e = e}
            (Has (some u))
            (λ l w. l.token ≡ c.sign w.db.now (record { sub = u.id; email = u.email }))
            (login_user c spelled password)
    unfolding login_user check_password
    login_user-Runs spelled u same right =
        Runs-known (Has (some u)) (some u) (Has (some u)) _ _ _
          (Runs-query quiet (Has (some u)) (arrive-Has (some u)) _ _
            (λ w h. (ap (λ k. find_user k w.db.users) same ∙ h, h)))
          (rw right (
            Runs-bind (Has (some u)) (λ t w. t ≡ w.db.now) _ _ _
              (Runs-read_clock (Has (some u)) _ (λ w h. refl))
              (λ t.
                Runs-pure _ _ _
                  (λ w h. ap (λ s. c.sign s (record { sub = u.id; email = u.email })) h))))

    -- Where no call fails and the other processes leave the account with this address alone: whoever
    -- registers with an address that has no account, and then logs in with the same password and
    -- any spelling of the address that normalises alike, gets a token that the middleware takes,
    -- for the id of the new account, from the clock of the login on until the lifetime is over.
    pub registered_user_gets_in :
        (spelled : Text) (w : World e)
        → normalise_email spelled ≡ normalise_email email
        → find_user (normalise_email email) w.db.users ≡ none
        → (u : User) × (l : Login) × ((register_then_login c name email spelled password w).0
            ≡ returned (u, l))
          × ((now : ℕ)
              → (register_then_login c name email spelled password w).1.db.now ≤ now
              → now < (register_then_login c name email spelled password w).1.db.now + lifetime
              → require_auth c now (some (bearer ++ l.token)) ≡ ok u.id)
    registered_user_gets_in spelled w same free =
        let both : Runs {e = e} (Has none)
            (λ p w'. p.1.token ≡ c.sign w'.db.now (record { sub = p.0.id; email = p.0.email }))
            (register_then_login c name email spelled password) =
          Runs-bind (Has none) _ _ _ _ register_user-Runs (λ v.
            Runs-given (Has (some v)) _ _ _ (λ right.
              Runs-bind (Has (some v)) _ _ _ _ (login_user-Runs spelled v same right)
                (λ k. Runs-pure _ _ (v, k) (λ w' h. h)))) in
        let (p, back, signed) = both.at w free in
        let t = (register_then_login c name email spelled password w).1.db.now in
        let payload : JwtPayload = record { sub = p.0.id; email = p.0.email } in
        (
          p.0,
          p.1,
          back,
          λ now late early. rw signed (
              require_auth_accepted c now (c.sign t payload) payload (crypto.filled t payload)
                (crypto.trimmed t payload) (crypto.verify-sign t now payload late early)),
        )
