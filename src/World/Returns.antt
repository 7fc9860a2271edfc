-- ===== src/World/Returns.antt =====
-- What it takes for an action to return: inversion of binds and of queries.
use export_vault.Prelude.{◌≡◌, refl, Option, none, some}
use export_vault.Result.{Result, ok, err}
use export_vault.World.{
  Env, Db, World, M, Fault, refused, reply_lost, death, Out, returned, thrown, died, ◌>>=◌, query,
  call, attempt, arrive, on_db, continue, lift, pure,
}

module _ {e : Env} {A B : Type 0} where
  continue-returned :
      (o : Out A) (f : A → M e B) (w w' : World e) (b : B)
      → continue o f w ≡ (returned b, w')
      → (a : A) × (o ≡ returned a) × (f a w ≡ (returned b, w'))
  continue-returned (returned a) f w w' b h = (a, refl, h)
  continue-returned (thrown x) f w w' b h = absurd (cc)
  continue-returned died f w w' b h = absurd (cc)

  -- A bind that returns has gone through both of its parts.
  pub bind-returned :
      (m : M e A) (f : A → M e B) (w w' : World e) (b : B)
      → (m >>= f) w ≡ (returned b, w')
      → (a : A) × ((m w).0 ≡ returned a) × (f a (m w).1 ≡ (returned b, w'))
  unfolding ◌>>=◌
  bind-returned m f w w' b h = continue-returned (m w).0 f (m w).1 w' b h

module _ {e : Env} {A : Type 0} where
  attempt-query :
      (fault : Option Fault) (f : Db → A) (w : World e) (a : A)
      → (attempt fault (on_db (λ d. (ok (f d), d))) w).0 ≡ returned a
      → (a ≡ f w.db) × ((attempt fault (on_db (λ d. (ok (f d), d))) w).1 ≡ w)
  attempt-query none f w a h = (cc, refl)
  attempt-query (some (refused n)) f w a h = cc
  attempt-query (some (reply_lost n)) f w a h = cc
  attempt-query (some death) f w a h = cc

  -- A query that returns gives what the tables hold when it arrives.
  pub query-returned :
      (f : Db → A) (w : World e) (a : A)
      → (query f w).0 ≡ returned a
      → (a ≡ f (arrive w).db) × ((query f w).1 ≡ arrive w)
  unfolding query call
  query-returned f w a h = attempt-query (e.fault w.calls) f (arrive w) a h

  pub lift-returned :
      (r : Result A) (w : World e) (a : A)
      → (lift r w).0 ≡ returned a
      → (r ≡ ok a) × ((lift r w).1 ≡ w)
  unfolding lift
  lift-returned (ok b) w a h = (cc, refl)
  lift-returned (err x) w a h = absurd (cc)

  pub pure-returned :
      (b : A) (w w' : World e) (a : A) → pure b w ≡ (returned a, w') → (b ≡ a) × (w ≡ w')
  unfolding pure
  pure-returned b w w' a h = (cc, cc)
