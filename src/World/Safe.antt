-- ===== src/World/Safe.antt =====
-- The rules of World/Keeps where nothing is asked of what an action returns, for `search`.
use export_vault.Prelude.{ℕ, Bool, if◌then◌else◌}
use export_vault.Model.Errors.{AppError}
use export_vault.Result.{Result}
use export_vault.World.{
  read_clock, fresh_id, Env, Db, M, pure, throw, exit, ◌>>=◌, try_catch, lift, query, on_store,
  read_store, on_jobs_queue, transact,
}
use export_vault.World.Keeps.{
  Keeps, Keeps-pure, Keeps-throw, Keeps-exit, Keeps-lift, Keeps-if, Keeps-bind, Keeps-try_catch,
  Keeps-query, Keeps-on_store, Keeps-read_store, Keeps-on_jobs_queue, Keeps-transact, After-Unit,
}

abbrev pub Safe : {e : Env} → (Db → Type 0) → {A : Type 0} → M e A → Type 0
Safe I m = Keeps I (λ _. Unit) m

module _ {e : Env} (I : Db → Type 0) where
  pub Safe-pure : {A : Type 0} (a : A) → Safe {e = e} I (pure a)
  Safe-pure a = Keeps-pure I (λ _. Unit) a tt

  pub Safe-throw : {A : Type 0} (x : AppError) → Safe {e = e} I (throw {A = A} x)
  Safe-throw x = Keeps-throw I (λ _. Unit) x

  pub Safe-exit : {A : Type 0} → Safe {e = e} I (exit {A = A})
  Safe-exit = Keeps-exit I (λ _. Unit)

  pub Safe-lift : {A : Type 0} (r : Result A) → Safe {e = e} I (lift r)
  Safe-lift r = Keeps-lift I (λ _. Unit) r (λ a h. tt)

  pub Safe-if :
      {A : Type 0} (b : Bool) (m n : M e A) → Safe I m → Safe I n → Safe I (if b then m else n)
  Safe-if b m n km kn = Keeps-if I (λ _. Unit) b m n (λ h. km) (λ h. kn)

  pub Safe-bind :
      {A B : Type 0} (m : M e A) (f : A → M e B)
      → Safe I m
      → ((a : A) → Safe I (f a))
      → Safe I (m >>= f)
  Safe-bind m f km kf = Keeps-bind I (λ _. Unit) (λ _. Unit) m f km (λ a h. kf a)

  pub Safe-try_catch :
      {A : Type 0} (m : M e A) (h : AppError → M e A)
      → Safe I m
      → ((x : AppError) → Safe I (h x))
      → Safe I (try_catch m h)
  Safe-try_catch m h = Keeps-try_catch I (λ _. Unit) m h

  pub Safe-read_clock : Safe {e = e} I read_clock
  unfolding read_clock
  Safe-read_clock = record { at = λ w i. (i, tt) }

  pub Safe-fresh_id : Safe {e = e} I fresh_id
  unfolding fresh_id
  Safe-fresh_id = record { at = λ w i. (i, tt) }

pub ruleset safe_rules =
    (Safe-pure, Safe-throw, Safe-exit, Safe-lift, Safe-if, Safe-bind, Safe-try_catch)

module _ {e : Env} (I : Db → Type 0) (rely : (n : ℕ) (d : Db) → I d → I (e.others n d)) where
  pub Safe-query : {A : Type 0} (f : Db → A) → Safe {e = e} I (query f)
  Safe-query f = Keeps-query I rely (λ _. Unit) f (λ d i. tt)

  pub Safe-on_store :
      (op : e.Objects → Result (Unit {0}) × e.Objects) → Safe {e = e} I (on_store op)
  Safe-on_store op = Keeps-on_store I rely op

  pub Safe-read_store : {A : Type 0} (f : e.Objects → Result A) → Safe {e = e} I (read_store f)
  Safe-read_store f = Keeps-read_store I rely (λ _. Unit) f (λ o a h. tt)

  pub Safe-on_jobs_queue :
      {A : Type 0} (op : e.Queue → Result A × e.Queue) → Safe {e = e} I (on_jobs_queue op)
  Safe-on_jobs_queue op = Keeps-on_jobs_queue I rely op

  pub Safe-transact :
      {A : Type 0} (op : Db → Result A × Db)
      → ((d : Db) → I d → I (op d).1)
      → Safe {e = e} I (transact op)
  Safe-transact op h = Keeps-transact I rely (λ _. Unit) op (λ d i. (h d i, After-Unit _))
