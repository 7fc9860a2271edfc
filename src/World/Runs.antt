-- ===== src/World/Runs.antt =====
-- What an action does where no call fails and the other processes keep a predicate: it returns.
use export_vault.Prelude.{ℕ, ◌≡◌, refl, none, Bool, false, if◌then◌else◌}
use export_vault.Text.{Text}
use export_vault.Result.{Result, ok}
use export_vault.World.{
  Env, Db, World, M, returned, pure, ◌>>=◌, lift, try_catch, read_clock, fresh_id, call, arrive,
  on_db, on_objects, transact, query, on_store, read_store,
}

-- From every world that satisfies `P` the action returns, with a value and a world that satisfy `Q`.
pub record Runs {e : Env} {A : Type 0} (P : World e → Type 0) (Q : A → World e → Type 0) (m : M e A)
    : Type 0 where
  pub at : (w : World e) → P w → (a : A) × ((m w).0 ≡ returned a) × Q a (m w).1

module _ {e : Env} (P : World e → Type 0) where
  pub Runs-pure :
      {A : Type 0} (Q : A → World e → Type 0) (a : A)
      → ((w : World e) → P w → Q a w)
      → Runs P Q (pure a)
  unfolding pure
  Runs-pure Q a h = record { at = λ w p. (a, refl, h w p) }

  pub Runs-lift :
      {A : Type 0} (Q : A → World e → Type 0) (r : Result A) (a : A)
      → r ≡ ok a
      → ((w : World e) → P w → Q a w)
      → Runs P Q (lift r)
  unfolding lift
  Runs-lift Q r a same h = record { at = λ w p. (a, rw same refl, h w p) }

  pub Runs-read_clock :
      (Q : ℕ → World e → Type 0) → ((w : World e) → P w → Q w.db.now w) → Runs P Q read_clock
  unfolding read_clock
  Runs-read_clock Q h = record { at = λ w p. (w.db.now, refl, h w p) }

  pub Runs-fresh_id :
      (Q : Text → World e → Type 0)
      → ((w : World e) → P w → Q (e.new_uuid w.calls) w)
      → Runs P Q fresh_id
  unfolding fresh_id
  Runs-fresh_id Q h = record { at = λ w p. (e.new_uuid w.calls, refl, h w p) }

  pub Runs-mono :
      {A : Type 0} (Q R : A → World e → Type 0) (m : M e A)
      → Runs P Q m
      → ((a : A) (w : World e) → Q a w → R a w)
      → Runs P R m
  Runs-mono Q R m r h = record {
    at = λ w p. let (a, back, q) = r.at w p in (a, back, h a (m w).1 q);
  }

  pub Runs-bind :
      {A B : Type 0} (Q : A → World e → Type 0) (R : B → World e → Type 0) (m : M e A)
      (f : A → M e B)
      → Runs P Q m
      → ((a : A) → Runs (Q a) R (f a))
      → Runs P R (m >>= f)
  unfolding ◌>>=◌
  Runs-bind Q R m f rm rf = record {
    at = λ w p.
        let (a, back, q) = rm.at w p in
        let (b, back', r) = (rf a).at (m w).1 q in (b, rw back back', rw back r);
  }

  pub Runs-else :
      {A : Type 0} (Q : A → World e → Type 0) (b : Bool) (m n : M e A)
      → b ≡ false
      → Runs P Q n
      → Runs P Q (if b then m else n)
  Runs-else Q b m n off r = rw off r

  -- A fact about no world is known from the start.
  pub Runs-given :
      {A : Type 0} (S : Type 0) (Q : A → World e → Type 0) (m : M e A)
      → (S → Runs P Q m)
      → Runs (λ w. S × P w) Q m
  Runs-given S Q m h = record { at = λ w both. (h both.0).at w both.1 }

  -- A bind whose first part is known to return `a`.
  pub Runs-known :
      {A B : Type 0} (a : A) (Q : World e → Type 0) (R : B → World e → Type 0) (m : M e A)
      (f : A → M e B)
      → Runs P (λ b w. (b ≡ a) × Q w) m
      → Runs Q R (f a)
      → Runs P R (m >>= f)
  unfolding ◌>>=◌
  Runs-known a Q R m f rm rf = record {
    at = λ w p.
        let (b, back, both) = rm.at w p in
        let (c, back', r) = rf.at (m w).1 both.1 in
        (c, rw (back, both.0) back', rw (back, both.0) r);
  }

  pub Runs-try_catch :
      {A : Type 0} (Q : A → World e → Type 0) (m : M e A) (h : _)
      → Runs P Q m
      → Runs P Q (try_catch m h)
  unfolding try_catch
  Runs-try_catch Q m h r = record {
    at = λ w p. let (a, back, q) = r.at w p in (a, rw back refl, rw back q);
  }

-- The calls. `stable`: what the other processes do before a call keeps `P`.
module _ {e : Env} (quiet : (n : ℕ) → e.fault n ≡ none) (P : World e → Type 0)
    (stable : (w : World e) → P w → P (arrive w)) where
  Runs-call :
      {A : Type 0} (Q : A → World e → Type 0) (op : World e → Result A × World e)
      → ((w : World e) → P w → (a : A) × ((op w).0 ≡ ok a) × Q a (op w).1)
      → Runs P Q (call op)
  unfolding call
  Runs-call Q op h = record {
    at = λ w p.
        let (a, good, q) = h (arrive w) (stable w p) in
        (a, rw (quiet w.calls, good) refl, rw (quiet w.calls) q);
  }

  pub Runs-query :
      {A : Type 0} (Q : A → World e → Type 0) (f : Db → A)
      → ((w : World e) → P w → Q (f w.db) w)
      → Runs P Q (query f)
  unfolding query
  Runs-query Q f h = Runs-call Q _ (λ w p. (f w.db, refl, h w p))

  pub Runs-transact :
      {A : Type 0} (Q : A → World e → Type 0) (op : Db → Result A × Db)
      → ((w : World e) → P w → (a : A) × ((op w.db).0 ≡ ok a) × Q a (record w { db = (op w.db).1 }))
      → Runs P Q (transact op)
  unfolding transact
  Runs-transact Q op h = Runs-call Q (on_db op) h

  pub Runs-on_store :
      {A : Type 0} (Q : A → World e → Type 0) (op : e.Objects → Result A × e.Objects)
      → ((w : World e)
          → P w
          → (a : A) × ((op w.objects).0 ≡ ok a) × Q a (record w { objects = (op w.objects).1 }))
      → Runs P Q (on_store op)
  unfolding on_store
  Runs-on_store Q op h = Runs-call Q (on_objects op) h

  pub Runs-read_store :
      {A : Type 0} (Q : A → World e → Type 0) (f : e.Objects → Result A)
      → ((w : World e) → P w → (a : A) × (f w.objects ≡ ok a) × Q a w)
      → Runs P Q (read_store f)
  unfolding read_store
  Runs-read_store Q f h = Runs-call Q _ h
