-- ===== src/World/Keeps.antt =====
-- Invariants of the tables over every action, whatever fails and whatever the other processes do:
-- one rule for each way to build an action.
use export_vault.Prelude.{ℕ, ◌≡◌, refl, Bool, true, false, Option, none, some, if◌then◌else◌}
use export_vault.Model.Errors.{AppError}
use export_vault.Result.{Result, ok, err}
use export_vault.World.{
  Env, Db, World, M, Fault, refused, reply_lost, death, Out, returned, thrown, died, pure, throw,
  exit, ◌>>=◌, try_catch, lift, call, attempt, arrive, on_db, on_objects, on_queue, from_result,
  handle, continue, transact, query, on_store, read_store, on_jobs_queue,
}

abbrev pub After : {A : Type 0} → (A → Type 0) → Out A → Type 0
After F (returned a) = F a
After F (thrown x) = Unit
After F died = Unit

After-mono :
    {A : Type 0} (F G : A → Type 0) (o : Out A) → ((a : A) → F a → G a) → After F o → After G o
After-mono F G (returned a) fg h = fg a h
After-mono F G (thrown x) fg h = tt
After-mono F G died fg h = tt

pub After-Unit : {A : Type 0} (o : Out A) → After (λ _. Unit) o
After-Unit (returned a) = tt
After-Unit (thrown x) = tt
After-Unit died = tt

pub After-result :
    {A : Type 0} (F : A → Type 0) (r : Result A)
    → ((a : A) → r ≡ ok a → F a)
    → After F (from_result r)
After-result F (ok a) h = h a refl
After-result F (err x) h = tt

-- From tables that satisfy `I` the action leaves tables that do, whether it returns, throws or dies,
-- and what it returns satisfies `F`.
pub record Keeps {e : Env} (I : Db → Type 0) {A : Type 0} (F : A → Type 0) (m : M e A)
    : Type 0 where
  pub at : (w : World e) → I w.db → I (m w).1.db × After F (m w).0

module _ {e : Env} (I : Db → Type 0) where
  pub Keeps-pure : {A : Type 0} (F : A → Type 0) (a : A) → F a → Keeps {e = e} I F (pure a)
  unfolding pure
  Keeps-pure F a h = record { at = λ w i. (i, h) }

  pub Keeps-throw : {A : Type 0} (F : A → Type 0) (x : AppError) → Keeps {e = e} I F (throw x)
  unfolding throw
  Keeps-throw F x = record { at = λ w i. (i, tt) }

  pub Keeps-exit : {A : Type 0} (F : A → Type 0) → Keeps {e = e} I F exit
  unfolding exit
  Keeps-exit F = record { at = λ w i. (i, tt) }

  pub Keeps-lift :
      {A : Type 0} (F : A → Type 0) (r : Result A)
      → ((a : A) → r ≡ ok a → F a)
      → Keeps {e = e} I F (lift r)
  unfolding lift
  Keeps-lift F (ok a) h = record { at = λ w i. (i, h a refl) }
  Keeps-lift F (err x) h = record { at = λ w i. (i, tt) }

  pub Keeps-if :
      {A : Type 0} (F : A → Type 0) (b : Bool) (m n : M e A)
      → (b ≡ true → Keeps I F m)
      → (b ≡ false → Keeps I F n)
      → Keeps I F (if b then m else n)
  Keeps-if F true m n km kn = km refl
  Keeps-if F false m n km kn = kn refl

  continue-Keeps :
      {A B : Type 0} (F : A → Type 0) (G : B → Type 0) (o : Out A) (f : A → M e B) (w : World e)
      → I w.db
      → After F o
      → ((a : A) → F a → Keeps I G (f a))
      → I (continue o f w).1.db × After G (continue o f w).0
  continue-Keeps F G (returned a) f w i h k = (k a h).at w i
  continue-Keeps F G (thrown x) f w i h k = (i, tt)
  continue-Keeps F G died f w i h k = (i, tt)

  pub Keeps-bind :
      {A B : Type 0} (F : A → Type 0) (G : B → Type 0) (m : M e A) (f : A → M e B)
      → Keeps I F m
      → ((a : A) → F a → Keeps I G (f a))
      → Keeps I G (m >>= f)
  unfolding ◌>>=◌
  Keeps-bind F G m f km kf = record {
    at = λ w i. let (o, w') = m w in let (i', h) = km.at w i in continue-Keeps F G o f w' i' h kf;
  }

  handle-Keeps :
      {A : Type 0} (F : A → Type 0) (o : Out A) (h : AppError → M e A) (w : World e)
      → I w.db
      → After F o
      → ((x : AppError) → Keeps I F (h x))
      → I (handle o h w).1.db × After F (handle o h w).0
  handle-Keeps F (returned a) h w i f k = (i, f)
  handle-Keeps F (thrown x) h w i f k = (k x).at w i
  handle-Keeps F died h w i f k = (i, tt)

  pub Keeps-try_catch :
      {A : Type 0} (F : A → Type 0) (m : M e A) (h : AppError → M e A)
      → Keeps I F m
      → ((x : AppError) → Keeps I F (h x))
      → Keeps I F (try_catch m h)
  unfolding try_catch
  Keeps-try_catch F m h km kh = record {
    at = λ w i. let (o, w') = m w in let (i', f) = km.at w i in handle-Keeps F o h w' i' f kh;
  }

  pub Keeps-mono :
      {A : Type 0} (F G : A → Type 0) (m : M e A)
      → ((a : A) → F a → G a)
      → Keeps I F m
      → Keeps I G m
  Keeps-mono F G m fg k = record {
    at = λ w i. let (i', h) = k.at w i in (i', After-mono F G (m w).0 fg h);
  }

-- The calls, where the other processes keep the invariant too.
module _ {e : Env} (I : Db → Type 0) (rely : (n : ℕ) (d : Db) → I d → I (e.others n d)) where
  attempt-Keeps :
      {A : Type 0} (F : A → Type 0) (f : Option Fault) (op : World e → Result A × World e)
      (w : World e)
      → I w.db
      → I (op w).1.db × After F (from_result (op w).0)
      → I (attempt f op w).1.db × After F (attempt f op w).0
  attempt-Keeps F none op w i h = h
  attempt-Keeps F (some (refused n)) op w i h = (i, tt)
  attempt-Keeps F (some (reply_lost n)) op w i h = (h.0, tt)
  attempt-Keeps F (some death) op w i h = (i, tt)

  Keeps-call :
      {A : Type 0} (F : A → Type 0) (op : World e → Result A × World e)
      → ((w : World e) → I w.db → I (op w).1.db × After F (from_result (op w).0))
      → Keeps I F (call op)
  unfolding call
  Keeps-call F op h = record {
    at = λ w i.
        let i' = rely w.calls w.db i in
        attempt-Keeps F (e.fault w.calls) op (arrive w) i' (h (arrive w) i');
  }

  pub Keeps-transact :
      {A : Type 0} (F : A → Type 0) (op : Db → Result A × Db)
      → ((d : Db) → I d → I (op d).1 × After F (from_result (op d).0))
      → Keeps {e = e} I F (transact op)
  unfolding transact
  Keeps-transact F op h = Keeps-call F (on_db op) (λ w i. h w.db i)

  pub Keeps-query :
      {A : Type 0} (F : A → Type 0) (f : Db → A)
      → ((d : Db) → I d → F (f d))
      → Keeps {e = e} I F (query f)
  unfolding query
  Keeps-query F f h = Keeps-call F (on_db (λ d. (ok (f d), d))) (λ w i. (i, h w.db i))

  pub Keeps-on_store :
      (op : e.Objects → Result (Unit {0}) × e.Objects) → Keeps {e = e} I (λ _. Unit) (on_store op)
  unfolding on_store
  Keeps-on_store op = Keeps-call (λ _. Unit) (on_objects op) (λ w i. (i, After-Unit _))

  pub Keeps-read_store :
      {A : Type 0} (F : A → Type 0) (f : e.Objects → Result A)
      → ((o : e.Objects) (a : A) → f o ≡ ok a → F a)
      → Keeps {e = e} I F (read_store f)
  unfolding read_store
  Keeps-read_store F f h =
      Keeps-call F (on_objects (λ o. (f o, o)))
        (λ w i. (i, After-result F (f w.objects) (h w.objects)))

  pub Keeps-on_jobs_queue :
      {A : Type 0} (op : e.Queue → Result A × e.Queue)
      → Keeps {e = e} I (λ _. Unit) (on_jobs_queue op)
  unfolding on_jobs_queue
  Keeps-on_jobs_queue op = Keeps-call (λ _. Unit) (on_queue op) (λ w i. (i, After-Unit _))
