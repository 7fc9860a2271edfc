-- ===== src/World/Survives.antt =====
-- What an action leaves behind, whatever calls fail: one predicate on the world where it returns,
-- and another where it throws or the process dies.
use export_vault.Prelude.{ℕ, ◌≡◌, refl, Bool, true, false, Option, none, some, if◌then◌else◌}
use export_vault.Model.Errors.{AppError}
use export_vault.Result.{Result, ok, err}
use export_vault.World.Keeps.{Keeps, After}
use export_vault.World.{
  Env, Db, World, M, Fault, refused, reply_lost, death, Out, returned, thrown, died, pure, throw,
  exit, ◌>>=◌, try_catch, lift, read_clock, call, attempt, arrive, on_db, on_objects, from_result,
  handle, continue, transact, query, on_store, read_store,
}

abbrev pub Leaves :
    {e : Env} {A : Type 0} → (World e → Type 0) → (A → World e → Type 0) → Out A → World e → Type 0
Leaves I Q (returned a) w = Q a w
Leaves I Q (thrown x) w = I w
Leaves I Q died w = I w

-- From every world that satisfies `P` the action either returns a value and a world that satisfy
-- `Q`, or throws or dies in a world that satisfies `I`.
pub record Survives {e : Env} {A : Type 0} (P I : World e → Type 0) (Q : A → World e → Type 0)
    (m : M e A) : Type 0 where
  pub at : (w : World e) → P w → Leaves I Q (m w).0 (m w).1

module _ {e : Env} (I P : World e → Type 0) where
  pub Survives-pure :
      {A : Type 0} (Q : A → World e → Type 0) (a : A)
      → ((w : World e) → P w → Q a w)
      → Survives P I Q (pure a)
  unfolding pure
  Survives-pure Q a h = record { at = h }

  pub Survives-throw :
      {A : Type 0} (Q : A → World e → Type 0) (x : AppError)
      → ((w : World e) → P w → I w)
      → Survives P I Q (throw x)
  unfolding throw
  Survives-throw Q x h = record { at = h }

  pub Survives-exit :
      {A : Type 0} (Q : A → World e → Type 0) → ((w : World e) → P w → I w) → Survives P I Q exit
  unfolding exit
  Survives-exit Q h = record { at = h }

  pub Survives-read_clock :
      (Q : ℕ → World e → Type 0) → ((w : World e) → P w → Q w.db.now w) → Survives P I Q read_clock
  unfolding read_clock
  Survives-read_clock Q h = record { at = h }

  pub Survives-lift :
      {A : Type 0} (Q : A → World e → Type 0) (r : Result A)
      → ((w : World e) → P w → I w)
      → ((a : A) (w : World e) → P w → Q a w)
      → Survives P I Q (lift r)
  unfolding lift
  Survives-lift Q (ok a) bad good = record { at = good a }
  Survives-lift Q (err x) bad good = record { at = bad }

  -- As before, with the equation by which the result is known.
  pub Survives-lift_eq :
      {A : Type 0} (Q : A → World e → Type 0) (r : Result A)
      → ((w : World e) → P w → I w)
      → ((a : A) → r ≡ ok a → (w : World e) → P w → Q a w)
      → Survives P I Q (lift r)
  unfolding lift
  Survives-lift_eq Q (ok a) bad good = record { at = good a refl }
  Survives-lift_eq Q (err x) bad good = record { at = bad }

  pub Survives-if :
      {A : Type 0} (Q : A → World e → Type 0) (b : Bool) (m n : M e A)
      → (b ≡ true → Survives P I Q m)
      → (b ≡ false → Survives P I Q n)
      → Survives P I Q (if b then m else n)
  Survives-if Q true m n sm sn = sm refl
  Survives-if Q false m n sm sn = sn refl

  pub Survives-mono :
      {A : Type 0} (Q R : A → World e → Type 0) (m : M e A)
      → Survives P I Q m
      → ((a : A) (w : World e) → Q a w → R a w)
      → Survives P I R m
  Survives-mono Q R m s h = record { at = λ w p. Leaves-mono Q R (m w).0 (m w).1 h (s.at w p) }
    where
      Leaves-mono :
          {A : Type 0} (Q R : A → World e → Type 0) (o : Out A) (w : World e)
          → ((a : A) (w : World e) → Q a w → R a w)
          → Leaves I Q o w
          → Leaves I R o w
      Leaves-mono Q R (returned a) w h l = h a w l
      Leaves-mono Q R (thrown x) w h l = l
      Leaves-mono Q R died w h l = l

  pub Survives-pre :
      {A : Type 0} {P' : World e → Type 0} (Q : A → World e → Type 0) (m : M e A)
      → ((w : World e) → P' w → P w)
      → Survives P I Q m
      → Survives P' I Q m
  Survives-pre Q m h s = record { at = λ w p. s.at w (h w p) }

  -- A fact about no world is known from the start.
  pub Survives-given :
      {A S : Type 0} (Q : A → World e → Type 0) (m : M e A)
      → (S → Survives P I Q m)
      → Survives (λ w. S × P w) I Q m
  Survives-given Q m h = record { at = λ w both. (h both.0).at w both.1 }

  continue-Leaves :
      {A B : Type 0} (Q : A → World e → Type 0) (R : B → World e → Type 0) (o : Out A)
      (f : A → M e B) (w : World e)
      → Leaves I Q o w
      → ((a : A) → Survives (Q a) I R (f a))
      → Leaves I R (continue o f w).0 (continue o f w).1
  continue-Leaves Q R (returned a) f w h s = (s a).at w h
  continue-Leaves Q R (thrown x) f w h s = h
  continue-Leaves Q R died f w h s = h

  pub Survives-bind :
      {A B : Type 0} (Q : A → World e → Type 0) (R : B → World e → Type 0) (m : M e A)
      (f : A → M e B)
      → Survives P I Q m
      → ((a : A) → Survives (Q a) I R (f a))
      → Survives P I R (m >>= f)
  unfolding ◌>>=◌
  Survives-bind Q R m f sm sf = record {
    at = λ w p. continue-Leaves Q R (m w).0 f (m w).1 (sm.at w p) sf;
  }

  handle-Leaves :
      {A : Type 0} (J : World e → Type 0) (Q : A → World e → Type 0) (o : Out A)
      (h : AppError → M e A) (w : World e)
      → Leaves J Q o w
      → ((w : World e) → J w → I w)
      → ((x : AppError) → Survives J I Q (h x))
      → Leaves I Q (handle o h w).0 (handle o h w).1
  handle-Leaves J Q (returned a) h w l dead s = l
  handle-Leaves J Q (thrown x) h w l dead s = (s x).at w l
  handle-Leaves J Q died h w l dead s = dead w l

  pub Survives-try_catch :
      {A : Type 0} (J : World e → Type 0) (Q : A → World e → Type 0) (m : M e A)
      (h : AppError → M e A)
      → Survives P J Q m
      → ((w : World e) → J w → I w)
      → ((x : AppError) → Survives J I Q (h x))
      → Survives P I Q (try_catch m h)
  unfolding try_catch
  Survives-try_catch J Q m h sm dead sh = record {
    at = λ w p. handle-Leaves J Q (m w).0 h (m w).1 (sm.at w p) dead sh;
  }

-- A bind whose first part, if it returns, is known to return `a`.
pub Survives-known :
    {e : Env} (I P : World e → Type 0) {A B : Type 0} (a : A) (Q : World e → Type 0)
    (R : B → World e → Type 0) (m : M e A) (f : A → M e B)
    → Survives P I (λ b w. (b ≡ a) × Q w) m
    → Survives Q I R (f a)
    → Survives P I R (m >>= f)
Survives-known I P a Q R m f sm sf =
    Survives-bind I P (λ b w. (b ≡ a) × Q w) R m f sm
      (λ b. Survives-given I Q R (f b) (λ same. rw same sf))

-- The calls. `stable`: what the other processes do before a call keeps `P`.
module _ {e : Env} (I P : World e → Type 0) (stable : (w : World e) → P w → P (arrive w))
    (fails : (w : World e) → P w → I w) where
  attempt-Leaves :
      {A : Type 0} (Q : A → World e → Type 0) (f : Option Fault) (op : World e → Result A × World e)
      (w : World e)
      → P w
      → I (op w).1
      → Leaves I Q (from_result (op w).0) (op w).1
      → Leaves I Q (attempt f op w).0 (attempt f op w).1
  attempt-Leaves Q none op w p lost h = h
  attempt-Leaves Q (some (refused n)) op w p lost h = fails w p
  attempt-Leaves Q (some (reply_lost n)) op w p lost h = lost
  attempt-Leaves Q (some death) op w p lost h = fails w p

  lost_reply :
      {A : Type 0} (Q : A → World e → Type 0) (r : Result A) (w : World e)
      → ((a : A) (v : World e) → Q a v → I v)
      → Leaves I Q (from_result r) w
      → I w
  lost_reply Q (ok a) w weaken h = weaken a w h
  lost_reply Q (err x) w weaken h = h

  Survives-call :
      {A : Type 0} (Q : A → World e → Type 0) (op : World e → Result A × World e)
      → ((a : A) (w : World e) → Q a w → I w)
      → ((w : World e) → P w → Leaves I Q (from_result (op w).0) (op w).1)
      → Survives P I Q (call op)
  unfolding call
  Survives-call Q op weaken h = record {
    at = λ w p.
        let p' = stable w p in
        attempt-Leaves Q (e.fault w.calls) op (arrive w) p'
          (lost_reply Q (op (arrive w)).0 (op (arrive w)).1 weaken (h (arrive w) p'))
          (h (arrive w) p');
  }

  pub Survives-query :
      {A : Type 0} (Q : A → World e → Type 0) (f : Db → A)
      → ((a : A) (w : World e) → Q a w → I w)
      → ((w : World e) → P w → Q (f w.db) w)
      → Survives P I Q (query f)
  unfolding query
  Survives-query Q f weaken h = Survives-call Q _ weaken h

  pub Survives-transact :
      {A : Type 0} (Q : A → World e → Type 0) (op : Db → Result A × Db)
      → ((a : A) (w : World e) → Q a w → I w)
      → ((w : World e) → P w → Leaves I Q (from_result (op w.db).0) (record w { db = (op w.db).1 }))
      → Survives P I Q (transact op)
  unfolding transact
  Survives-transact Q op weaken h = Survives-call Q (on_db op) weaken h

  pub Survives-on_store :
      {A : Type 0} (Q : A → World e → Type 0) (op : e.Objects → Result A × e.Objects)
      → ((a : A) (w : World e) → Q a w → I w)
      → ((w : World e)
          → P w
          → Leaves I Q (from_result (op w.objects).0) (record w { objects = (op w.objects).1 }))
      → Survives P I Q (on_store op)
  unfolding on_store
  Survives-on_store Q op weaken h = Survives-call Q (on_objects op) weaken h

  pub Survives-read_store :
      {A : Type 0} (Q : A → World e → Type 0) (f : e.Objects → Result A)
      → ((a : A) (w : World e) → Q a w → I w)
      → ((w : World e) → P w → Leaves I Q (from_result (f w.objects)) w)
      → Survives P I Q (read_store f)
  unfolding read_store
  Survives-read_store Q f weaken h = Survives-call Q _ weaken h

-- What a result leaves, by its cases.
pub Leaves-result :
    {e : Env} {A : Type 0} (I : World e → Type 0) (Q : A → World e → Type 0) (r : Result A)
    (w : World e)
    → I w
    → ((a : A) → r ≡ ok a → Q a w)
    → Leaves I Q (from_result r) w
Leaves-result I Q (ok a) w i h = h a refl
Leaves-result I Q (err x) w i h = i

pub Survives-worse :
    {e : Env} {A : Type 0} (I J P : World e → Type 0) (Q : A → World e → Type 0) (m : M e A)
    → Survives P I Q m
    → ((w : World e) → I w → J w)
    → Survives P J Q m
Survives-worse {e} I J P Q m s h = record { at = λ w p. worse (m w).0 (m w).1 (s.at w p) }
  where
    worse : (o : Out _) (w : World e) → Leaves I Q o w → Leaves J Q o w
    worse (returned a) w l = l
    worse (thrown x) w l = h w l
    worse died w l = h w l

-- What keeps the tables by the rules of World/Keeps, if `I` of the tables is all that is known.
pub Survives-Keeps :
    {e : Env} {A : Type 0} (T : Db → Type 0) (I : World e → Type 0) (F : A → Type 0) (m : M e A)
    → ((w : World e) → T w.db → I w)
    → Keeps T F m
    → Survives (λ w. T w.db) I (λ a w. F a × T w.db) m
Survives-Keeps T I F m fails k = record {
  at = λ w t. let (kept, known) = k.at w t in leaves (m w).0 (m w).1 kept known;
}
  where
    leaves : (o : Out _) (v : World _) → T v.db → After F o → Leaves I (λ a w. F a × T w.db) o v
    leaves (returned a) v t f = (f, t)
    leaves (thrown x) v t f = fails v t
    leaves died v t f = fails v t
