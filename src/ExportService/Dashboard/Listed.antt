-- ===== src/ExportService/Dashboard/Listed.antt =====
-- What a user is shown is the user's own (`listExportJobs` of server/src/services/export.service.ts).
use export_vault.Prelude.{
  ℕ, zero, suc, ◌≤◌, ◌≡◌, ◌⊎◌, ◌∙◌, refl, sym, ap, subst, Bool, Bool-cases, inl, inr, Option, none,
  some, List, [], ◌∷◌, ◌++◌, arith, keep, length, take, drop, length-take, take-append-drop, leb,
  All, All-take, All-mono,
}
use export_vault.Text.{Text, text_eq, text_eq_iff}
use export_vault.Query.{insert_by_desc, order_by_desc}
use export_vault.Model.{ExportJob}
use export_vault.Result.{ok}
use export_vault.World.{
  Env, Db, World, Fault, refused, reply_lost, death, arrive, attempt, on_db, query, call,
}
use export_vault.World.Keeps.{After}
use export_vault.ExportService.Dashboard.{of_user, newest_first, list_export_jobs}

abbrev created : ExportJob → ℕ
created j = j.created_at

-- No job is older than one behind it.
abbrev pub IsNewestFirst : List ExportJob → Type 0
IsNewestFirst [] = Unit
IsNewestFirst (j ∷ js) = All (λ k. k.created_at ≤ j.created_at) js × IsNewestFirst js

All-insert_by_desc :
    (P : ExportJob → Type 0) (j : ExportJob) (js : List ExportJob)
    → P j
    → All P js
    → All P (insert_by_desc created j js)
unfolding insert_by_desc
All-insert_by_desc P j [] p h = (p, tt)
All-insert_by_desc P j (k ∷ js) p (q, h) = ground (arith, All-insert_by_desc P j js p h)

All-newest_first :
    (P : ExportJob → Type 0) (js : List ExportJob) → All P js → All P (newest_first js)
unfolding newest_first order_by_desc
All-newest_first P [] h = tt
All-newest_first P (j ∷ js) (p, h) =
    All-insert_by_desc P j (newest_first js) p (All-newest_first P js h)

insert_by_desc-IsNewestFirst :
    (j : ExportJob) (js : List ExportJob)
    → IsNewestFirst js
    → IsNewestFirst (insert_by_desc created j js)
unfolding insert_by_desc
insert_by_desc-IsNewestFirst j [] h = (tt, tt)
insert_by_desc-IsNewestFirst j (k ∷ js) (low, h) =
    elim (Bool-cases (leb k.created_at j.created_at)) [
      | inl le ↦
          let here : k.created_at ≤ j.created_at = ground arith in
          rw le (
            (
              here,
              All-mono (λ i. i.created_at ≤ k.created_at) (λ i. i.created_at ≤ j.created_at)
                  (λ i q. omega arith) js low,
            ),
            (low, h),
          )
      | inr gt ↦ rw gt (
        All-insert_by_desc (λ i. i.created_at ≤ k.created_at) j js (ground arith) low,
        insert_by_desc-IsNewestFirst j js h,
      )
    ]

newest_first-IsNewestFirst : (js : List ExportJob) → IsNewestFirst (newest_first js)
unfolding newest_first order_by_desc
newest_first-IsNewestFirst [] = tt
newest_first-IsNewestFirst (j ∷ js) =
    insert_by_desc-IsNewestFirst j (newest_first js) (newest_first-IsNewestFirst js)

-- How many of the jobs pass a test.
abbrev pub count : (ExportJob → Bool) → List ExportJob → ℕ
count p js = length (keep p js)

insert_by_desc-count :
    (p : ExportJob → Bool) (j : ExportJob) (js : List ExportJob)
    → count p (insert_by_desc created j js) ≡ count p (j ∷ js)
unfolding insert_by_desc
insert_by_desc-count p j [] = refl
insert_by_desc-count p j (k ∷ js) = ground (arith, insert_by_desc-count p j js)

newest_first-count :
    (p : ExportJob → Bool) (js : List ExportJob) → count p (newest_first js) ≡ count p js
unfolding newest_first order_by_desc
newest_first-count p [] = refl
newest_first-count p (j ∷ js) =
    ground (arith, insert_by_desc-count p j (newest_first js), newest_first-count p js)

of_user-All : (user : Text) (js : List ExportJob) → All (λ j. j.user_id ≡ user) (of_user user js)
of_user-All user [] = tt
of_user-All user (j ∷ js) = ground (arith, of_user-All user js, text_eq_iff j.user_id user)

drop_behind : (n : ℕ) (js : List ExportJob) → (length (take n js) ≡ n) ⊎ (drop n js ≡ [])
drop_behind zero js = inl refl
drop_behind (suc n) [] = inr refl
drop_behind (suc n) (j ∷ js) = elim (drop_behind n js) [
  | inl full ↦ inl (omega (arith, full))
  | inr none_left ↦ inr none_left
]

-- The newest hundred jobs of a user: with the ones left out they are all the user's jobs in the table,
-- the newest first; nothing is left out of fewer than a hundred.
pub record IsNewestHundred (user : Text) (table listed : List ExportJob) : Type 0 where
  pub own : All (λ j. j.user_id ≡ user) listed
  pub left_out : List ExportJob
  pub all_of_them :
      (p : ExportJob → Bool)
      → count p (listed ++ left_out) ≡ count p (keep (λ j. text_eq j.user_id user) table)
  pub newest : IsNewestFirst (listed ++ left_out)
  pub at_most : length listed ≤ 100
  pub full : (length listed ≡ 100) ⊎ (left_out ≡ [])

listed-IsNewestHundred :
    (user : Text) (table : List ExportJob)
    → IsNewestHundred user table (take 100 (newest_first (of_user user table)))
listed-IsNewestHundred user table =
    let own = newest_first (of_user user table) in
    record {
      own =
          All-take (λ j. j.user_id ≡ user) 100 own
            (All-newest_first (λ j. j.user_id ≡ user) (of_user user table)
              (of_user-All user table));
      left_out = drop 100 own;
      all_of_them =
          λ p. ap (count p) (take-append-drop 100 own) ∙ newest_first-count p (of_user user table);
      newest =
          subst IsNewestFirst (sym (take-append-drop 100 own))
            (newest_first-IsNewestFirst (of_user user table));
      at_most = omega (arith, length-take 100 own);
      full = drop_behind 100 own;
    }

attempt_gives :
    {e : Env} {A : Type 0} (F : A → Type 0) (f : Db → A) (fault : Option Fault) (w : World e)
    → F (f w.db)
    → After F (attempt {e = e} fault (on_db (λ d. (ok (f d), d))) w).0
attempt_gives F f none w h = h
attempt_gives F f (some (refused n)) w h = tt
attempt_gives F f (some (reply_lost n)) w h = tt
attempt_gives F f (some death) w h = tt

-- Whatever calls fail: a list that is returned holds the newest hundred jobs of the user in the table
-- as the query found it.
pub list_export_jobs-IsNewestHundred :
    {e : Env} (user : Text) (w : World e)
    → After (IsNewestHundred user (arrive w).db.jobs) (list_export_jobs {e = e} user w).0
unfolding list_export_jobs query call
list_export_jobs-IsNewestHundred {e} user w =
    attempt_gives (IsNewestHundred user (arrive w).db.jobs)
      (λ d. take 100 (newest_first (of_user user d.jobs))) (e.fault w.calls) (arrive w)
      (listed-IsNewestHundred user (arrive w).db.jobs)
