-- ===== src/Tests/ApiWitnesses.antt =====
-- The theorems on the API at concrete inputs that meet their hypotheses.
use export_vault.Prelude.{
  ℕ, ◌+◌, ◌≤◌, ◌<◌, ◌≡◌, ◌↔◌, arith, refl, true, false, some, List, [], ◌∷◌, ◌++◌,
}
use export_vault.Text.{codes}
use export_vault.Model.{ExportJob, User}
use export_vault.Model.Errors
use export_vault.Model.Errors.{unauthorized_error, bad_credentials}
use export_vault.Result.{ok}
use export_vault.World.{World, returned, thrown, arrive}
use export_vault.World.Keeps.{After}
use export_vault.World.Survives.{Leaves}
use export_vault.Runner.{run_export_job}
use export_vault.Auth.{Login, normalise_email, find_user, login_user, require_auth, bearer}
use export_vault.Auth.Laws.{login_user-refused, register_then_login, registered_user_gets_in}
use export_vault.ErrorHandler.{other, value, error_handler, error_handler-hides}
use export_vault.ExportService.Dashboard.{stats_of, group_by_status, list_export_jobs}
use export_vault.ExportService.Dashboard.Counters.{stats_add_up}
use export_vault.ExportService.Dashboard.Listed.{IsNewestHundred, list_export_jobs-IsNewestHundred}
use export_vault.ExportService.Recheck.{
  RestsOnFile, verify_export_job_by_id, verify_export_job_by_id-RestsOnFile,
}
use export_vault.Tests.Fixture.{quiet, start, job}
use export_vault.Tests.Tokens.{toy, toy-IsCrypto}

abbrev some_jobs : List ExportJob
some_jobs =
    job ∷ record job { status = Errors.completed } ∷ record job { status = Errors.verifying } ∷ []

stats_add_up_example :
    let s = stats_of (group_by_status some_jobs) (some job) 3 in
    (s.completed + s.failed + s.running + s.interrupted + s.cancelled ≡ s.total) × (s.total ≡ 3)
stats_add_up_example = stats_add_up some_jobs (some job) 3

list_export_jobs-IsNewestHundred_example :
    After
      (IsNewestHundred (codes "u1") (arrive start).db.jobs)
      (list_export_jobs {e = quiet} (codes "u1") start).0
list_export_jobs-IsNewestHundred_example =
    list_export_jobs-IsNewestHundred {e = quiet} (codes "u1") start

-- The world behind a run of the job, where its row names its file.
abbrev behind : World quiet
behind = (run_export_job {e = quiet} job.id start).1

verify_export_job_by_id-RestsOnFile_example :
    Leaves
      (λ v. v.db.jobs ≡ behind.db.jobs)
      (λ r v. (v.db.jobs ≡ behind.db.jobs) × RestsOnFile quiet r v.objects)
      (verify_export_job_by_id {e = quiet} (codes "j1") behind).0
      (verify_export_job_by_id {e = quiet} (codes "j1") behind).1
unfolding quiet
verify_export_job_by_id-RestsOnFile_example =
    verify_export_job_by_id-RestsOnFile {e = quiet} (λ js. js ≡ behind.db.jobs) (λ n d h. h)
      (codes "j1") behind refl

login_user-refused_example :
    ((login_user toy {e = quiet} (codes "ann@x.org") (codes "secret") start).0
      ≡ thrown (unauthorized_error bad_credentials))
    ↔ ((u : User)
        → find_user (normalise_email (codes "ann@x.org")) (arrive start).db.users ≡ some u
        → toy.compare (codes "secret") u.password_hash ≡ false)
unfolding quiet
login_user-refused_example =
    login_user-refused toy {e = quiet} (codes "ann@x.org") (codes "secret") start refl

registered_user_gets_in_example :
    (u : User) × (l : Login) × ((register_then_login toy {e = quiet}
        (codes "Ann")
        (codes " Ann@X.org")
        (codes "ann@x.org ")
        (codes "secret")
        start).0
      ≡ returned (u, l))
    × ((now : ℕ)
        → (register_then_login toy {e = quiet}
            (codes "Ann")
            (codes " Ann@X.org")
            (codes "ann@x.org ")
            (codes "secret")
            start).1.db.now
          ≤ now
        → now
          < (register_then_login toy {e = quiet}
              (codes "Ann")
              (codes " Ann@X.org")
              (codes "ann@x.org ")
              (codes "secret")
              start).1.db.now
            + 3600
        → require_auth toy now (some (bearer ++ l.token)) ≡ ok u.id)
unfolding quiet start normalise_email find_user
registered_user_gets_in_example =
    registered_user_gets_in toy {e = quiet} (λ n. refl) (codes " Ann@X.org") (λ n d. refl)
      (codes "Ann") (codes "secret") 3600 toy-IsCrypto (codes "ann@x.org ") start refl refl

error_handler-hides_example :
    error_handler true (codes "r1") 7 (other (codes "connection refused"))
    ≡ error_handler true (codes "r1") 7 (value (codes "timeout"))
error_handler-hides_example =
    error_handler-hides (codes "r1") 7 (other (codes "connection refused"))
      (value (codes "timeout")) (omega arith) refl refl refl
