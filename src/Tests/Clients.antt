-- ===== src/Tests/Clients.antt =====
-- The theorems on the web client, the probes and the worker process at concrete inputs that meet their
-- hypotheses.
use export_vault.Prelude.{◌≡◌, ◌↔◌, ◌⊎◌, refl, true, false, none, some, [], ◌∷◌, if◌then◌else◌}
use export_vault.Text.{Text, codes}
use export_vault.Model.Errors.{AppError, Message, unauthorized_error, missing_token, conflict_error}
use export_vault.Model.Errors
use export_vault.Result.{ok, err}
use export_vault.World.{thrown, returned, died, transact}
use export_vault.Auth.{require_auth}
use export_vault.Jobs.{update_job, status_eq}
use export_vault.ExportService.{resume_owned, resume_steps, cancel_owned, to_cancel}
use export_vault.Runner.Honest.{CompletedOk}
use export_vault.Client.Api.{Options, Browser, Payloads, Sent, Reply, answered, done, request_of}
use export_vault.Client.Pages.{can_resume, can_cancel}
use export_vault.Client.Session.{Session, opened, restore, login, logout}
use export_vault.Client.Sessions.{IsSettled, restore-IsSettled, login_lets_in}
use export_vault.Client.Offers.{offers_agree}
use export_vault.Health.Probes.{Dependencies, Readiness, readiness, answer_status, pong}
use export_vault.Health.Honest.{IsReady, readiness-IsReady}
use export_vault.Worker.{consume_job, process_entry, consume_job-CompletedOk}
use export_vault.Tests.Laws.{installation-IsStore}
use export_vault.Tests.Fixture.{quiet, start, job, start_ok}
use export_vault.Tests.Tokens.{toy}

-- Payloads that are texts: a token, or an account.
abbrev plain_payloads : Payloads
plain_payloads = record {
  Payload = Text;
  Account = Text;
  parse = λ t. some t;
  error_of = λ x. none;
  user_of = λ x. some (some x);
  token_of = λ x. some x;
}

-- The token that `toy` signs for the account with the one code 1.
abbrev rest_of_token : Text
rest_of_token = b'0' ∷ b'2' ∷ b'2' ∷ []

abbrev network : Sent → Reply
network sent = answered 200 (b'1' ∷ rest_of_token)

abbrev browser : Browser
browser = record { blocked = false; stored = none }

abbrev session : Session Text
session = opened plain_payloads network browser

-- A browser that holds the token.
abbrev returning : Browser
returning = record { blocked = false; stored = some (b'1' ∷ rest_of_token) }

restore-IsSettled_example :
    IsSettled network returning
      (restore plain_payloads network (opened plain_payloads network returning))
restore-IsSettled_example = restore-IsSettled plain_payloads network returning

-- The POST that creates an export.
abbrev create_options : Options
create_options = record { is_post = true; body = some (codes "{}"); auth = true }

login_lets_in_example :
    ((login plain_payloads network (codes "{}") session).0 ≡ done tt)
    × (require_auth toy 5
          (request_of
            (codes "/api/exports")
            create_options
            (login plain_payloads network (codes "{}") session).1.browser).authorization
        ≡ ok (1 ∷ []))
    × (require_auth toy 5
          (request_of
            (codes "/api/exports")
            create_options
            (logout plain_payloads network
              (login plain_payloads network (codes "{}") session).1).browser).authorization
        ≡ err (unauthorized_error missing_token))
unfolding require_auth toy request_of
login_lets_in_example =
    login_lets_in plain_payloads network toy 5 (1 ∷ []) (codes "{}") (codes "/api/exports")
      rest_of_token b'1' b'1' rest_of_token 200 create_options (b'1' ∷ rest_of_token) session refl
      refl refl refl refl refl refl

offers_agree_example :
    (m : Message) × (n : Message) × (resume_owned {e = quiet} job start ≡ (
      if can_resume job.status then resume_steps job start else (thrown (conflict_error m), start)))
    × (cancel_owned {e = quiet} job start ≡ (
        if can_cancel job.status
        then transact (update_job job.id (to_cancel (status_eq job.status Errors.running))) start
        else if status_eq job.status Errors.cancelled
        then (returned job, start)
        else (thrown (conflict_error n), start)))
offers_agree_example = offers_agree {e = quiet} job start

-- Redis answers, and the store has its bucket.
unfoldable dependencies : Dependencies quiet
unfolding quiet
dependencies = record {
  ping = λ q. ok pong;
  job_counts = λ q. ok (record { waiting = 1; active = 0; delayed = 0; failed = 0; completed = 0 });
  head_bucket = λ os. ok tt;
  create_bucket = λ os. (ok tt, os);
  http_status = λ x. some 404;
}

readiness-IsReady_example :
    (r : Readiness) × ((readiness dependencies start).0 ≡ returned r)
    × ((answer_status r ≡ 200) ↔ IsReady dependencies start)
    × ((answer_status r ≡ 200) ⊎ (answer_status r ≡ 503))
unfolding quiet
readiness-IsReady_example = readiness-IsReady {e = quiet} dependencies start (λ n. λ p. cc)

consume_job-CompletedOk_example :
    CompletedOk quiet job (consume_job {e = quiet} job.id start).1
    × (((consume_job {e = quiet} job.id start).0 ≡ (process_entry {e = quiet} job.id start).0)
        ⊎ ((consume_job {e = quiet} job.id start).0 ≡ died))
unfolding quiet start
consume_job-CompletedOk_example =
    consume_job-CompletedOk {e = quiet} job start (installation-IsStore (λ n. none)) (λ C n d h. h)
      start_ok
