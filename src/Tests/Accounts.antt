-- ===== src/Tests/Accounts.antt =====
-- The accounts over the routes of the API at a concrete body.
use export_vault.Prelude.{ℕ, ◌+◌, ◌≤◌, ◌<◌, ◌≡◌, refl, true, some, ◌++◌, Bool}
use export_vault.Text.{Text, codes}
use export_vault.Text.BigInt.{trim}
use export_vault.Model.{User}
use export_vault.Result.{ok}
use export_vault.World.{returned}
use export_vault.Auth.{Login, normalise_email, find_user, require_auth, bearer}
use export_vault.Config.Checked.{valid}
use export_vault.Config.Fields.{utf16_length}
use export_vault.Http.Accounts.{AccountBody, Registration, has_char, register_schema}
use export_vault.Http.Registered.{post_both, registered_over_http}
use export_vault.Tests.Fixture.{quiet, start}
use export_vault.Tests.Tokens.{toy, toy-IsCrypto}

has_at : Text → Bool
unfolding has_char
has_at s = has_char b'@' b'@' s

abbrev ann_body : AccountBody
ann_body = record {
  name = some (codes " Ann ");
  email = some (codes "Ann@X.org ");
  password = some (codes "Secret12345");
}

abbrev ann : Registration
ann = record { name = codes "Ann"; email = codes "Ann@X.org"; password = codes "Secret12345" }

ann_accepted : register_schema has_at ann_body ≡ valid ann
unfolding register_schema has_at has_char utf16_length trim
ann_accepted = refl

registered_over_http_example :
    (u : User) × (l : Login) × ((post_both has_at toy {e = quiet} true ann_body start).0
      ≡ returned (u, l))
    × ((now : ℕ)
        → (post_both has_at toy {e = quiet} true ann_body start).1.db.now ≤ now
        → now < (post_both has_at toy {e = quiet} true ann_body start).1.db.now + 3600
        → require_auth toy now (some (bearer ++ l.token)) ≡ ok u.id)
unfolding quiet start normalise_email find_user
registered_over_http_example =
    registered_over_http has_at toy {e = quiet} ann_body ann 3600 start (λ n. refl) (λ n d. refl)
      toy-IsCrypto ann_accepted refl
