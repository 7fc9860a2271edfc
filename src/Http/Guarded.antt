-- ===== src/Http/Guarded.antt =====
-- Who and what gets through to the services (server/src/middleware/auth.middleware.ts,
-- validate.middleware.ts, server/src/controllers/export.controller.ts).
use export_vault.Prelude.{
  ℕ, ◌≤◌, ◌<◌, ◌≡◌, ◌↔◌, ◌⊎◌, refl, Bool, true, false, Option, none, some, arith,
}
use export_vault.Prelude.Int.{pos, negsuc}
use export_vault.Text.{Text}
use export_vault.Model.Errors.{AppError, status_code}
use export_vault.Result.{err}
use export_vault.World.{Env, World, M, thrown, ◌>>=◌, lift, read_clock}
use export_vault.Auth.{
  Crypto, require_auth, with_header, with_token, subject, verify_token, accepted,
}
use export_vault.ExportService.{max_row_limit}
use export_vault.Config.Checked.{valid}
use export_vault.Config.Fields.{JsNumber, whole, above, infinite, nan, positive_number, past}
use export_vault.Http.Exports.{
  create_export_schema, authenticated, post_export, get_list, get_stats, for_job,
}

-- The schema of a request for an export gives the cap to a body without a row limit, and else accepts
-- exactly the whole numbers from 1 up to the cap, as they are.
pub create_export_schema_iff :
    (x : Option JsNumber) (n : ℕ)
    → (create_export_schema x ≡ valid n) ↔ (
        ((x ≡ none) × (n ≡ max_row_limit))
        ⊎ ((x ≡ some (whole (pos n))) × (0 < n) × (n ≤ max_row_limit)))
unfolding create_export_schema positive_number past
create_export_schema_iff none n = ground arith
create_export_schema_iff (some nan) n = ground arith
create_export_schema_iff (some (whole (pos m))) n = ground arith
create_export_schema_iff (some (whole (negsuc m))) n = ground arith
create_export_schema_iff (some (above (pos m))) n = ground arith
create_export_schema_iff (some (above (negsuc m))) n = ground arith
create_export_schema_iff (some (infinite true)) n = ground arith
create_export_schema_iff (some (infinite false)) n = ground arith

module _ (c : Crypto) where
  -- A refusal by the middleware is always a 401.
  require_auth_status :
      (now : ℕ) (header : Option Text) (x : AppError)
      → require_auth c now header ≡ err x
      → status_code x ≡ 401
  unfolding require_auth with_header with_token subject verify_token accepted
  require_auth_status now header x h = ground arith

  module _ {e : Env} (header : Option Text) (w : World e) where
    authenticated-refused :
        {A : Type 0} (next : Text → M e A) (x : AppError)
        → require_auth c w.db.now header ≡ err x
        → authenticated c header next w ≡ (thrown x, w)
    unfolding authenticated ◌>>=◌ lift read_clock
    authenticated-refused next x h = rw h refl

    -- A request whose token the middleware refuses is answered with that 401 by every export route (to
    -- create, to list, for the counters, and for one job), whatever its body and the handler behind,
    -- and nothing is read or written.
    pub exports_need_token :
        {A : Type 0} (allowed is_uuid : Text → Bool) (row_limit : Option JsNumber) (id : Text)
        (handler : Text → Text → M e A) (x : AppError)
        → require_auth c w.db.now header ≡ err x
        → (post_export c allowed header row_limit w ≡ (thrown x, w))
          × (get_list c header w ≡ (thrown x, w))
          × (get_stats c header w ≡ (thrown x, w))
          × (for_job c is_uuid header id handler w ≡ (thrown x, w))
          × (status_code x ≡ 401)
    unfolding post_export for_job get_list get_stats
    exports_need_token allowed is_uuid row_limit id handler x h = (
      authenticated-refused _ x h,
      authenticated-refused _ x h,
      authenticated-refused _ x h,
      authenticated-refused _ x h,
      require_auth_status w.db.now header x h,
    )
