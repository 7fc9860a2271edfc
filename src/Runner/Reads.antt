-- ===== src/Runner/Reads.antt =====
-- A verification that passes has read its file from the store: `verifyExportFile` of
-- server/src/services/exportVerification.service.ts, whatever calls fail.
use export_vault.Prelude.{ℕ, ◌≡◌, true, Option, none, some, List, ◌∷◌}
use export_vault.Text.{Text}
use export_vault.Result.{ok}
use export_vault.World.{Env, World, ExportVerification, arrive}
use export_vault.World.Survives.{
  Survives, Leaves-result, Survives-pure, Survives-throw, Survives-lift_eq, Survives-bind,
  Survives-read_store, Survives-transact, Survives-given,
}
use export_vault.Storage.{body_of, get_object_stream, head_object}
use export_vault.Verification.{VerificationResult}
use export_vault.Verification.Verdict.{passed_iff}
use export_vault.Runner.Steps.{verify_export_file}
use export_vault.Runner.Honest.{FileAt}

-- `P` is what is known and kept: by what the others do before a call, and by a new row of the log.
module _ {e : Env} (I P : World e → Type 0) (stable : (w : World e) → P w → P (arrive w))
    (fails : (w : World e) → P w → I w)
    (logs : (w : World e) (v : ExportVerification)
      → P w
      → P (record w { db = record w.db { verifications = v ∷ w.db.verifications } }))
    (key : Text) where
  -- `P`, and the object is there.
  abbrev Holds : List ℕ → World e → Type 0
  Holds body w = P w × (e.get_object key w.objects ≡ ok (some body))

  body_of-Reads :
      (found : Option (List ℕ))
      → Survives {e = e}
          (λ w. P w × (e.get_object key w.objects ≡ ok found))
          I
          Holds
          (body_of key found)
  unfolding body_of
  body_of-Reads none = Survives-throw I _ _ _ (λ w h. fails w h.0)
  body_of-Reads (some body) = Survives-pure I _ _ body (λ w h. h)

  get_object_stream-Reads : Survives {e = e} P I Holds (get_object_stream key)
  unfolding get_object_stream
  get_object_stream-Reads =
      Survives-bind I P (λ o w. P w × (e.get_object key w.objects ≡ ok o)) Holds _ _
        (Survives-read_store I P stable fails _ (e.get_object key) (λ o w h. fails w h.0)
          (λ w p.
            Leaves-result I _ (e.get_object key w.objects) w (fails w p) (λ o good. (p, good))))
        body_of-Reads

  head_object-Reads : Survives {e = e} P I (λ _ w. P w) (head_object key)
  unfolding head_object
  head_object-Reads =
      Survives-bind I P (λ _ w. P w) _ _ _
        (Survives-read_store I P stable fails _ (e.head_object key) (λ o w p. fails w p)
          (λ w p. Leaves-result I _ (e.head_object key w.objects) w (fails w p) (λ o _. p)))
        (λ o. Survives-pure I P _ _ (λ w p. p))

  -- A result that passed, of an object that is an export and is there.
  abbrev pub Passes : (rows snapshot : ℕ) → VerificationResult → World e → Type 0
  Passes rows snapshot r w = P w × (r.passed ≡ true → FileAt e key rows snapshot w.objects)

  pub verify_export_file-Reads :
      (id : Text) (rows snapshot : ℕ)
      → Survives {e = e} P I (Passes rows snapshot) (verify_export_file id key rows snapshot)
  unfolding verify_export_file
  verify_export_file-Reads id rows snapshot =
      Survives-bind I P (λ _ w. P w) _ _ _ head_object-Reads
        (λ bytes. Survives-bind I P Holds _ _ _ get_object_stream-Reads (λ body.
          Survives-bind I (Holds body) (λ cells w. (e.parse body ≡ ok cells) × Holds body w) _ _ _
            (Survives-lift_eq I (Holds body) _ (e.parse body) (λ w h. fails w h.0)
              (λ cells parsed w h. (parsed, h)))
            (λ cells. Survives-given I (Holds body) _ _ (λ parsed.
              Survives-bind I (Holds body) (λ _ w. Holds body w) _ _ _
                (Survives-transact I (Holds body) (λ w h. (stable w h.0, h.1)) (λ w h. fails w h.0)
                  _ _ (λ _ w h. fails w h.0) (λ w h. (logs w _ h.0, h.1)))
                (λ _. Survives-pure I (Holds body) _ _ (λ w h. (
                  h.0,
                  λ passed. record {
                    body = body;
                    cells = cells;
                    there = h.1;
                    parsed = parsed;
                    complete = ((passed_iff rows snapshot bytes (e.sha256 body) cells).0 passed).1;
                  },
                )))))))
