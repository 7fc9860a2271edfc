-- ===== src/Runner/Durable/Chunks.antt =====
-- The chunks of the batches in the object store (server/src/services/storage.service.ts).
use export_vault.Prelude.{ℕ, suc, ◌+◌, ◌<◌, ◌≡◌, ◌≢◌, ◌∙◌, some, List, [], ◌∷◌, ◌++◌, arith, length}
use export_vault.Text.{Text}
use export_vault.Model.{RawRecordRow}
use export_vault.Result.{ok}
use export_vault.World.{Env}
use export_vault.World.Laws.{IsStore}
use export_vault.Storage.{chunk_key, final_key}
use export_vault.Storage.Keys.{chunk_keys_apart}
use export_vault.Runner.Durable.{Stored, chunk_bytes}

chunk_key-ne : (id : Text) (m n : ℕ) → n < m → chunk_key id m ≢ chunk_key id n
chunk_key-ne id m n lt same =
    let m_is_n : m ≡ n = (chunk_keys_apart id m n).0 same in absurd (omega arith)

pub chunk_key-ne-final_key : (id : Text) (n : ℕ) → final_key id ≢ chunk_key id n
chunk_key-ne-final_key id n same =
    let (rest, under) = (chunk_keys_apart id n n).1 in
    (chunk_keys_apart id n n).2 rest (same ∙ under)

-- Whatever leaves the objects with keys of chunks alone leaves the chunks stored.
pub Stored-frame :
    (e : Env) (id : Text) (n : ℕ) (bs : List (List RawRecordRow)) (o o' : e.Objects)
    → ((m : ℕ)
        → m < n + length bs
        → e.get_object (chunk_key id m) o' ≡ e.get_object (chunk_key id m) o)
    → Stored e id n bs o
    → Stored e id n bs o'
Stored-frame e id n [] o o' same h = tt
Stored-frame e id n (b ∷ bs) o o' same (here, h) = (
  same n (omega arith) ∙ here,
  Stored-frame e id (n + 1) bs o o' (λ m lt. same m (omega arith)) h,
)

Stored-append :
    (e : Env) (id : Text) (n : ℕ) (bs : List (List RawRecordRow)) (b : List RawRecordRow) (m : ℕ)
    (o : e.Objects)
    → m ≡ n + length bs
    → Stored e id n bs o
    → e.get_object (chunk_key id m) o ≡ ok (some (chunk_bytes b))
    → Stored e id n (bs ++ b ∷ []) o
Stored-append e id n [] b m o at h there = let same : n ≡ m = omega arith in (rw same there, tt)
Stored-append e id n (c ∷ bs) b m o at (here, h) there =
    (here, Stored-append e id (n + 1) bs b m o (omega arith) h there)

-- A batch that was written and accepted is stored behind the others.
pub Stored-one_more :
    (e : Env) (id : Text) (bs : List (List RawRecordRow)) (o : e.Objects) (b : List RawRecordRow)
    → Stored e id 1 bs o
    → e.get_object (chunk_key id (suc (length bs))) o ≡ ok (some (chunk_bytes b))
    → Stored e id 1 (bs ++ b ∷ []) o
Stored-one_more e id bs o b h there =
    Stored-append e id 1 bs b (suc (length bs)) o (omega arith) h there

module _ {e : Env} (store : IsStore e) (id : Text) (bs : List (List RawRecordRow))
    (o : e.Objects) where
  -- Whatever is written under the next batch number, the chunks before it stay.
  pub Stored-put_next :
      (body : List ℕ)
      → Stored e id 1 bs o
      → Stored e id 1 bs (e.put_object (chunk_key id (suc (length bs))) body o).1
  Stored-put_next body h =
      Stored-frame e id 1 bs o _
        (λ m lt. store.get-put_ne _ _ body o (chunk_key-ne id (suc (length bs)) m (omega arith))) h

  -- The upload of the finished file leaves the chunks alone.
  pub Stored-upload_final :
      (body : List ℕ) → Stored e id 1 bs o → Stored e id 1 bs (e.upload (final_key id) body o).1
  Stored-upload_final body h =
      Stored-frame e id 1 bs o _
        (λ m lt. store.get-upload_ne _ _ body o (chunk_key-ne-final_key id m)) h
