-- ===== src/Storage.antt =====
-- server/src/services/storage.service.ts: keys, verified writes, and the removal of chunks.

pub mod Safe
pub mod Runs
pub mod Survives
pub mod Keys
use export_vault.Prelude.{
  ℕ, zero, suc, ◌+◌, Bool, not, Option, none, some, List, [], ◌∷◌, ◌++◌, ◌==◌, if◌then◌else◌,
  length,
}
use export_vault.Text.{Text, codes, pad_start}
use export_vault.Text.Decimal.{to_string}
use export_vault.Model.Errors.{app_error, write_mismatch, no_body}
use export_vault.World.{Env, Listing, M, ◌>>=◌, ◌>>◌, pure, throw, exit, on_store, read_store}

-- `exports/${exportJobId}/chunks/`
unfoldable pub chunk_prefix : Text → Text
chunk_prefix job = codes "exports/" ++ (job ++ codes "/chunks/")

unfoldable pub chunk_key : Text → ℕ → Text
unfolding chunk_prefix pad_start to_string
chunk_key job batch_number =
    codes "exports/"
    ++ (job ++ (codes "/chunks/" ++ (pad_start 8 b'0' (to_string batch_number) ++ codes ".csv")))

unfoldable pub final_key : Text → Text
final_key job = codes "exports/" ++ (job ++ (codes "/export-" ++ (job ++ codes ".csv")))

abbrev size_or : ℕ → Option ℕ → ℕ
size_or d none = d
size_or d (some n) = n

-- A missing length is -1 in the source, which is no length of a body.
same_size : Option ℕ → List ℕ → Bool
same_size none body = Bool.false
same_size (some n) body = n == length body

module _ {e : Env} where
  check_size : Text → List ℕ → Option ℕ → M e ℕ
  unfolding same_size
  check_size key body size =
      if not (same_size size body)
      then throw (
          app_error (write_mismatch key (length body) (size_or 0 size)) 500
            (codes "STORAGE_WRITE_MISMATCH"))
      else pure (length body)

  unfoldable pub put_object_verified : Text → List ℕ → M e ℕ
  unfolding check_size
  put_object_verified key body = do
    on_store (e.put_object key body)
    size ← read_store (e.head_object key)
    check_size key body size

  unfoldable pub body_of : Text → Option (List ℕ) → M e (List ℕ)
  body_of key none = throw (app_error (no_body key) 500 (codes "STORAGE_EMPTY_BODY"))
  body_of key (some body) = pure body

  unfoldable pub get_object_stream : Text → M e (List ℕ)
  unfolding body_of
  get_object_stream key = do found ← read_store (e.get_object key); body_of key found

  unfoldable pub head_object : Text → M e ℕ
  head_object key = do size ← read_store (e.head_object key); pure (size_or 0 size)

  unfoldable pub upload_stream : Text → List ℕ → M e (Unit {0})
  upload_stream key body = on_store (e.upload key body)

  delete_page : List Text → M e (Unit {0})
  delete_page [] = pure tt
  delete_page (k ∷ ks) = on_store (e.delete_objects (k ∷ ks))

  -- `while (token)`
  abbrev pub after_page : Option Text → ℕ → (Option Text → ℕ → M e ℕ) → M e ℕ
  after_page none deleted again = pure deleted
  after_page (some next) deleted again = again (some next) deleted

  -- The do-while loop over the pages of the listing. A listing that gives a token for ever keeps
  -- the process in the loop for ever, as a process that has ended.
  delete_pages : ℕ → Text → Option Text → ℕ → M e ℕ
  unfolding delete_page
  delete_pages zero prefix token deleted = exit
  delete_pages (suc fuel) prefix token deleted = do
    listed ← read_store (e.list_objects prefix token)
    delete_page listed.keys
    after_page listed.next_token (deleted + length listed.keys) (delete_pages fuel prefix)

  unfoldable pub delete_chunks : Text → M e ℕ
  unfolding delete_pages chunk_prefix
  delete_chunks job = delete_pages e.max_pages (chunk_prefix job) none 0
