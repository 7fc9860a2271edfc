-- ===== src/Storage/Safe.antt =====
-- The calls of server/src/services/storage.service.ts leave the tables alone.
use export_vault.Prelude.{ℕ, zero, suc, ◌+◌, Option, none, some, List, [], ◌∷◌, length}
use export_vault.Text.{Text}
use export_vault.World.{Env, Db, M}
use export_vault.World.Safe.{
  Safe, safe_rules, Safe-pure, Safe-exit, Safe-bind, Safe-on_store, Safe-read_store,
}
use export_vault.Storage.{
  check_size, put_object_verified, body_of, get_object_stream, head_object, upload_stream,
  delete_page, after_page, delete_pages, delete_chunks,
}

module _ {e : Env} (I : Db → Type 0) (rely : (n : ℕ) (d : Db) → I d → I (e.others n d)) where
  check_size-Safe :
      (key : Text) (body : List ℕ) (size : Option ℕ) → Safe {e = e} I (check_size key body size)
  unfolding check_size
  check_size-Safe key body size = search safe_rules

  pub put_object_verified-Safe :
      (key : Text) (body : List ℕ) → Safe {e = e} I (put_object_verified key body)
  unfolding put_object_verified
  put_object_verified-Safe key body =
      search (safe_rules, Safe-on_store I rely, Safe-read_store I rely, check_size-Safe)

  body_of-Safe : (key : Text) (found : Option (List ℕ)) → Safe {e = e} I (body_of key found)
  unfolding body_of
  body_of-Safe key none = search safe_rules
  body_of-Safe key (some body) = search safe_rules

  pub get_object_stream-Safe : (key : Text) → Safe {e = e} I (get_object_stream key)
  unfolding get_object_stream
  get_object_stream-Safe key = search (safe_rules, Safe-read_store I rely, body_of-Safe)

  pub head_object-Safe : (key : Text) → Safe {e = e} I (head_object key)
  unfolding head_object
  head_object-Safe key = search (safe_rules, Safe-read_store I rely)

  pub upload_stream-Safe : (key : Text) (body : List ℕ) → Safe {e = e} I (upload_stream key body)
  unfolding upload_stream
  upload_stream-Safe key body = search (Safe-on_store I rely)

  delete_page-Safe : (keys : List Text) → Safe {e = e} I (delete_page keys)
  unfolding delete_page
  delete_page-Safe [] = search safe_rules
  delete_page-Safe (k ∷ ks) = search (Safe-on_store I rely)

  after_page-Safe :
      (next : Option Text) (deleted : ℕ) (again : Option Text → ℕ → M e ℕ)
      → ((token : Option Text) (n : ℕ) → Safe {e = e} I (again token n))
      → Safe {e = e} I (after_page next deleted again)
  after_page-Safe none deleted again h = Safe-pure I deleted
  after_page-Safe (some next) deleted again h = h (some next) deleted

  delete_pages-Safe :
      (fuel : ℕ) (prefix : Text) (token : Option Text) (deleted : ℕ)
      → Safe {e = e} I (delete_pages fuel prefix token deleted)
  unfolding delete_pages
  delete_pages-Safe zero prefix token deleted = Safe-exit I
  delete_pages-Safe (suc fuel) prefix token deleted =
      Safe-bind I _ _ (Safe-read_store I rely _) (λ listed.
        Safe-bind I _ _ (delete_page-Safe listed.keys) (λ _.
          after_page-Safe listed.next_token (deleted + length listed.keys)
            (delete_pages fuel prefix) (delete_pages-Safe fuel prefix)))

  pub delete_chunks-Safe : (job : Text) → Safe {e = e} I (delete_chunks job)
  unfolding delete_chunks
  delete_chunks-Safe job = delete_pages-Safe e.max_pages _ none 0
