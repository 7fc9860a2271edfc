-- ===== src/Storage/Runs.antt =====
-- The calls of server/src/services/storage.service.ts where no call fails and the store is willing.
use export_vault.Prelude.{
  ℕ, zero, suc, ◌<◌, ◌≡◌, refl, Option, none, some, List, [], ◌∷◌, ◌++◌, arith, ==_iff, length, All,
}
use export_vault.Text.{Text}
use export_vault.Result.{ok}
use export_vault.World.{Env, World, M, arrive}
use export_vault.World.Laws.{IsStore, IsWilling}
use export_vault.World.Runs.{
  Runs, Runs-pure, Runs-bind, Runs-known, Runs-given, Runs-on_store, Runs-read_store,
}
use export_vault.Storage.{
  chunk_prefix, check_size, same_size, put_object_verified, body_of, get_object_stream, head_object,
  upload_stream, delete_page, after_page, delete_pages, delete_chunks,
}

module _ {e : Env} (quiet : (n : ℕ) → e.fault n ≡ none) (store : IsStore e) (P : World e → Type 0)
    (stable : (w : World e) → P w → P (arrive w)) where
  module _ (key : Text) (body : List ℕ) where
    -- `P`, and the object is there.
    abbrev pub Has : World e → Type 0
    Has w = P w × (e.get_object key w.objects ≡ ok (some body))

    arrive-Has : (w : World e) → Has w → Has (arrive w)
    arrive-Has w (p, there) = (stable w p, there)

    check_size_lem : Runs {e = e} Has (λ _ w. Has w) (check_size key body (some (length body)))
    unfolding check_size same_size
    check_size_lem =
        rw ((==_iff (length body) (length body)).1 refl) (Runs-pure Has _ (length body) (λ w h. h))

    -- A verified write returns, and the object is there.
    pub put_object_verified-Runs :
        IsWilling e
        → ((w : World e) → P w → P (record w { objects = (e.put_object key body w.objects).1 }))
        → Runs {e = e} P (λ _ w. Has w) (put_object_verified key body)
    unfolding put_object_verified
    put_object_verified-Runs willing keeps =
        Runs-bind P (λ _ w. Has w) _ _ _
          (Runs-on_store quiet P stable _ (e.put_object key body) (λ w p. (
            tt,
            willing.put key body w.objects,
            (keeps w p, store.get-put key body w.objects (willing.put key body w.objects)),
          )))
          (λ _.
            Runs-known Has (some (length body)) Has _ _ _
              (Runs-read_store quiet Has arrive-Has _ (e.head_object key)
                (λ w h. (some (length body), store.head key body w.objects h.1, (refl, h))))
              check_size_lem)

    pub upload_stream-Runs :
        IsWilling e
        → ((w : World e) → P w → P (record w { objects = (e.upload key body w.objects).1 }))
        → Runs {e = e} P (λ _ w. Has w) (upload_stream key body)
    unfolding upload_stream
    upload_stream-Runs willing keeps = Runs-on_store quiet P stable _ (e.upload key body) (λ w p. (
      tt,
      willing.upload key body w.objects,
      (keeps w p, store.get-upload key body w.objects (willing.upload key body w.objects)),
    ))

    -- An object that is there is read as it is.
    pub get_object_stream-Runs :
        ((w : World e) → P w → e.get_object key w.objects ≡ ok (some body))
        → Runs {e = e} P (λ b w. (b ≡ body) × P w) (get_object_stream key)
    unfolding get_object_stream body_of
    get_object_stream-Runs there =
        Runs-known P (some body) P _ _ _
          (Runs-read_store quiet P stable _ (e.get_object key)
            (λ w p. (some body, there w p, (refl, p))))
          (Runs-pure P _ body (λ w p. (refl, p)))

    pub head_object-Runs :
        ((w : World e) → P w → e.get_object key w.objects ≡ ok (some body))
        → Runs {e = e} P (λ n w. (n ≡ length body) × P w) (head_object key)
    unfolding head_object
    head_object-Runs there =
        Runs-known P (some (length body)) P _ _ _
          (Runs-read_store quiet P stable _ (e.head_object key)
            (λ w p. (some (length body), store.head key body w.objects (there w p), (refl, p))))
          (Runs-pure P _ (length body) (λ w p. (refl, p)))

  delete_page-Runs :
      IsWilling e
      → (ks : List Text)
      → ((w : World e) → P w → P (record w { objects = (e.delete_objects ks w.objects).1 }))
      → Runs {e = e} P (λ _ w. P w) (delete_page ks)
  unfolding delete_page
  delete_page-Runs willing [] keeps = Runs-pure P _ tt (λ w p. p)
  delete_page-Runs willing (k ∷ ks) keeps =
      Runs-on_store quiet P stable _ (e.delete_objects (k ∷ ks))
        (λ w p. (tt, willing.delete (k ∷ ks) w.objects, keeps w p))

  after_page-Runs :
      (next : Option Text) (n : ℕ) (again : Option Text → ℕ → M e ℕ)
      → next ≡ none
      → Runs {e = e} P (λ _ w. P w) (after_page next n again)
  after_page-Runs next n again last = rw last (Runs-pure P _ n (λ w p. p))

  module _ (willing : IsWilling e) (prefix : Text)
      (keeps : (w : World e) (ks : List Text)
        → All (λ k. (rest : Text) × (k ≡ prefix ++ rest)) ks
        → P w
        → P (record w { objects = (e.delete_objects ks w.objects).1 })) where
    delete_pages-Runs :
        (fuel : ℕ) → 0 < fuel → Runs {e = e} P (λ _ w. P w) (delete_pages fuel prefix none 0)
    unfolding delete_pages
    delete_pages-Runs zero h = absurd (omega arith)
    delete_pages-Runs (suc fuel) h =
        Runs-bind P
          (λ l w.
            ((l.next_token ≡ none) × All (λ k. (rest : Text) × (k ≡ prefix ++ rest)) l.keys) × P w)
          _ _ _
          (Runs-read_store quiet P stable _ (e.list_objects prefix none) (λ w p.
            let (l, listed, last) = willing.list prefix w.objects in
            let under = store.listed prefix none w.objects l listed in
            (l, listed, ((last, under), p))))
          (λ l. Runs-given P _ _ _ (λ facts.
            Runs-bind P (λ _ w. P w) _ _ _
              (delete_page-Runs willing l.keys (λ w p. keeps w l.keys facts.1 p))
              (λ _. after_page-Runs l.next_token _ _ facts.0)))

  -- The chunks are removed, and what no removal of keys under their prefix disturbs is kept.
  pub delete_chunks-Runs :
      IsWilling e
      → 0 < e.max_pages
      → (id : Text)
      → ((w : World e) (ks : List Text)
          → All (λ k. (rest : Text) × (k ≡ chunk_prefix id ++ rest)) ks
          → P w
          → P (record w { objects = (e.delete_objects ks w.objects).1 }))
      → Runs {e = e} P (λ _ w. P w) (delete_chunks id)
  unfolding delete_chunks
  delete_chunks-Runs willing pages id keeps =
      delete_pages-Runs willing (chunk_prefix id) keeps e.max_pages pages
