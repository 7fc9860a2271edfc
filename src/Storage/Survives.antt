-- ===== src/Storage/Survives.antt =====
-- The calls of server/src/services/storage.service.ts, whatever of them fails.
use export_vault.Prelude.{
  ℕ, zero, suc, ◌≡◌, ◌∙◌, sym, not, Option, none, some, List, [], ◌∷◌, ◌++◌, length, All,
}
use export_vault.Text.{Text}
use export_vault.Result.{ok}
use export_vault.World.{Env, World, M, arrive}
use export_vault.World.Laws.{IsStore}
use export_vault.World.Survives.{
  Survives, Leaves-result, Survives-pure, Survives-throw, Survives-exit, Survives-if,
  Survives-given, Survives-bind, Survives-on_store, Survives-read_store,
}
use export_vault.Storage.{
  chunk_prefix, check_size, same_size, put_object_verified, body_of, get_object_stream, head_object,
  upload_stream, delete_page, delete_pages, delete_chunks, after_page,
}

module _ {e : Env} (store : IsStore e) (I P : World e → Type 0)
    (stable : (w : World e) → P w → P (arrive w)) (fails : (w : World e) → P w → I w) where
  module _ (key : Text) (body : List ℕ) where
    -- `P`, and the object is there.
    abbrev There : World e → Type 0
    There w = P w × (e.get_object key w.objects ≡ ok (some body))

    check_size-Survives :
        (size : Option ℕ) → Survives {e = e} There I (λ _ w. There w) (check_size key body size)
    unfolding check_size
    check_size-Survives size =
        Survives-if I There (λ _ w. There w) (not (same_size size body)) _ _
          (λ _. Survives-throw I There _ _ (λ w h. fails w h.0))
          (λ _. Survives-pure I There _ (length body) (λ w h. h))

    -- If a verified write returns, the object is there.
    pub put_object_verified-Survives :
        ((w : World e) → P w → P (record w { objects = (e.put_object key body w.objects).1 }))
        → Survives {e = e} P I (λ _ w. There w) (put_object_verified key body)
    unfolding put_object_verified
    put_object_verified-Survives keeps =
        Survives-bind I P (λ _ w. There w) _ _ _
          (Survives-on_store I P stable fails _ (e.put_object key body) (λ a w h. fails w h.0)
            (λ w p.
              Leaves-result I _ (e.put_object key body w.objects).0 _ (fails _ (keeps w p))
                (λ a good. (keeps w p, store.get-put key body w.objects good))))
          (λ _.
            Survives-bind I There (λ _ w. There w) _ _ _
              (Survives-read_store I There (λ w h. (stable w h.0, h.1)) (λ w h. fails w h.0) _
                (e.head_object key) (λ a w h. fails w h.0)
                (λ w h. Leaves-result I _ (e.head_object key w.objects) w (fails w h.0) (λ a _. h)))
              check_size-Survives)

    -- If an upload returns, the object is there.
    pub upload_stream-Survives :
        ((w : World e) → P w → P (record w { objects = (e.upload key body w.objects).1 }))
        → Survives {e = e} P I (λ _ w. There w) (upload_stream key body)
    unfolding upload_stream
    upload_stream-Survives keeps =
        Survives-on_store I P stable fails _ (e.upload key body) (λ a w h. fails w h.0)
          (λ w p.
            Leaves-result I _ (e.upload key body w.objects).0 _ (fails _ (keeps w p))
              (λ a good. (keeps w p, store.get-upload key body w.objects good)))

    body_of-Survives :
        (found : Option (List ℕ))
        → ok found ≡ ok (some body)
        → Survives {e = e} P I (λ b w. (b ≡ body) × P w) (body_of key found)
    unfolding body_of
    body_of-Survives none same = Survives-throw I P _ _ fails
    body_of-Survives (some b) same = Survives-pure I P _ b (λ w p. (cc, p))

    -- If the read of an object that is there returns, it returns the object.
    pub get_object_stream-Survives :
        ((w : World e) → P w → e.get_object key w.objects ≡ ok (some body))
        → Survives {e = e} P I (λ b w. (b ≡ body) × P w) (get_object_stream key)
    unfolding get_object_stream
    get_object_stream-Survives there =
        Survives-bind I P (λ o w. (ok o ≡ ok (some body)) × P w) _ _ _
          (Survives-read_store I P stable fails _ (e.get_object key) (λ a w h. fails w h.1)
            (λ w p.
              Leaves-result I _ (e.get_object key w.objects) w (fails w p)
                (λ o good. (sym good ∙ there w p, p))))
          (λ o. Survives-given I P _ _ (body_of-Survives o))

  pub head_object-Survives : (key : Text) → Survives {e = e} P I (λ _ w. P w) (head_object key)
  unfolding head_object
  head_object-Survives key =
      Survives-bind I P (λ _ w. P w) _ _ _
        (Survives-read_store I P stable fails _ (e.head_object key) (λ a w p. fails w p)
          (λ w p. Leaves-result I _ (e.head_object key w.objects) w (fails w p) (λ a _. p)))
        (λ o. Survives-pure I P _ _ (λ w p. p))

  delete_page-Survives :
      (ks : List Text)
      → ((w : World e) → P w → P (record w { objects = (e.delete_objects ks w.objects).1 }))
      → Survives {e = e} P I (λ _ w. P w) (delete_page ks)
  unfolding delete_page
  delete_page-Survives [] keeps = Survives-pure I P _ tt (λ w p. p)
  delete_page-Survives (k ∷ ks) keeps =
      Survives-on_store I P stable fails _ (e.delete_objects (k ∷ ks)) (λ a w p. fails w p)
        (λ w p.
          Leaves-result I _ (e.delete_objects (k ∷ ks) w.objects).0 _ (fails _ (keeps w p))
            (λ a _. keeps w p))

  module _ (prefix : Text)
      (keeps : (w : World e) (ks : List Text)
        → All (λ k. (rest : Text) × (k ≡ prefix ++ rest)) ks
        → P w
        → P (record w { objects = (e.delete_objects ks w.objects).1 })) where
    after_page-Survives :
        (next : Option Text) (n : ℕ) (again : Option Text → ℕ → M e ℕ)
        → ((t : Option Text) (m : ℕ) → Survives {e = e} P I (λ _ w. P w) (again t m))
        → Survives {e = e} P I (λ _ w. P w) (after_page next n again)
    after_page-Survives none n again s = Survives-pure I P _ n (λ w p. p)
    after_page-Survives (some t) n again s = s (some t) n

    delete_pages-Survives :
        (fuel : ℕ) (token : Option Text) (n : ℕ)
        → Survives {e = e} P I (λ _ w. P w) (delete_pages fuel prefix token n)
    unfolding delete_pages
    delete_pages-Survives zero token n = Survives-exit I P _ fails
    delete_pages-Survives (suc fuel) token n =
        Survives-bind I P (λ l w. All (λ k. (rest : Text) × (k ≡ prefix ++ rest)) l.keys × P w) _ _
          _
          (Survives-read_store I P stable fails _ (e.list_objects prefix token)
            (λ a w h. fails w h.1)
            (λ w p.
              Leaves-result I _ (e.list_objects prefix token w.objects) w (fails w p)
                (λ l good. (store.listed prefix token w.objects l good, p))))
          (λ l. Survives-given I P _ _ (λ under.
            Survives-bind I P (λ _ w. P w) _ _ _
              (delete_page-Survives l.keys (λ w p. keeps w l.keys under p))
              (λ _. after_page-Survives l.next_token _ _ (λ t m. delete_pages-Survives fuel t m))))

  -- What no removal of keys under the prefix of the chunks disturbs is kept.
  pub delete_chunks-Survives :
      (id : Text)
      → ((w : World e) (ks : List Text)
          → All (λ k. (rest : Text) × (k ≡ chunk_prefix id ++ rest)) ks
          → P w
          → P (record w { objects = (e.delete_objects ks w.objects).1 }))
      → Survives {e = e} P I (λ _ w. P w) (delete_chunks id)
  unfolding delete_chunks
  delete_chunks-Survives id keeps = delete_pages-Survives (chunk_prefix id) keeps e.max_pages none 0
