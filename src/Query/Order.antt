-- ===== src/Query/Order.antt =====
-- Laws of ORDER BY and WHERE.
use export_vault.Prelude.{
  ℕ, ◌≤◌, ◌<◌, ◌≡◌, ◌≢◌, refl, Bool, List, [], ◌∷◌, ◌++◌, arith, leb, if◌then◌else◌, Bool-cases,
  inl, inr, keep, All, All-mono,
}
use export_vault.Query.{insert_by, order_by}

module _ {A : Type 0} (key : A → ℕ) where
  -- Each key is below all the keys behind it.
  abbrev pub IsAscending : List A → Type 0
  IsAscending [] = Unit
  IsAscending (x ∷ xs) = All (λ y. key x < key y) xs × IsAscending xs

  abbrev pub IsSorted : List A → Type 0
  IsSorted [] = Unit
  IsSorted (x ∷ xs) = All (λ y. key x ≤ key y) xs × IsSorted xs

  -- A primary key.
  abbrev pub HasDistinctKeys : List A → Type 0
  HasDistinctKeys [] = Unit
  HasDistinctKeys (x ∷ xs) = All (λ y. key x ≢ key y) xs × HasDistinctKeys xs

  module _ {κ} (P : A → Type κ) where
    pub All-keep : (p : A → Bool) (xs : List A) → All P xs → All P (keep p xs)
    All-keep p [] h = tt
    All-keep p (x ∷ xs) (px, h) = ground (arith, All-keep p xs h)

    All-insert_by : (x : A) (xs : List A) → P x → All P xs → All P (insert_by key x xs)
    unfolding insert_by
    All-insert_by x [] p h = (p, tt)
    All-insert_by x (y ∷ ys) p (q, h) = ground (arith, All-insert_by x ys p h)

    pub All-order_by : (xs : List A) → All P xs → All P (order_by key xs)
    unfolding order_by
    All-order_by [] h = tt
    All-order_by (x ∷ xs) (p, h) = All-insert_by x (order_by key xs) p (All-order_by xs h)

  insert_by-IsSorted : (x : A) (xs : List A) → IsSorted xs → IsSorted (insert_by key x xs)
  unfolding insert_by
  insert_by-IsSorted x [] h = (tt, tt)
  insert_by-IsSorted x (y ∷ ys) (below, h) = elim (Bool-cases (leb (key x) (key y))) [
    | inl le ↦
        let here : key x ≤ key y = ground arith in
        rw le (
          (here, All-mono (λ z. key y ≤ key z) (λ z. key x ≤ key z) (λ z q. omega arith) ys below),
          (below, h),
        )
    | inr gt ↦
        rw gt
          (All-insert_by (λ z. key y ≤ key z) x ys (ground arith) below, insert_by-IsSorted x ys h)
  ]

  pub order_by-IsSorted : (xs : List A) → IsSorted (order_by key xs)
  unfolding order_by
  order_by-IsSorted [] = tt
  order_by-IsSorted (x ∷ xs) = insert_by-IsSorted x (order_by key xs) (order_by-IsSorted xs)

  insert_by-IsAscending :
      (x : A) (xs : List A)
      → All (λ y. key x ≢ key y) xs
      → IsAscending xs
      → IsAscending (insert_by key x xs)
  unfolding insert_by
  insert_by-IsAscending x [] d h = (tt, tt)
  insert_by-IsAscending x (y ∷ ys) (ne, d) (below, h) = elim (Bool-cases (leb (key x) (key y))) [
    | inl le ↦
        let here : key x < key y = ground arith in
        rw le (
          (here, All-mono (λ z. key y < key z) (λ z. key x < key z) (λ z q. omega arith) ys below),
          (below, h),
        )
    | inr gt ↦ rw gt (
      All-insert_by (λ z. key y < key z) x ys (ground arith) below,
      insert_by-IsAscending x ys d h,
    )
  ]

  -- With a primary key the order is strict.
  pub order_by-IsAscending : (xs : List A) → HasDistinctKeys xs → IsAscending (order_by key xs)
  unfolding order_by
  order_by-IsAscending [] d = tt
  order_by-IsAscending (x ∷ xs) (ne, d) =
      insert_by-IsAscending x (order_by key xs) (All-order_by (λ y. key x ≢ key y) xs ne)
        (order_by-IsAscending xs d)

  pub keep-HasDistinctKeys :
      (p : A → Bool) (xs : List A) → HasDistinctKeys xs → HasDistinctKeys (keep p xs)
  keep-HasDistinctKeys p [] d = tt
  keep-HasDistinctKeys p (x ∷ xs) (ne, d) =
      ground (arith, keep-HasDistinctKeys p xs d, All-keep (λ y. key x ≢ key y) p xs ne)

  insert_by_least :
      (x : A) (xs : List A) → All (λ y. key x ≤ key y) xs → insert_by key x xs ≡ x ∷ xs
  unfolding insert_by
  insert_by_least x [] h = refl
  insert_by_least x (y ∷ ys) (le, h) = ground arith

  keep-insert_by :
      (p : A → Bool) (x : A) (xs : List A)
      → IsSorted xs
      → keep p (insert_by key x xs) ≡ (if p x then insert_by key x (keep p xs) else keep p xs)
  unfolding insert_by
  keep-insert_by p x [] h = refl
  keep-insert_by p x (y ∷ ys) (below, h) = ground (
    arith,
    keep-insert_by p x ys h,
    λ (le : key x ≤ key y). insert_by_least x (keep p ys) (
        All-keep (λ z. key x ≤ key z) p ys
          (All-mono (λ z. key y ≤ key z) (λ z. key x ≤ key z) (λ z q. omega arith) ys below)),
  )

  -- A filter before the sort is a filter behind it.
  pub keep-order_by :
      (p : A → Bool) (xs : List A) → keep p (order_by key xs) ≡ order_by key (keep p xs)
  unfolding order_by
  keep-order_by p [] = refl
  keep-order_by p (x ∷ xs) =
      ground
        (arith, keep-insert_by p x (order_by key xs) (order_by-IsSorted xs), keep-order_by p xs)

  -- A row behind all the others is inserted at the end.
  pub insert_by_greatest :
      (x : A) (xs : List A) → All (λ y. key y < key x) xs → insert_by key x xs ≡ xs ++ x ∷ []
  unfolding insert_by
  insert_by_greatest x [] h = refl
  insert_by_greatest x (y ∷ ys) (lt, h) = ground (arith, insert_by_greatest x ys h)

  module _ {κ} (P : A → Type κ) where
    All-of_insert_by : (x : A) (xs : List A) → All P (insert_by key x xs) → P x × All P xs
    unfolding insert_by
    All-of_insert_by x [] (p, h) = (p, tt)
    All-of_insert_by x (y ∷ ys) h = elim (Bool-cases (leb (key x) (key y))) [
      | inl le ↦ rw le at h
      | inr gt ↦
          let (q, rest) : All P (y ∷ insert_by key x ys) = rw gt at h in
          let (p, others) = All-of_insert_by x ys rest in (p, (q, others))
    ]

    pub All-of_order_by : (xs : List A) → All P (order_by key xs) → All P xs
    unfolding order_by
    All-of_order_by [] h = tt
    All-of_order_by (x ∷ xs) h =
        let (p, rest) = All-of_insert_by x (order_by key xs) h in (p, All-of_order_by xs rest)
