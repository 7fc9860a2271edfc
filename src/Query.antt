-- ===== src/Query.antt =====
-- What the queries of the services ask of the database, as functions on the rows of a table: ORDER BY
-- a key is an insertion sort, and `findMany` with a `take` is a prefix.
pub mod Order
use export_vault.Prelude.{ℕ, List, [], ◌∷◌, leb, if◌then◌else◌}

module _ {A : Type 0} (key : A → ℕ) where
  unfoldable pub insert_by : A → List A → List A
  insert_by r [] = r ∷ []
  insert_by r (x ∷ xs) =
      let rest = insert_by r xs in if leb (key r) (key x) then r ∷ x ∷ xs else x ∷ rest

  -- ORDER BY key ASC
  unfoldable pub order_by : List A → List A
  unfolding insert_by
  order_by [] = []
  order_by (x ∷ xs) = insert_by x (order_by xs)

  unfoldable pub insert_by_desc : A → List A → List A
  insert_by_desc r [] = r ∷ []
  insert_by_desc r (x ∷ xs) =
      let rest = insert_by_desc r xs in if leb (key x) (key r) then r ∷ x ∷ xs else x ∷ rest

  -- ORDER BY key DESC; the order of rows with the same key is the database's, here that of the table
  unfoldable pub order_by_desc : List A → List A
  unfolding insert_by_desc
  order_by_desc [] = []
  order_by_desc (x ∷ xs) = insert_by_desc x (order_by_desc xs)
