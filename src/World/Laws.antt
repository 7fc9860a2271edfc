-- ===== src/World/Laws.antt =====
-- What the exporter relies on of code that is not in the repository, as its documentation states it.
use export_vault.Prelude.{ℕ, ◌≡◌, ◌≢◌, Option, none, some, List, ◌∷◌, ◌++◌, map, All, length}
use export_vault.Text.{Text}
use export_vault.Text.Utf8.{utf8}
use export_vault.Csv.{column_name, csv_columns, csv_header}
use export_vault.Csv.Rfc.{read}
use export_vault.Result.{ok}
use export_vault.World.{Env, Listing}

-- The object store: an object that was put is found as it was put, no other object
-- changes, and a listing holds keys under its prefix alone.
pub record IsStore (e : Env) : Type 0 where
  pub get-put :
      (k : Text) (body : List ℕ) (o : e.Objects)
      → (e.put_object k body o).0 ≡ ok tt
      → e.get_object k (e.put_object k body o).1 ≡ ok (some body)
  pub get-put_ne :
      (k j : Text) (body : List ℕ) (o : e.Objects)
      → k ≢ j
      → e.get_object j (e.put_object k body o).1 ≡ e.get_object j o
  pub get-upload :
      (k : Text) (body : List ℕ) (o : e.Objects)
      → (e.upload k body o).0 ≡ ok tt
      → e.get_object k (e.upload k body o).1 ≡ ok (some body)
  pub get-upload_ne :
      (k j : Text) (body : List ℕ) (o : e.Objects)
      → k ≢ j
      → e.get_object j (e.upload k body o).1 ≡ e.get_object j o
  pub head :
      (k : Text) (body : List ℕ) (o : e.Objects)
      → e.get_object k o ≡ ok (some body)
      → e.head_object k o ≡ ok (some (length body))
  pub get-delete_ne :
      (ks : List Text) (j : Text) (o : e.Objects)
      → All (λ k. k ≢ j) ks
      → e.get_object j (e.delete_objects ks o).1 ≡ e.get_object j o
  pub listed :
      (prefix : Text) (token : Option Text) (o : e.Objects) (l : Listing)
      → e.list_objects prefix token o ≡ ok l
      → All (λ k. (rest : Text) × (k ≡ prefix ++ rest)) l.keys

-- A store that accepts what it is sent, and that lists the keys under a prefix on one page.
pub record IsWilling (e : Env) : Type 0 where
  pub put : (k : Text) (body : List ℕ) (o : e.Objects) → (e.put_object k body o).0 ≡ ok tt
  pub upload : (k : Text) (body : List ℕ) (o : e.Objects) → (e.upload k body o).0 ≡ ok tt
  pub delete : (ks : List Text) (o : e.Objects) → (e.delete_objects ks o).0 ≡ ok tt
  pub list :
      (prefix : Text) (o : e.Objects)
      → (l : Listing) × (e.list_objects prefix none o ≡ ok l) × (l.next_token ≡ none)

-- csv-parse: a file that begins with the header of the nine columns, and that RFC 4180 reads as rows
-- of nine cells, is read as these rows.
pub record IsParser (e : Env) : Type 0 where
  pub reads :
      (s : Text) (rows : List (List Text))
      → read (csv_header ++ s) ≡ some (map column_name csv_columns ∷ rows)
      → All (λ row. length row ≡ length csv_columns) rows
      → e.parse (utf8 (csv_header ++ s)) ≡ ok (map column_name csv_columns ∷ rows)
