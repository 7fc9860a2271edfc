-- ===== src/Tests/Laws.antt =====
-- The small installation keeps what the exporter relies on of the object store and of csv-parse.
use export_vault.Prelude.{
  ℕ, ◌≡◌, ◌≢◌, ◌∙◌, refl, ap, subst, true, Bool-cases, inl, inr, Option, none, some, List, [], ◌∷◌,
  ◌++◌, arith, length, All,
}
use export_vault.Text.{Text, text_eq, text_eq_iff}
use export_vault.Text.Utf8Reader.{decode-utf8}
use export_vault.Csv.Rfc.{read}
use export_vault.Result.{ok, ok_injective}
use export_vault.World.{Listing, Fault}
use export_vault.World.Laws.{IsStore, IsWilling, IsParser}
use export_vault.Tests.Fixture.{
  Objects, lookup, without, without_all, starts_with, keys_with, parsed, size_of, body_found,
  installation,
}

lookup-without : (k j : Text) (os : Objects) → k ≢ j → lookup j (without k os) ≡ lookup j os
unfolding lookup without
lookup-without k j [] other = refl
lookup-without k j ((i, v) ∷ os) other =
    ground (arith, lookup-without k j os, text_eq_iff i k, text_eq_iff i j)

lookup-put : (k : Text) (v : List ℕ) (os : Objects) → lookup k ((k, v) ∷ os) ≡ some v
unfolding lookup
lookup-put k v os = rw ((text_eq_iff k k).1 refl) refl

lookup-put_ne :
    (k j : Text) (v : List ℕ) (os : Objects)
    → k ≢ j
    → lookup j ((k, v) ∷ without k os) ≡ lookup j os
unfolding lookup
lookup-put_ne k j v os other = ground (arith, lookup-without k j os, text_eq_iff k j)

lookup-without_all :
    (ks : List Text) (j : Text) (os : Objects)
    → All (λ k. k ≢ j) ks
    → lookup j (without_all ks os) ≡ lookup j os
unfolding without_all
lookup-without_all [] j os h = refl
lookup-without_all (k ∷ ks) j os (other, h) =
    lookup-without_all ks j (without k os) h ∙ lookup-without k j os other

size_of-lookup :
    (o : Option (List ℕ)) (body : List ℕ)
    → body_found o ≡ ok (some body)
    → size_of o ≡ ok (some (length body))
unfolding body_found size_of
size_of-lookup none body h = ground arith
size_of-lookup (some b) body h = ground arith

starts_with_split :
    (prefix s : Text) → starts_with prefix s ≡ true → (rest : Text) × (s ≡ prefix ++ rest)
unfolding starts_with text_eq
starts_with_split [] s h = (s, refl)
starts_with_split (c ∷ p) [] h = ground arith
starts_with_split (c ∷ p) (d ∷ s) h =
    let (rest, split) = starts_with_split p s (ground arith) in
    let same : d ≡ c = ground arith in (rest, rw (same, split) refl)

keys_with-All :
    (prefix : Text) (os : Objects)
    → All (λ k. (rest : Text) × (k ≡ prefix ++ rest)) (keys_with prefix os)
unfolding keys_with
keys_with-All prefix [] = tt
keys_with-All prefix ((j, v) ∷ os) = elim (Bool-cases (starts_with prefix j)) [
  | inl under ↦ rw under (starts_with_split prefix j under, keys_with-All prefix os)
  | inr not_under ↦ rw not_under (keys_with-All prefix os)
]

pub installation-IsStore : (faults : ℕ → Option Fault) → IsStore (installation faults)
unfolding installation body_found
installation-IsStore faults = record {
  get-put = λ k body o h. ap body_found (lookup-put k body (without k o));
  get-put_ne = λ k j body o other. ap body_found (lookup-put_ne k j body o other);
  get-upload = λ k body o h. ap body_found (lookup-put k body (without k o));
  get-upload_ne = λ k j body o other. ap body_found (lookup-put_ne k j body o other);
  head = λ k body o h. size_of-lookup (lookup k o) body h;
  get-delete_ne = λ ks j o others. ap body_found (lookup-without_all ks j o others);
  listed = λ prefix token o l same.
      subst (All (λ k. (rest : Text) × (k ≡ prefix ++ rest)))
        (ap (λ (m : Listing). m.keys) (ok_injective same)) (keys_with-All prefix o);
}

pub installation-IsWilling : (faults : ℕ → Option Fault) → IsWilling (installation faults)
unfolding installation
installation-IsWilling faults = record {
  put = λ k body o. refl;
  upload = λ k body o. refl;
  delete = λ ks o. refl;
  list = λ prefix o. (record { keys = keys_with prefix o; next_token = none }, refl, refl);
}

pub installation-IsParser : (faults : ℕ → Option Fault) → IsParser (installation faults)
unfolding installation parsed
installation-IsParser faults = record {
  reads = λ s rows h widths. ap (λ t. parsed (read t)) (decode-utf8 _) ∙ ap parsed h;
}
