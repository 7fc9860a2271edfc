-- ===== src/Audit/Parser.antt =====
-- `parseCsv` of scripts/auditLiveExport.mjs.
use export_vault.Prelude.{Bool, true, false, List, [], ◌∷◌, ◌++◌, ◌==◌, if◌then◌else◌, ◌≡◌, refl}
use export_vault.Text.{Text, codes}

-- if (field !== '' || row.length > 0)
unfoldable pub flush : List (List Text) → List Text → Text → List (List Text)
flush rows [] [] = rows
flush rows row field = rows ++ (row ++ field ∷ []) ∷ []

-- The loop with its variables; the first is `inQuotes`. A doubled quote takes two characters.
unfoldable pub parse_from : Bool → List (List Text) → List Text → Text → Text → List (List Text)
unfolding flush
parse_from q rows row field [] = flush rows row field
parse_from true rows row field (c ∷ []) =
    flush rows row (if c == b'"' then field else field ++ c ∷ [])
parse_from true rows row field (c ∷ d ∷ s) = elim (c == b'"') [
  | true ↦ elim (d == b'"') [
    | true ↦ parse_from true rows row (field ++ b'"' ∷ []) s
    | false ↦ parse_from false rows row field (d ∷ s)
  ]
  | false ↦ parse_from true rows row (field ++ c ∷ []) (d ∷ s)
]
parse_from false rows row field (c ∷ s) = elim (c == b'"') [
  | true ↦ parse_from true rows row field s
  | false ↦ elim (c == b',') [
    | true ↦ parse_from false rows (row ++ field ∷ []) [] s
    | false ↦ elim (c == 10) [
      | true ↦ parse_from false (rows ++ (row ++ field ∷ []) ∷ []) [] [] s
      | false ↦ parse_from false rows row (if c == 13 then field else field ++ c ∷ []) s
    ]
  ]
]

unfoldable pub parse_csv : Text → List (List Text)
unfolding parse_from
parse_csv text = parse_from false [] [] [] text

-- It is lenient: it drops a CR outside quotes, and wants no line feed at the end.
parse_csv_tests :
    (parse_csv (codes "a,\"b\"\"\nc\",\n") ≡ (codes "a" ∷ codes "b\"\nc" ∷ [] ∷ []) ∷ [])
    × (parse_csv (codes "a\r\nb") ≡ (codes "a" ∷ []) ∷ (codes "b" ∷ []) ∷ [])
    × (parse_csv (codes "a\"b,c\"") ≡ (codes "ab,c" ∷ []) ∷ [])
unfolding parse_csv
parse_csv_tests = (refl, refl, refl)
