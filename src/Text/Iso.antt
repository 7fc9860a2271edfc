-- ===== src/Text/Iso.antt =====
-- `Date.prototype.toISOString` of the language, for a time given in milliseconds since 1970.
use export_vault.Prelude.{
  ℕ, ◌+◌, ◌-◌, ◌*◌, ◌/◌, ◌%◌, ◌≡◌, refl, [], ◌∷◌, ◌++◌, ltb, leb, if◌then◌else◌,
}
use export_vault.Text.{Text, codes, pad_start}
use export_vault.Text.Decimal.{to_string}

padded : ℕ → ℕ → Text
padded width n = pad_start width b'0' (to_string n)

-- Four digits, or a sign and six.
year_text : ℕ → Text
year_text y = if leb y 9999 then padded 4 y else b'+' ∷ padded 6 y

-- The civil date of a day counted from 1970-01-01; a year begins in March, so that a leap day is
-- its last.
date_text : ℕ → Text
date_text days =
    let z = days + 719468 in
    let era = z / 146097 in
    let day_of_era = z % 146097 in
    let year_of_era =
      (day_of_era + day_of_era / 36524 - (day_of_era / 1460 + day_of_era / 146096)) / 365 in
    let day_of_year = day_of_era + year_of_era / 100 - (365 * year_of_era + year_of_era / 4) in
    let mp = (5 * day_of_year + 2) / 153 in
    let day = day_of_year - (153 * mp + 2) / 5 + 1 in
    let month = if ltb mp 10 then mp + 3 else mp - 9 in
    let year = year_of_era + era * 400 + (if leb month 2 then 1 else 0) in
    year_text year ++ b'-' ∷ (padded 2 month ++ b'-' ∷ padded 2 day)

time_text : ℕ → Text
time_text ms =
    padded 2 (ms / 3600000)
    ++ b':'
      ∷ (padded 2 (ms / 60000 % 60)
          ++ b':' ∷ (padded 2 (ms / 1000 % 60) ++ b'.' ∷ (padded 3 (ms % 1000) ++ b'Z' ∷ [])))

unfoldable pub to_iso_string : ℕ → Text
unfolding padded year_text date_text time_text pad_start to_string
to_iso_string ms = date_text (ms / 86400000) ++ b'T' ∷ time_text (ms % 86400000)

to_iso_string_tests :
    (to_iso_string 0 ≡ codes "1970-01-01T00:00:00.000Z")
    × (to_iso_string 951782400000 ≡ codes "2000-02-29T00:00:00.000Z")
    × (to_iso_string 1735689599999 ≡ codes "2024-12-31T23:59:59.999Z")
unfolding to_iso_string
to_iso_string_tests = (refl, refl, refl)
