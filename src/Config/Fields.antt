-- ===== src/Config/Fields.antt =====
-- The kinds of fields in the schema of server/src/config/env.ts. A variable that is not set is `none`.
use export_vault.Prelude.{
  ℕ, ◌+◌, Bool, true, false, ◌||◌, Option, none, some, List, [], ◌∷◌, ◌++◌, ltb, ◌==◌,
  if◌then◌else◌,
}
use export_vault.Prelude.Int.{ℤ, pos, negsuc}
use export_vault.Text.{Text, codes, text_eq}
use export_vault.Text.BigInt.{trim}
use export_vault.Auth.{to_lower_case, behind}
use export_vault.Config.Checked.{
  Issue, IssueKind, Checked, valid, invalid, complain, invalid_type, not_integer,
  invalid_enum_value, custom, too_small, too_big,
}

-- What `Number(value)` may give: a whole number, a number strictly between the whole number and the
-- next one, an infinity with its sign, or NaN.
pub data JsNumber : Type 0 where
  whole above : ℤ → JsNumber
  infinite : (negative : Bool) → JsNumber
  nan : JsNumber

abbrev pub issue : Text → IssueKind → Issue
issue path kind = record { path = path; kind = kind }

abbrev pub issue_if : Bool → Issue → List Issue
issue_if b i = if b then i ∷ [] else []

-- `.max(limit)`, where the schema has it
unfoldable pub past : Option ℕ → ℕ → Bool
past none n = false
past (some limit) n = ltb limit n

unfoldable pub limit_of : Option ℕ → ℕ
limit_of none = 0
limit_of (some limit) = limit

-- z.coerce.number().int().positive(), and perhaps .max(limit), at what the coercion gave. A number
-- above `n` and below `n + 1` is past the limit if `n + 1` is.
unfoldable pub positive_number : Text → Option ℕ → JsNumber → Checked ℕ
unfolding past limit_of
positive_number path max nan = invalid (issue path invalid_type) []
positive_number path max (whole (pos n)) = complain n (
    issue_if (n == 0) (issue path (too_small 0))
    ++ issue_if (past max n) (issue path (too_big (limit_of max))))
positive_number path max (whole (negsuc n)) = invalid (issue path (too_small 0)) []
positive_number path max (above (pos n)) =
    invalid (issue path not_integer)
      (issue_if (past max (n + 1)) (issue path (too_big (limit_of max))))
positive_number path max (above (negsuc n)) =
    invalid (issue path not_integer) (issue path (too_small 0) ∷ [])
positive_number path max (infinite true) =
    invalid (issue path not_integer) (issue path (too_small 0) ∷ [])
positive_number path none (infinite false) = invalid (issue path not_integer) []
positive_number path (some limit) (infinite false) =
    invalid (issue path not_integer) (issue path (too_big limit) ∷ [])

-- z.string().min(1)
unfoldable pub some_text : Text → Option Text → Checked Text
some_text path none = invalid (issue path invalid_type) []
some_text path (some []) = invalid (issue path (too_small 1)) []
some_text path (some (c ∷ s)) = valid (c ∷ s)

-- z.string().min(1).default(d), and z.string().default(d)
unfoldable pub some_text_or : Text → Text → Option Text → Checked Text
unfolding some_text
some_text_or d path none = valid d
some_text_or d path (some s) = some_text path (some s)

abbrev pub text_or : Text → Option Text → Text
text_or d none = d
text_or d (some s) = s

-- The length of a string in JavaScript: a code point past the first plane counts twice.
unfoldable pub utf16_length : Text → ℕ
utf16_length [] = 0
utf16_length (c ∷ s) = (if ltb 0xffff c then 2 else 1) + utf16_length s

-- z.string().min(32).optional()
unfoldable pub long_text_if_set : ℕ → Text → Option Text → Checked (Option Text)
unfolding utf16_length
long_text_if_set least path none = valid none
long_text_if_set least path (some s) =
    if ltb (utf16_length s) least then invalid (issue path (too_small least)) [] else valid (some s)

-- v === '1' || v?.toLowerCase() === 'true'
unfoldable pub booleanish : Option Text → Bool
unfolding text_eq to_lower_case
booleanish none = false
booleanish (some s) = text_eq s (codes "1") || text_eq (to_lower_case s) (codes "true")

-- v === undefined || v === '' || v === '1' || v?.toLowerCase() === 'true'
unfoldable pub on_unless_said : Option Text → Bool
unfolding booleanish
on_unless_said none = true
on_unless_said (some []) = true
on_unless_said (some (c ∷ s)) = booleanish (some (c ∷ s))

some_unless_empty : Text → Option Text
some_unless_empty [] = none
some_unless_empty (c ∷ s) = some (c ∷ s)

-- v?.trim() || undefined
unfoldable pub trimmed : Option Text → Option Text
unfolding some_unless_empty trim
trimmed none = none
trimmed (some s) = some_unless_empty (trim s)

is_some : Option Text → Bool
is_some none = false
is_some (some s) = true

-- /^https?:\/\//.test(v)
unfoldable pub is_http_url : Text → Bool
unfolding is_some behind
is_http_url s = is_some (behind (codes "http://") s) || is_some (behind (codes "https://") s)

-- v?.trim() || undefined, refined
unfoldable pub url_if_set : Text → Option Text → Checked (Option Text)
unfolding is_http_url
url_if_set path none = valid none
url_if_set path (some s) = if is_http_url s then valid (some s) else invalid (issue path custom) []

unfoldable pub http_url_if_set : Text → Option Text → Checked (Option Text)
unfolding url_if_set trimmed
http_url_if_set path v = url_if_set path (trimmed v)

-- z.enum(values).default(d), for values with a name
unfoldable pub one_of {ℓ} : {A : Type ℓ} → List (Text × A) → Text → Text → Checked A
unfolding text_eq
one_of [] path s = invalid (issue path invalid_enum_value) []
one_of ((name, a) ∷ values) path s = if text_eq name s then valid a else one_of values path s
