-- ===== src/Protocol/Fields.antt =====
-- How src/protocol.rs reads the fields of a response.
use lnurlcash_core.Common.{
  ℕ, Bool, false, not, ◌&&◌, ◌||◌, ◌%◌, List, [], ◌∷◌, Option, none, some, leb, ◌==◌, if◌then◌else◌,
  is_some_and, and_then, option_filter, unwrap_or, all, map, ok, err,
}
use lnurlcash_core.Common.Text.{
  Text, codes, text_eq, byte_len, lower, trim, starts_with, is_ascii_digit, is_ascii_hexdigit,
}
use lnurlcash_core.Common.Decimal.{max_u64, scan_digits}
use lnurlcash_core.Errors.{Error, service_rejected, Result, classify_note_error}
use lnurlcash_core.Deps.{JsonApi}

unfoldable pub is_compressed_pubkey : Text → Bool
is_compressed_pubkey value =
    let key = lower (trim value) in
    byte_len key == 66
    && (starts_with (codes "02") key || starts_with (codes "03") key)
    && all is_ascii_hexdigit key

-- The strings of an array that are not empty.
abbrev pub present_strings : List (Option Text) → List Text
present_strings [] = []
present_strings (none ∷ xs) = present_strings xs
present_strings (some [] ∷ xs) = present_strings xs
present_strings (some (c ∷ s) ∷ xs) = (c ∷ s) ∷ present_strings xs

abbrev pub not_empty : List Text → Option (List Text)
not_empty [] = none
not_empty (x ∷ xs) = some (x ∷ xs)

-- The last day of a month, `none` if there is no such month.
unfoldable pub last_day : ℕ → ℕ → Option ℕ
last_day year month =
    let leap = year % 4 == 0 && (not (year % 100 == 0) || year % 400 == 0) in
    if month == 1
      || month == 3
      || month == 5
      || month == 7
      || month == 8
      || month == 10
      || month == 12
    then some 31
    else if month == 4 || month == 6 || month == 9 || month == 11
    then some 30
    else if month == 2
    then some (if leap then 29 else 28)
    else none

-- `YYYY-MM-DD`, a day of the calendar.
unfoldable pub is_iso_date : Text → Bool
unfolding last_day
is_iso_date (a ∷ b ∷ c ∷ d ∷ x ∷ e ∷ f ∷ y ∷ g ∷ h ∷ []) =
    x == b'-'
    && y == b'-'
    && all is_ascii_digit (a ∷ b ∷ c ∷ d ∷ e ∷ f ∷ g ∷ h ∷ [])
    && is_some_and
        (and_then (scan_digits max_u64 (a ∷ b ∷ c ∷ d ∷ []))
          λ year. and_then (scan_digits max_u64 (e ∷ f ∷ [])) (last_day year))
        (λ last. is_some_and (scan_digits max_u64 (g ∷ h ∷ [])) (λ day. leb 1 day && leb day last))
is_iso_date _ = false

-- Only a refusal is passed on, with its reason read as that of a note.
abbrev pub reclassify : Error → Result (Unit {0})
reclassify (service_rejected reason) = err (classify_note_error reason)
reclassify _ = ok tt

module _ {Value : Type 0} (json : JsonApi Value) where
  open json use {get, value_str, value_u64, value_array, is_boolean}

  unfoldable pub as_str : Value → Text → Option Text
  as_str body key = and_then (get body key) value_str

  -- `body.get(key).and_then(|v| v.as_str()) == Some(text)`
  unfoldable pub field_is : Value → Text → Text → Bool
  unfolding as_str
  field_is body key text = is_some_and (as_str body key) (λ s. text_eq s text)

  unfoldable pub as_str_list : Value → Text → Option (List Text)
  as_str_list body key =
      and_then (and_then (get body key) value_array)
        (λ items. not_empty (present_strings (map value_str items)))

  unfoldable pub as_iso_date : Value → Text → Option Text
  unfolding as_str is_iso_date
  as_iso_date body key = option_filter (as_str body key) is_iso_date

  unfoldable pub as_u64 : Value → Text → Option ℕ
  as_u64 body key = and_then (get body key) (λ v. if is_boolean v then none else value_u64 v)

  unfoldable pub reject_error : Value → Result (Unit {0})
  unfolding as_str field_is
  reject_error body =
      if field_is body (codes "status") (codes "ERROR")
      then err (service_rejected (unwrap_or (as_str body (codes "reason")) []))
      else ok tt

  -- `if let Err(Error::ServiceRejected(reason)) = reject_error(body) { return Err(classify…) }`
  unfoldable pub reject_note_error : Value → Result (Unit {0})
  unfolding reject_error
  reject_note_error body = elim (reject_error body) [ ok u ↦ ok u | err e ↦ reclassify e ]
