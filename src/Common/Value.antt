-- ===== src/Common/Value.antt =====
-- `Value` and `parse_datetime` of common/common.h. Floats are their bytes, and the conversion of an
-- integer to a float is a parameter; strings are bytes.
use claude_opus.Base.{
  ℕ, suc, ◌+◌, ◌-◌, ◌*◌, ◌%◌, ℤ, pos, negsuc, Bool, true, not, ◌&&◌, ◌||◌, ltb, leb, ◌==◌, ltb_ℤ,
  if◌then◌else◌, Option, none, some, List, [], ◌∷◌, length, drop, head_byte, write, zeros,
}
use claude_opus.Errors.{Error, Result, ok, throw}
use claude_opus.LogRecord.{put_int32, put_int64}
use claude_opus.Index.Columns.{ColType}

-- `s[p]`, of a string that is long enough.
abbrev pub char_at : List ℕ → ℕ → ℕ
char_at s p = head_byte (drop p s)

abbrev pub digit_at : List ℕ → ℕ → ℕ
digit_at s p = char_at s p - 48

abbrev is_digit : ℕ → Bool
is_digit c = leb 48 c && leb c 57

abbrev are_digits : List ℕ → List ℕ → Bool
are_digits s [] = true
are_digits s (p ∷ ps) = is_digit (char_at s p) && are_digits s ps

abbrev two_digits : List ℕ → ℕ → ℕ
two_digits s p = digit_at s p * 10 + digit_at s (suc p)

unfoldable pub has_form : List ℕ → Bool
has_form s =
    (length s == 19)
    && (char_at s 4 == 45)
    && (char_at s 7 == 45)
    && (char_at s 10 == 32)
    && (char_at s 13 == 58)
    && (char_at s 16 == 58)
    && are_digits s (0 ∷ 1 ∷ 2 ∷ 3 ∷ 5 ∷ 6 ∷ 8 ∷ 9 ∷ 11 ∷ 12 ∷ 14 ∷ 15 ∷ 17 ∷ 18 ∷ [])

unfoldable pub is_leap : ℕ → Bool
is_leap year = ((year % 4 == 0) && not (year % 100 == 0)) || (year % 400 == 0)

abbrev month_days : List ℕ
month_days = 31 ∷ 28 ∷ 31 ∷ 30 ∷ 31 ∷ 30 ∷ 31 ∷ 31 ∷ 30 ∷ 31 ∷ 30 ∷ 31 ∷ []

unfoldable pub days_in : ℕ → ℕ → ℕ
unfolding is_leap
days_in year month =
    if (month == 2) && is_leap year then 29 else head_byte (drop (month - 1) month_days)

pub record DateTime : Type 0 where
  pub year : ℕ
  pub month : ℕ
  pub day : ℕ
  pub hour : ℕ
  pub minute : ℕ
  pub second : ℕ

unfoldable pub fields_of : List ℕ → DateTime
fields_of s = record {
  year = digit_at s 0 * 1000 + digit_at s 1 * 100 + digit_at s 2 * 10 + digit_at s 3;
  month = two_digits s 5;
  day = two_digits s 8;
  hour = two_digits s 11;
  minute = two_digits s 14;
  second = two_digits s 17;
}

unfoldable pub is_date : DateTime → Bool
unfolding days_in
is_date d =
    leb 1000 d.year
    && leb d.year 9999
    && leb 1 d.month
    && leb d.month 12
    && leb d.hour 23
    && leb d.minute 59
    && leb d.second 59
    && leb 1 d.day
    && leb d.day (days_in d.year d.month)

unfoldable pub encode : DateTime → ℕ
encode d =
    ((((d.year * 100 + d.month) * 100 + d.day) * 100 + d.hour) * 100 + d.minute) * 100 + d.second

unfoldable pub parse_datetime : List ℕ → Option ℕ
unfolding has_form fields_of is_date encode
parse_datetime s = if has_form s && is_date (fields_of s) then some (encode (fields_of s)) else none

pub data Value : Type 0 where
  int_val : ℤ → Value
  float_val : List ℕ → Value
  bigint_val : ℤ → Value
  datetime_val : ℤ → Value
  str_val : List ℕ → Value

unfoldable pub type_of : Value → ColType
type_of (int_val v) = ColType.type_int
type_of (float_val v) = ColType.type_float
type_of (bigint_val v) = ColType.type_bigint
type_of (datetime_val v) = ColType.type_datetime
type_of (str_val v) = ColType.type_string

abbrev pub int_max : ℤ
int_max = pos 2147483647

abbrev pub int_min : ℤ
int_min = negsuc 2147483647

pub as_datetime : Option ℕ → Option Value
as_datetime none = none
as_datetime (some v) = some (datetime_val (pos v))

module _ (to_float : ℤ → List ℕ) where
  unfoldable pub cast_to : ColType → Value → Option Value
  unfolding parse_datetime as_datetime
  cast_to ColType.type_int (int_val v) = some (int_val v)
  cast_to ColType.type_float (float_val v) = some (float_val v)
  cast_to ColType.type_bigint (bigint_val v) = some (bigint_val v)
  cast_to ColType.type_datetime (datetime_val v) = some (datetime_val v)
  cast_to ColType.type_string (str_val v) = some (str_val v)
  cast_to ColType.type_bigint (int_val v) = some (bigint_val v)
  cast_to ColType.type_int (bigint_val v) =
      if ltb_ℤ v int_min || ltb_ℤ int_max v then none else some (int_val v)
  cast_to ColType.type_float (int_val v) = some (float_val (to_float v))
  cast_to ColType.type_float (bigint_val v) = some (float_val (to_float v))
  cast_to ColType.type_datetime (str_val s) = as_datetime (parse_datetime s)
  cast_to target v = none

abbrev sized : ℕ → ℕ → List ℕ → Result (List ℕ)
sized n len bs = if len == n then ok bs else throw Error.assertion_failed

unfoldable pub init_raw : ℕ → Value → Result (List ℕ)
unfolding put_int32 put_int64 write
init_raw len (int_val v) = sized 4 len (put_int32 v)
init_raw len (bigint_val v) = sized 8 len (put_int64 v)
init_raw len (datetime_val v) = sized 8 len (put_int64 v)
init_raw len (float_val v) = sized 4 len v
init_raw len (str_val s) =
    if ltb len (length s) then throw Error.string_overflow_error else ok (write 0 s (zeros len))
