-- ===== src/Value.antt =====
-- The values of JavaScript that a store or a policy may answer with, before they are checked, and
-- the checks of one value at the end of packages/core/src/index.ts. An object has own fields alone:
-- no inherited ones, no accessors.
pub mod Sets
use mcp_usage_control.Base.{
  ℕ, Bool, true, false, String, ◌==◌, Option, none, some, len, eqb, leb, ltb, ◌&&◌, Result, ok, ◌≡◌,
  refl, ap, eq_iff, throw, type_error, throw_if, ◌>>=◌, ◌>>◌, if◌then◌else◌,
}
use mcp_usage_control.Number.{Number, nat, neg, non_integer, max_safe_integer}

mutual
  pub data Value : Type 0 where
    undefined null : Value
    boolean : Bool → Value
    number : Number → Value
    text : String → Value
    array : Values → Value
    object : Fields → Value

  pub data Values : Type 0 where
    nil : Values
    cons : Value → Values → Values

  pub data Fields : Type 0 where
    end : Fields
    field : String → Value → Fields → Fields

-- A property of an object: `undefined` where it is missing.
abbrev pub property : String → Fields → Value
property name end = undefined
property name (field f value rest) = if f == name then value else property name rest

unfoldable pub require_record : Value → Result Fields
require_record (object fields) = ok fields
require_record undefined = throw type_error
require_record null = throw type_error
require_record (boolean b) = throw type_error
require_record (number n) = throw type_error
require_record (text s) = throw type_error
require_record (array vs) = throw type_error

-- `Array.isArray(value)`, refused with a `TypeError`.
abbrev pub require_array : Value → Result Values
require_array (array vs) = ok vs
require_array undefined = throw type_error
require_array null = throw type_error
require_array (boolean b) = throw type_error
require_array (number n) = throw type_error
require_array (text s) = throw type_error
require_array (object fields) = throw type_error

-- `typeof value === 'boolean'`.
abbrev pub require_boolean : Value → Result Bool
require_boolean (boolean b) = ok b
require_boolean undefined = throw type_error
require_boolean null = throw type_error
require_boolean (number n) = throw type_error
require_boolean (text s) = throw type_error
require_boolean (array vs) = throw type_error
require_boolean (object fields) = throw type_error

unfoldable pub validate_non_empty_string : Value → Result String
validate_non_empty_string (text s) = if eqb (len s) 0 then throw type_error else ok s
validate_non_empty_string undefined = throw type_error
validate_non_empty_string null = throw type_error
validate_non_empty_string (boolean b) = throw type_error
validate_non_empty_string (number n) = throw type_error
validate_non_empty_string (array vs) = throw type_error
validate_non_empty_string (object fields) = throw type_error

abbrev pub is_undefined : Value → Bool
is_undefined undefined = true
is_undefined null = false
is_undefined (boolean b) = false
is_undefined (number n) = false
is_undefined (text s) = false
is_undefined (array vs) = false
is_undefined (object fields) = false

-- A check of a value that may be `undefined`.
abbrev pub optional {ℓ} : {A : Type ℓ} → (Value → Result A) → Value → Result (Option A)
optional check value =
    if is_undefined value then ok none else (check value >>= λ found. ok (some found))

unfoldable pub validate_optional_non_empty_string : Value → Result (Option String)
unfolding validate_non_empty_string
validate_optional_non_empty_string value = optional validate_non_empty_string value

unfoldable pub assert_non_negative_store_integer : Value → Result ℕ
assert_non_negative_store_integer (number (nat n)) =
    if leb n max_safe_integer then ok n else throw type_error
assert_non_negative_store_integer (number (neg n)) = throw type_error
assert_non_negative_store_integer (number non_integer) = throw type_error
assert_non_negative_store_integer undefined = throw type_error
assert_non_negative_store_integer null = throw type_error
assert_non_negative_store_integer (boolean b) = throw type_error
assert_non_negative_store_integer (text s) = throw type_error
assert_non_negative_store_integer (array vs) = throw type_error
assert_non_negative_store_integer (object fields) = throw type_error

unfoldable pub assert_positive_store_integer : Value → Result ℕ
assert_positive_store_integer (number (nat n)) =
    if leb n max_safe_integer && ltb 0 n then ok n else throw type_error
assert_positive_store_integer (number (neg n)) = throw type_error
assert_positive_store_integer (number non_integer) = throw type_error
assert_positive_store_integer undefined = throw type_error
assert_positive_store_integer null = throw type_error
assert_positive_store_integer (boolean b) = throw type_error
assert_positive_store_integer (text s) = throw type_error
assert_positive_store_integer (array vs) = throw type_error
assert_positive_store_integer (object fields) = throw type_error

-- `value === expected`, for a text and for a text that may be `undefined`.
abbrev pub is_text : Value → String → Bool
is_text (text s) expected = s == expected
is_text undefined expected = false
is_text null expected = false
is_text (boolean b) expected = false
is_text (number n) expected = false
is_text (array vs) expected = false
is_text (object fields) expected = false

abbrev pub is_optional_text : Value → Option String → Bool
is_optional_text value none = is_undefined value
is_optional_text value (some expected) = is_text value expected

-- A checked value read as a text, and as a text that may be `undefined`.
abbrev pub cast_text : Value → String
cast_text (text s) = s
cast_text undefined = ""
cast_text null = ""
cast_text (boolean b) = ""
cast_text (number n) = ""
cast_text (array vs) = ""
cast_text (object fields) = ""

abbrev pub cast_optional : Value → Option String
cast_optional (text s) = some s
cast_optional undefined = none
cast_optional null = none
cast_optional (boolean b) = none
cast_optional (number n) = none
cast_optional (array vs) = none
cast_optional (object fields) = none

pub is_text-cast : (v : Value) (s : String) → is_text v s ≡ true → cast_text v ≡ s
is_text-cast (text t) s h = (eq_iff t s).0 h
is_text-cast undefined s h = cc
is_text-cast null s h = cc
is_text-cast (boolean b) s h = cc
is_text-cast (number n) s h = cc
is_text-cast (array vs) s h = cc
is_text-cast (object fields) s h = cc

is_text-cast_optional : (v : Value) (s : String) → is_text v s ≡ true → cast_optional v ≡ some s
is_text-cast_optional (text t) s h = ap some ((eq_iff t s).0 h)
is_text-cast_optional undefined s h = cc
is_text-cast_optional null s h = cc
is_text-cast_optional (boolean b) s h = cc
is_text-cast_optional (number n) s h = cc
is_text-cast_optional (array vs) s h = cc
is_text-cast_optional (object fields) s h = cc

is_undefined-cast : (v : Value) → is_undefined v ≡ true → cast_optional v ≡ none
is_undefined-cast undefined h = refl
is_undefined-cast null h = refl
is_undefined-cast (boolean b) h = refl
is_undefined-cast (number n) h = refl
is_undefined-cast (text s) h = cc
is_undefined-cast (array vs) h = refl
is_undefined-cast (object fields) h = refl

pub is_optional_text-cast :
    (v : Value) (o : Option String) → is_optional_text v o ≡ true → cast_optional v ≡ o
is_optional_text-cast v none h = is_undefined-cast v h
is_optional_text-cast v (some s) h = is_text-cast_optional v s h

-- The value of an optional text: `undefined`, and an object field that is not set.
abbrev pub of_option : Option String → Value
of_option none = undefined
of_option (some s) = text s
