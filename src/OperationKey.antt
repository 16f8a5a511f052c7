-- ===== src/OperationKey.antt =====
-- `operationKeyFor` of packages/core/src/index.ts: the JSON text of the four parts that identify a
-- logical operation. `JSON.stringify` of a text is written out here, by character; a text of the
-- model holds no lone surrogates, which it would escape too.
pub mod Injective
use Prim.Native.Char.{Char, code}
use Prim.Native.String
use mcp_usage_control.Base.{ℕ, ◌/◌, ◌%◌, ◌<◌, String, Option, none, some, eqb, ltb, if◌then◌else◌}
use mcp_usage_control.Types.{UsageRequest}

-- A text with one more character in front.
infixr 60 ◌▸◌
abbrev pub ◌▸◌ : Char → String → String
c ▸ s = String.◌∷◌ c s

-- The low hexadecimal digit of a control character.
unfoldable pub hex_digit : ℕ → Char
hex_digit n =
    if eqb n 0
    then "0"
    else if eqb n 1
    then "1"
    else if eqb n 2
    then "2"
    else if eqb n 3
    then "3"
    else if eqb n 4
    then "4"
    else if eqb n 5
    then "5"
    else if eqb n 6
    then "6"
    else if eqb n 7
    then "7"
    else if eqb n 8
    then "8"
    else if eqb n 9
    then "9"
    else if eqb n 10
    then "a"
    else if eqb n 11
    then "b"
    else if eqb n 12
    then "c"
    else if eqb n 13
    then "d"
    else if eqb n 14
    then "e"
    else "f"

-- One character inside a JSON text, before `rest`.
unfoldable pub json_escape : Char → String → String
unfolding hex_digit
json_escape c rest =
    if eqb (code c) 34
    then "\\" ▸ "\"" ▸ rest
    else if eqb (code c) 92
    then "\\" ▸ "\\" ▸ rest
    else if eqb (code c) 8
    then "\\" ▸ "b" ▸ rest
    else if eqb (code c) 9
    then "\\" ▸ "t" ▸ rest
    else if eqb (code c) 10
    then "\\" ▸ "n" ▸ rest
    else if eqb (code c) 12
    then "\\" ▸ "f" ▸ rest
    else if eqb (code c) 13
    then "\\" ▸ "r" ▸ rest
    else if ltb (code c) 32
    then "\\"
      ▸ "u"
      ▸ "0"
      ▸ "0"
      ▸ (if ltb (code c) 16 then "0" else "1")
      ▸ hex_digit (code c % 16)
      ▸ rest
    else c ▸ rest

unfoldable pub json_characters : String → String → String
unfolding json_escape
json_characters String.[] rest = "\"" ▸ rest
json_characters (String.◌∷◌ c s) rest = json_escape c (json_characters s rest)

-- `JSON.stringify` of a text, before `rest`.
unfoldable pub json_text : String → String → String
unfolding json_characters
json_text s rest = "\"" ▸ json_characters s rest

-- `request.principal.tenantId ?? null`.
unfoldable pub json_text_or_null : Option String → String → String
unfolding json_text
json_text_or_null none rest = "n" ▸ "u" ▸ "l" ▸ "l" ▸ rest
json_text_or_null (some s) rest = json_text s rest

unfoldable pub operation_key_for : UsageRequest → String
unfolding json_text_or_null
operation_key_for request =
    "["
    ▸ json_text_or_null request.principal.tenant_id (
        ","
        ▸ json_text request.principal.id
            ("," ▸ json_text request.tool ("," ▸ json_text request.operation_id "]")))
