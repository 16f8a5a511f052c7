-- ===== src/OperationKey/Injective.antt =====
-- Two requests have one operation key only if they are the same logical operation.
use Prim.Native.Char.{Char, code}
use text.Mathlib.TextEquality.{Char-path}
use text.Mathlib.TextLemmas.{head-eq_of_cons-eq, tail-eq_of_cons-eq}
use mcp_usage_control.Base.{
  ℕ, ◌/◌, ◌%◌, ◌<◌, ◌≡◌, refl, ap, sym, ◌∙◌, ◌≢◌, String, Option, none, some, eqb, ltb,
  if◌then◌else◌, arith, ◌+◌, ◌*◌, ◌-◌, Bool-cases, inl, inr, Bool, true, zero, suc, ◌&&◌,
}
use mcp_usage_control.Types.{UsageRequest}
use mcp_usage_control.OperationKey.{
  ◌▸◌, hex_digit, json_escape, json_characters, json_text, json_text_or_null, operation_key_for,
}

-- The value of a hexadecimal digit.
hex_value : Char → ℕ
hex_value c = if ltb (code c) 58 then code c - 48 else code c - 87

-- The four digits of an escaped control character, and what follows.
read_unicode : String → Option (ℕ × String)
read_unicode (String.◌∷◌ a (String.◌∷◌ b (String.◌∷◌ h (String.◌∷◌ l rest)))) =
    some (16 * hex_value h + hex_value l, rest)
read_unicode _ = none

read_escape : String → Option (ℕ × String)
unfolding read_unicode
read_escape String.[] = none
read_escape (String.◌∷◌ c rest) =
    if eqb (code c) 98
    then some (8, rest)
    else if eqb (code c) 116
    then some (9, rest)
    else if eqb (code c) 110
    then some (10, rest)
    else if eqb (code c) 102
    then some (12, rest)
    else if eqb (code c) 114
    then some (13, rest)
    else if eqb (code c) 117
    then read_unicode rest
    else some (code c, rest)

-- Reads one character of a JSON text back: none at the closing quote.
read_character : String → Option (ℕ × String)
unfolding read_escape
read_character String.[] = none
read_character (String.◌∷◌ c rest) =
    if eqb (code c) 34
    then none
    else if eqb (code c) 92
    then read_escape rest
    else some (code c, rest)

-- A test that holds of every number below a bound holds of each.
-- The digits below a bound read back.
reads_back : ℕ → Bool
unfolding hex_value hex_digit
reads_back zero = true
reads_back (suc d) = reads_back d && eqb (hex_value (hex_digit d)) d

digit_reads_back : (bound d : ℕ) → d < bound → reads_back bound ≡ true → hex_value (hex_digit d) ≡ d
unfolding reads_back
digit_reads_back (suc bound) d below checked = ground (arith, digit_reads_back bound d)
digit_reads_back zero d below checked = absurd (omega arith)

hex_digits_table : reads_back 16 ≡ true
unfolding reads_back hex_value hex_digit
hex_digits_table = refl

hex_value-hex_digit : (n : ℕ) → n < 16 → hex_value (hex_digit n) ≡ n
hex_value-hex_digit n h = digit_reads_back 16 n h hex_digits_table

hex_value-high : (n : ℕ) → n < 32 → hex_value (if ltb n 16 then "0" else "1") ≡ n / 16
unfolding hex_value
hex_value-high n h = elim (Bool-cases (ltb n 16)) [
  | inl low ↦ rw low (ground arith)
  | inr high ↦ rw high (ground arith)
]

read_control :
    (c : Char) (rest : String)
    → code c < 32
    → read_unicode
        ("0" ▸ "0" ▸ (if ltb (code c) 16 then "0" else "1") ▸ hex_digit (code c % 16) ▸ rest)
      ≡ some (code c, rest)
unfolding read_unicode
read_control c rest h =
    rw (hex_value-high (code c) h, hex_value-hex_digit (code c % 16) (omega arith))
      (ap (λ n. some (n, rest)) (omega arith))

read_character-json_escape :
    (c : Char) (rest : String) → read_character (json_escape c rest) ≡ some (code c, rest)
unfolding read_character json_escape
read_character-json_escape c rest = ground (arith, read_control c rest)

json_escape-injective :
    (c d : Char) (r q : String) → json_escape c r ≡ json_escape d q → (c ≡ d) × (r ≡ q)
json_escape-injective c d r q h =
    let e : ◌≡◌ {A = Option (ℕ × String)} (some (code c, r)) (some (code d, q)) =
      sym (read_character-json_escape c r) ∙ ap read_character h ∙ read_character-json_escape d q in
    (Char-path c d (cc), cc)

-- No escaped character begins like the closing quote.
closing_quote : (d : Char) (q r : String) → ◌≢◌ {A = String} ("\"" ▸ r) (json_escape d q)
unfolding read_character
closing_quote d q r h =
    let e : ◌≡◌ {A = Option (ℕ × String)} none (some (code d, q)) =
      ap read_character h ∙ read_character-json_escape d q in
    cc

json_characters-injective :
    (s t : String) (r q : String) → json_characters s r ≡ json_characters t q → (s ≡ t) × (r ≡ q)
unfolding json_characters
json_characters-injective String.[] String.[] r q h = (refl, cc)
json_characters-injective String.[] (String.◌∷◌ d t) r q h =
    absurd (closing_quote d (json_characters t q) r h)
json_characters-injective (String.◌∷◌ c s) String.[] r q h =
    absurd (closing_quote c (json_characters s r) q (sym h))
json_characters-injective (String.◌∷◌ c s) (String.◌∷◌ d t) r q h =
    let (e, f) = json_escape-injective c d (json_characters s r) (json_characters t q) h in
    let (g, k) = json_characters-injective s t r q f in (cc, k)

pub json_text-injective :
    (s t : String) (r q : String) → json_text s r ≡ json_text t q → (s ≡ t) × (r ≡ q)
unfolding json_text
json_text-injective s t r q h =
    let tail : json_characters s r ≡ json_characters t q = cc in
    json_characters-injective s t r q tail

null_not_text : (r q : String) → ◌≢◌ {A = String} ("n" ▸ r) ("\"" ▸ q)
null_not_text r q h = let e : ◌≡◌ {A = ℕ} 110 34 = ap code (head-eq_of_cons-eq h) in omega arith

json_text_or_null-injective :
    (s t : Option String) (r q : String)
    → json_text_or_null s r ≡ json_text_or_null t q
    → (s ≡ t) × (r ≡ q)
unfolding json_text_or_null json_text
json_text_or_null-injective none none r q h =
    (refl, tail-eq_of_cons-eq (tail-eq_of_cons-eq (tail-eq_of_cons-eq (tail-eq_of_cons-eq h))))
json_text_or_null-injective none (some t) r q h = absurd (null_not_text _ _ h)
json_text_or_null-injective (some s) none r q h = absurd (null_not_text _ _ (sym h))
json_text_or_null-injective (some s) (some t) r q h =
    let (e, f) = json_text-injective s t r q h in (ap some e, f)

-- The key of an operation determines the tenant, the principal, the tool and the operation id:
-- two requests with one key are the same logical operation.
pub operation_key_for-injective :
    (a b : UsageRequest)
    → operation_key_for a ≡ operation_key_for b
    → (a.principal.tenant_id ≡ b.principal.tenant_id)
      × (a.principal.id ≡ b.principal.id)
      × (a.tool ≡ b.tool)
      × (a.operation_id ≡ b.operation_id)
unfolding operation_key_for
operation_key_for-injective a b h =
    let (tenant, h1) = json_text_or_null-injective _ _ _ _ (tail-eq_of_cons-eq h) in
    let (id, h2) = json_text-injective _ _ _ _ (tail-eq_of_cons-eq h1) in
    let (tool, h3) = json_text-injective _ _ _ _ (tail-eq_of_cons-eq h2) in
    let (operation, _) = json_text-injective _ _ _ _ (tail-eq_of_cons-eq h3) in
    (tenant, id, tool, operation)
