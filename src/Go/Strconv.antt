-- ===== src/Go/Strconv.antt =====
-- Package strconv: decimal FormatInt and ParseInt(s, 10, 64).
use grafana_mcp_setup.Prelude.{
  ℕ, zero, suc, ◌+◌, ◌-◌, ◌*◌, ◌/◌, ◌%◌, ◌^◌, ◌≤◌, ◌<◌, ◌≡◌, ◌≢◌, ◌&&◌, ◌||◌, ◌++◌, Option, none,
  some, [], ◌∷◌, arith, Text, codes, text_eq, any, Bool, true, false, leb, ltb, ◌==◌, if◌then◌else◌,
  All,
}
use grafana_mcp_setup.Prelude.Int.{ℤ, pos, negsuc}

-- The digits of `n` in front of `rest`; more fuel than `n` is enough.
digits_before : ℕ → ℕ → Text → Text
digits_before zero n rest = rest
digits_before (suc f) n rest =
    let more = digits_before f (n / 10) ((48 + n % 10) ∷ rest) in
    if ltb n 10 then (48 + n) ∷ rest else more

unfoldable pub format_nat : ℕ → Text
unfolding digits_before
format_nat n = digits_before (suc n) n []

-- strconv.FormatInt(v, 10) and strconv.Itoa
unfoldable pub format_int : ℤ → Text
unfolding format_nat
format_int (pos n) = format_nat n
format_int (negsuc n) = b'-' ∷ format_nat (suc n)

parse_digits : ℕ → Text → Option ℕ
parse_digits n [] = some n
parse_digits n (c ∷ s) =
    let rest = parse_digits (n * 10 + (c - 48)) s in if leb 48 c && leb c 57 then rest else none

-- One digit at least, and a value below the bound.
parse_below : ℕ → Text → Option ℕ
parse_below bound [] = none
parse_below bound (c ∷ s) = elim (parse_digits 0 (c ∷ s)) [
  | none ↦ none
  | some n ↦ if ltb n bound then some n else none
]

negate : Option ℕ → Option ℤ
negate none = none
negate (some zero) = some (pos 0)
negate (some (suc n)) = some (negsuc n)

positive : Option ℕ → Option ℤ
positive none = none
positive (some n) = some (pos n)

-- `none` is the error, of syntax or of range.
unfoldable pub parse_int : Text → Option ℤ
unfolding parse_below parse_digits negate positive
parse_int [] = none
parse_int (c ∷ s) =
    if c == b'-'
    then negate (parse_below (2 ^ 63 + 1) s)
    else if c == b'+'
    then positive (parse_below (2 ^ 63) s)
    else positive (parse_below (2 ^ 63) (c ∷ s))

parse-digits_before :
    (f n : ℕ) (rest : Text) → n < f → parse_digits 0 (digits_before f n rest) ≡ parse_digits n rest
unfolding digits_before parse_digits
parse-digits_before zero n rest h = absurd (omega arith)
parse-digits_before (suc f) n rest h =
    ground (arith, parse-digits_before f (n / 10) ((48 + n % 10) ∷ rest))

-- The first byte of a printed number is a digit.
abbrev StartsWithDigit : Text → Type 0
StartsWithDigit [] = ⊥
StartsWithDigit (c ∷ s) = (48 ≤ c) × (c ≤ 57)

digits_before-StartsWithDigit :
    (f n : ℕ) (rest : Text) → n < f → StartsWithDigit (digits_before f n rest)
unfolding digits_before
digits_before-StartsWithDigit zero n rest h = absurd (omega arith)
digits_before-StartsWithDigit (suc f) n rest h =
    ground (arith, digits_before-StartsWithDigit f (n / 10) ((48 + n % 10) ∷ rest))

parse_int-digits :
    (s : Text) (n : ℕ)
    → StartsWithDigit s
    → parse_digits 0 s ≡ some n
    → n < 2 ^ 63
    → parse_int s ≡ some (pos n)
unfolding parse_int
parse_int-digits [] n d e h = absurd d
parse_int-digits (c ∷ s) n d e h = ground arith

-- A number that fits an int64 is read back from what is printed.
pub parse_int-format_int : (n : ℕ) → n < 2 ^ 63 → parse_int (format_int (pos n)) ≡ some (pos n)
unfolding format_int parse_digits
parse_int-format_int n h =
    parse_int-digits (digits_before (suc n) n []) n
      (digits_before-StartsWithDigit (suc n) n [] (omega arith))
      (parse-digits_before (suc n) n [] (omega arith)) h

digits_before-All :
    (f n : ℕ) (rest : Text)
    → All (λ c. c ≢ b'.') rest
    → All (λ c. c ≢ b'.') (digits_before f n rest)
unfolding digits_before
digits_before-All zero n rest h = h
digits_before-All (suc f) n rest h =
    ground (arith, digits_before-All f (n / 10) ((48 + n % 10) ∷ rest))

-- A printed number has no ".".
pub format_int-NoDot : (v : ℤ) → All (λ c. c ≢ b'.') (format_int v)
unfolding format_int
format_int-NoDot (pos n) = digits_before-All (suc n) n [] tt
format_int-NoDot (negsuc n) = (omega arith, digits_before-All (suc (suc n)) (suc n) [] tt)

-- strconv.ParseBool
unfoldable pub parse_bool : Text → Option Bool
parse_bool s =
    if any (text_eq s)
      (codes "1" ∷ codes "t" ∷ codes "T" ∷ codes "true" ∷ codes "TRUE" ∷ codes "True" ∷ [])
    then some true
    else if any (text_eq s)
        (codes "0" ∷ codes "f" ∷ codes "F" ∷ codes "false" ∷ codes "FALSE" ∷ codes "False" ∷ [])
    then some false
    else none

-- strconv.Quote, on ASCII texts.
abbrev pub lower_hex : ℕ → ℕ
lower_hex d = if ltb d 10 then 48 + d else 87 + d

abbrev pub quote_byte : ℕ → Text
quote_byte c =
    if c == 34 || c == b'\\'
    then b'\\' ∷ c ∷ []
    else if leb 32 c && leb c 126
    then c ∷ []
    else if c == 7
    then codes "\\a"
    else if c == 8
    then codes "\\b"
    else if c == 12
    then codes "\\f"
    else if c == 10
    then codes "\\n"
    else if c == 13
    then codes "\\r"
    else if c == 9
    then codes "\\t"
    else if c == 11
    then codes "\\v"
    else codes "\\x" ++ lower_hex (c / 16) ∷ lower_hex (c % 16) ∷ []

quoted_bytes : Text → Text
quoted_bytes [] = 34 ∷ []
quoted_bytes (c ∷ s) = quote_byte c ++ quoted_bytes s

unfoldable pub quote : Text → Text
unfolding quoted_bytes
quote s = 34 ∷ quoted_bytes s
