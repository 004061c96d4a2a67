-- ===== src/Platform/Text.antt =====
-- The texts of src/platform.cpp: `endpoint`, `validate_name`, `parse_unsigned` and `std::to_string`. A
-- character is its code.
use Prim.Native.String.{String}
use Prim.Native.Char.{Char, code}
use verilator_axi_testbench.Common.{
  ℕ, zero, suc, ◌+◌, ◌-◌, ◌*◌, ◌/◌, ◌%◌, Bool, true, false, not, ◌==◌, ◌&&◌, ◌||◌, ltb, leb,
  if◌then◌else◌, List, [], ◌∷◌, Option, none, some, Result, ok, err, invalid_argument, throw_if,
  u64_max, all,
}

abbrev pub codes : String → List ℕ
codes String.[] = []
codes (String.◌∷◌ c s) = code c ∷ codes s

abbrev pub is_empty : String → Bool
is_empty String.[] = true
is_empty (String.◌∷◌ c s) = false

abbrev pub behind : Char → Option (String × String) → Option (String × String)
behind c none = none
behind c (some (before, after)) = some (String.◌∷◌ c before, after)

-- The texts before and after the first character `mark`: `find` and the two `substr`.
unfoldable pub split_at : ℕ → String → Option (String × String)
split_at mark String.[] = none
split_at mark (String.◌∷◌ c s) =
    let rest = behind c (split_at mark s) in if code c == mark then some (String.[], s) else rest

unfoldable pub named_port : Option (String × String) → Result (String × String)
named_port none = err invalid_argument
named_port (some (instance_id, port)) =
    if is_empty instance_id || is_empty port then err invalid_argument else ok (instance_id, port)

unfoldable pub endpoint : String → Result (String × String)
unfolding split_at named_port
endpoint text = named_port (split_at b'.' text)

unfoldable pub is_name_character : ℕ → Bool
is_name_character c =
    (leb b'a' c && leb c b'z')
    || (leb b'A' c && leb c b'Z')
    || (leb b'0' c && leb c b'9')
    || c == b'_'
    || c == b'-'

unfoldable pub validate_name : String → Result (Unit {0})
unfolding is_name_character
validate_name name =
    throw_if (is_empty name || not (all is_name_character (codes name))) invalid_argument

-- The digit that a character stands for in a base.
unfoldable pub digit : ℕ → ℕ → Option ℕ
digit base c =
    let value =
      if leb b'0' c && leb c b'9'
      then c - b'0'
      else if leb b'a' c && leb c b'f'
      then c - b'a' + 10
      else if leb b'A' c && leb c b'F'
      then c - b'A' + 10
      else base in
    if ltb value base then some value else none

abbrev pub next_number : ℕ → ℕ → Option ℕ → Option ℕ
next_number base value none = none
next_number base value (some d) =
    if ltb u64_max (value * base + d) then none else some (value * base + d)

-- `std::from_chars`, where it takes the whole text; `none` when it stops early or the number does not
-- fit 64 bits.
unfoldable pub from_chars : ℕ → ℕ → List ℕ → Option ℕ
unfolding digit
from_chars base value [] = some value
from_chars base value (c ∷ cs) = elim (next_number base value (digit base c)) [
  | none ↦ none
  | some next ↦ from_chars base next cs
]

abbrev pub parsed : List ℕ → Option ℕ → Result ℕ
parsed [] number = err invalid_argument
parsed (c ∷ cs) none = err invalid_argument
parsed (c ∷ cs) (some number) = ok number

-- The base and the digits behind its prefix.
unfoldable pub without_prefix : List ℕ → ℕ × List ℕ
without_prefix [] = (10, [])
without_prefix (c ∷ []) = (10, c ∷ [])
without_prefix (c ∷ x ∷ cs) =
    if c == b'0' && (x == b'x' || x == b'X') then (16, cs) else (10, c ∷ x ∷ cs)

unfoldable pub parse_codes : List ℕ → Result ℕ
unfolding without_prefix from_chars
parse_codes text =
    let (base, digits) = without_prefix text in parsed digits (from_chars base 0 digits)

unfoldable pub parse_unsigned : String → Result ℕ
unfolding parse_codes
parse_unsigned text = parse_codes (codes text)

abbrev pub digit_character : ℕ → Char
digit_character zero = "0"
digit_character (suc zero) = "1"
digit_character (suc (suc zero)) = "2"
digit_character (suc (suc (suc zero))) = "3"
digit_character (suc (suc (suc (suc zero)))) = "4"
digit_character (suc (suc (suc (suc (suc zero))))) = "5"
digit_character (suc (suc (suc (suc (suc (suc zero)))))) = "6"
digit_character (suc (suc (suc (suc (suc (suc (suc zero))))))) = "7"
digit_character (suc (suc (suc (suc (suc (suc (suc (suc zero)))))))) = "8"
digit_character (suc (suc (suc (suc (suc (suc (suc (suc (suc n))))))))) = "9"

-- `std::to_string` of a 64-bit number, which has at most 20 digits.
unfoldable pub decimal : ℕ → ℕ → String → String
decimal zero n rest = rest
decimal (suc fuel) n rest =
    let longer = String.◌∷◌ (digit_character (n % 10)) rest in
    let more = decimal fuel (n / 10) longer in if n / 10 == 0 then longer else more

unfoldable pub to_string : ℕ → String
unfolding decimal
to_string n = decimal 20 n String.[]
