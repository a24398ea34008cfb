-- ===== src/Config/Values.antt =====
-- internal/config/config.go: the values of the file, and how they are read as texts and as numbers.
use Prim.Native.Char.{code}
use r0rpc.Prelude.{
  ℕ, zero, suc, ◌+◌, ◌-◌, ◌*◌, ◌^◌, String, ℤ, pos, negsuc, ◌&&◌, Option, none, some, get_or, ◌==◌,
  string_eq, eqb, ltb, leb, if◌then◌else◌,
}
use r0rpc.Prelude.Map.{Map, lookup}
use r0rpc.Prelude.Text.{trim_space}

unfoldable pub get_string : Map String String → String → String → String
get_string values key fallback =
    let value = trim_space (get_or (lookup key values) "") in
    if value == "" then fallback else value

-- The number that decimal digits stand for, behind the digits read so far.
unfoldable pub digits : ℕ → String → Option ℕ
digits acc String.[] = some acc
digits acc (String.◌∷◌ ch s) =
    let rest = digits (acc * 10 + (code ch - 48)) s in
    if leb 48 (code ch) && leb (code ch) 57 then rest else none

-- One digit at least.
unfoldable pub magnitude_of : String → Option ℕ
unfolding digits
magnitude_of String.[] = none
magnitude_of (String.◌∷◌ ch s) = digits 0 (String.◌∷◌ ch s)

abbrev positive_int : Option ℕ → Option ℤ
positive_int none = none
positive_int (some n) = if ltb n (2 ^ 63) then some (pos n) else none

abbrev negative_int : Option ℕ → Option ℤ
negative_int none = none
negative_int (some zero) = some (pos 0)
negative_int (some (suc n)) = if ltb n (2 ^ 63) then some (negsuc n) else none

-- `strconv.Atoi`, without its errors.
unfoldable pub atoi : String → Option ℤ
unfolding magnitude_of
atoi String.[] = none
atoi (String.◌∷◌ ch s) =
    if eqb (code ch) 43
    then positive_int (magnitude_of s)
    else if eqb (code ch) 45
    then negative_int (magnitude_of s)
    else positive_int (magnitude_of (String.◌∷◌ ch s))

unfoldable pub get_int : Map String String → String → ℤ → ℤ
unfolding atoi
get_int values key fallback =
    let value = trim_space (get_or (lookup key values) "") in
    if value == "" then fallback else get_or (atoi value) fallback
