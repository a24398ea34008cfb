-- ===== src/Config/File.antt =====
-- internal/config/config.go, `parseConfigFile`: the lines of a file that can be read.
pub mod Grammar
pub mod Values
use Prim.Native.Char.{Char, code}
use r0rpc.Prelude.{
  ℕ, ◌+◌, ◌≡◌, refl, ◌∙◌, ap, subst, String, Bool, false, ◌||◌, Option, none, some, List, [], ◌∷◌,
  ◌==◌, string_eq, eqb, if◌then◌else◌,
}
use r0rpc.Prelude.Map
use r0rpc.Prelude.Map.{Map, lookup, insert, lookup-insert, lookup-empty}
use r0rpc.Prelude.Text.{trim_space}

-- `strings.HasPrefix(line, "#")`
unfoldable pub is_comment : String → Bool
is_comment String.[] = false
is_comment (String.◌∷◌ ch s) = eqb (code ch) 35

abbrev pub behind_char : Char → Option (String × String) → Option (String × String)
behind_char ch none = none
behind_char ch (some (key, value)) = some (String.◌∷◌ ch key, value)

-- `strings.SplitN(line, "=", 2)`, when it gives two parts.
unfoldable pub split_at_equals : String → Option (String × String)
split_at_equals String.[] = none
split_at_equals (String.◌∷◌ ch s) =
    let rest = split_at_equals s in if eqb (code ch) 61 then some ("", s) else behind_char ch rest

abbrev pub is_quote : Char → Bool
is_quote ch = eqb (code ch) 34 || eqb (code ch) 39

unfoldable pub trim_left_quotes : String → String
trim_left_quotes String.[] = String.[]
trim_left_quotes (String.◌∷◌ ch s) =
    let rest = trim_left_quotes s in if is_quote ch then rest else String.◌∷◌ ch s

abbrev pub close_quotes : Char → String → String
close_quotes ch String.[] = if is_quote ch then String.[] else String.◌∷◌ ch String.[]
close_quotes ch (String.◌∷◌ d s) = String.◌∷◌ ch (String.◌∷◌ d s)

unfoldable pub trim_right_quotes : String → String
trim_right_quotes String.[] = String.[]
trim_right_quotes (String.◌∷◌ ch s) = close_quotes ch (trim_right_quotes s)

-- `strings.Trim(value, "\"'")`
unfoldable pub trim_quotes : String → String
unfolding trim_left_quotes trim_right_quotes
trim_quotes s = trim_right_quotes (trim_left_quotes s)

-- What the loop makes of a line.
pub data Line : Type 0 where
  skipped invalid : Line
  assigns : String → String → Line

abbrev pub parts : Option (String × String) → Line
parts none = Line.invalid
parts (some (key, value)) = Line.assigns (trim_space key) (trim_quotes (trim_space value))

unfoldable pub read_line : String → Line
unfolding split_at_equals is_comment
read_line text =
    let line = trim_space text in
    if line == "" || is_comment line then Line.skipped else parts (split_at_equals line)

-- The values of the file, or the number of the first line that is not valid.
pub data Parsed : Type 0 where
  values : Map String String → Parsed
  invalid_line : ℕ → Parsed

-- A turn of the loop, with what the later turns make of the values.
abbrev pub take_line : Line → Map String String → ℕ → (Map String String → Parsed) → Parsed
take_line Line.skipped m line_no later = later m
take_line Line.invalid m line_no later = invalid_line line_no
take_line (Line.assigns key value) m line_no later = later (insert key value m)

-- The loop, behind the number of the lines read so far.
unfoldable pub parse_lines : Map String String → ℕ → List String → Parsed
unfolding read_line
parse_lines m line_no [] = values m
parse_lines m line_no (text ∷ rest) =
    take_line (read_line text) m (line_no + 1) (λ m'. parse_lines m' (line_no + 1) rest)

unfoldable pub parse_config_file : List String → Parsed
parse_config_file lines = parse_lines Map.empty 0 lines
