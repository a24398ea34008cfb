-- ===== src/Config/File/Values.antt =====
-- internal/config/config.go, `parseConfigFile`: the values of a file by what its lines say. The last line that
-- assigns a key counts.
use r0rpc.Prelude.{
  ℕ, ◌+◌, ◌≡◌, refl, ◌∙◌, ap, subst, String, Option, none, some, List, [], ◌∷◌, ◌==◌, string_eq,
  map, if◌then◌else◌,
}
use r0rpc.Prelude.Map
use r0rpc.Prelude.Map.{Map, lookup, insert, lookup-insert, lookup-empty}
use r0rpc.Config.File.{
  Line, read_line, Parsed, values, invalid_line, take_line, parse_lines, parse_config_file,
}
use r0rpc.Config.File.Grammar.{Reads, read_line-Reads}

-- The number of the first line that is not valid.
abbrev pub first_invalid : ℕ → List Line → Option ℕ
first_invalid line_no [] = none
first_invalid line_no (Line.invalid ∷ rest) = some (line_no + 1)
first_invalid line_no (_ ∷ rest) = first_invalid (line_no + 1) rest

-- The value that the last line assigning a key gives it, or else the one that it had before.
abbrev pub last_assigned : String → Option String → List Line → Option String
last_assigned key before [] = before
last_assigned key before (Line.assigns k value ∷ rest) =
    last_assigned key (if k == key then some value else before) rest
last_assigned key before (_ ∷ rest) = last_assigned key before rest

-- What the loop must return from the line number `n` on, given the value that a key had before.
abbrev pub Parses : ℕ → List Line → String → Option String → Parsed → Type 0
Parses n lines key before (values m) =
    (first_invalid n lines ≡ none) × (lookup key m ≡ last_assigned key before lines)
Parses n lines key before (invalid_line i) = first_invalid n lines ≡ some i

assigned-Parses :
    (n : ℕ) (k value : String) (rest : List Line) (key : String) (before before' : Option String)
    (r : Parsed)
    → before' ≡ (if k == key then some value else before)
    → Parses (n + 1) rest key before' r
    → Parses n (Line.assigns k value ∷ rest) key before r
assigned-Parses n k value rest key before before' (values m) e (a, b) =
    (a, b ∙ ap (λ x. last_assigned key x rest) e)
assigned-Parses n k value rest key before before' (invalid_line i) e a = a

skipped-Parses :
    (n : ℕ) (rest : List Line) (key : String) (before : Option String) (r : Parsed)
    → Parses (n + 1) rest key before r
    → Parses n (Line.skipped ∷ rest) key before r
skipped-Parses n rest key before (values m) a = a
skipped-Parses n rest key before (invalid_line i) a = a

step-Parses :
    (m : Map String String) (n : ℕ) (line : Line) (rest : List Line) (key : String)
    (later : Map String String → Parsed)
    → ((m' : Map String String) → Parses (n + 1) rest key (lookup key m') (later m'))
    → Parses n (line ∷ rest) key (lookup key m) (take_line line m (n + 1) later)
step-Parses m n Line.skipped rest key later h =
    skipped-Parses n rest key (lookup key m) (later m) (h m)
step-Parses m n Line.invalid rest key later h = refl
step-Parses m n (Line.assigns k value) rest key later h =
    let m' = insert k value m in
    assigned-Parses n k value rest key (lookup key m) (lookup key m') (later m')
      (lookup-insert k value key m) (h m')

parse_lines-Parses :
    (m : Map String String) (n : ℕ) (lines : List String) (key : String)
    → Parses n (map read_line lines) key (lookup key m) (parse_lines m n lines)
unfolding parse_lines
parse_lines-Parses m n [] key = (refl, refl)
parse_lines-Parses m n (text ∷ rest) key =
    step-Parses m n (read_line text) (map read_line rest) key (λ m'. parse_lines m' (n + 1) rest)
      λ m'. parse_lines-Parses m' (n + 1) rest key

-- Each line of the file with what it says.
abbrev pub AllRead : List String → List Line → Type 0
AllRead [] [] = Unit
AllRead (text ∷ texts) (line ∷ lines) = Reads text line × AllRead texts lines
AllRead _ _ = ⊥

all_read : (texts : List String) → AllRead texts (map read_line texts)
all_read [] = tt
all_read (text ∷ texts) = (read_line-Reads text, all_read texts)

-- Behind its leading and trailing space a line is blank, begins with "#", has a "=", or is not valid. The
-- first "=" stands between the key and the value, which are trimmed, the value of quotes too.
-- `parseConfigFile` fails exactly with the number of the first line that is not valid; without such a
-- line every key has the value that the last line assigns it, and no value if no line does.
pub parse_config_file-Parses :
    (texts : List String) (key : String)
    → (lines : List Line) × AllRead texts lines × Parses 0 lines key none (parse_config_file texts)
unfolding parse_config_file
parse_config_file-Parses texts key = (
  map read_line texts,
  all_read texts,
  subst (λ b. Parses 0 (map read_line texts) key b (parse_lines Map.empty 0 texts))
      (lookup-empty key) (parse_lines-Parses Map.empty 0 texts key),
)
