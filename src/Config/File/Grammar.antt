-- ===== src/Config/File/Grammar.antt =====
-- internal/config/config.go, `parseConfigFile`: what a line is, described by its text alone.
use Prim.Native.Char.{Char, code}
use r0rpc.Prelude.{
  ◌≡◌, refl, ap, ◌∙◌, sym, subst, String, true, false, ◌||◌, Option, none, some, ◌==◌, string_eq,
  eqb, if◌then◌else◌, inl, inr, Bool-cases,
}
use r0rpc.Prelude.Text.{trim_space}
use r0rpc.Config.File.{
  Line, is_comment, behind_char, split_at_equals, is_quote, trim_left_quotes, close_quotes,
  trim_right_quotes, trim_quotes, parts, read_line,
}

abbrev pub followed_by : String → String → String
followed_by String.[] t = t
followed_by (String.◌∷◌ c s) t = String.◌∷◌ c (followed_by s t)

-- A text without "=".
abbrev pub NoEquals : String → Type 0
NoEquals String.[] = Unit
NoEquals (String.◌∷◌ c s) = (eqb (code c) 61 ≡ false) × NoEquals s

-- A text that is not empty and does not begin with "#".
abbrev pub IsStatement : String → Type 0
IsStatement String.[] = ⊥
IsStatement (String.◌∷◌ c s) = eqb (code c) 35 ≡ false

-- A text of quotes, one that does not begin with a quote, and one that does not end with one.
abbrev pub Quotes : String → Type 0
Quotes String.[] = Unit
Quotes (String.◌∷◌ c s) = (is_quote c ≡ true) × Quotes s

abbrev pub FirstBare : String → Type 0
FirstBare String.[] = Unit
FirstBare (String.◌∷◌ c s) = is_quote c ≡ false

abbrev pub LastBare : String → Type 0
LastBare String.[] = Unit
LastBare (String.◌∷◌ c String.[]) = is_quote c ≡ false
LastBare (String.◌∷◌ c (String.◌∷◌ d s)) = LastBare (String.◌∷◌ d s)

-- A text between quotes, which has none at its ends.
pub record Unquotes (s v : String) : Type 0 where
  pub front : String
  pub back : String
  pub is : s ≡ followed_by front (followed_by v back)
  pub quotes_front : Quotes front
  pub quotes_back : Quotes back
  pub first_bare : FirstBare v
  pub last_bare : LastBare v

-- What a line of the file says.
pub data Reads : String → Line → Type 0 where
  blank : (text : String) → trim_space text ≡ "" → Reads text Line.skipped
  comment :
      (text : String) (c : Char) (rest : String)
      → trim_space text ≡ String.◌∷◌ c rest
      → eqb (code c) 35 ≡ true
      → Reads text Line.skipped
  assignment :
      (text key value v : String) (c : Char)
      → IsStatement (trim_space text)
      → trim_space text ≡ followed_by key (String.◌∷◌ c value)
      → eqb (code c) 61 ≡ true
      → NoEquals key
      → Unquotes (trim_space value) v
      → Reads text (Line.assigns (trim_space key) v)
  no_assignment :
      (text : String)
      → IsStatement (trim_space text)
      → NoEquals (trim_space text)
      → Reads text Line.invalid

-- A text split at its first "=".
abbrev Splits : String → Option (String × String) → Type 0
Splits s none = NoEquals s
Splits s (some (key, value)) =
    (c : Char) × (s ≡ followed_by key (String.◌∷◌ c value))
    × (eqb (code c) 61 ≡ true)
    × NoEquals key

behind-Splits :
    (ch : Char) (s : String) (o : Option (String × String))
    → eqb (code ch) 61 ≡ false
    → Splits s o
    → Splits (String.◌∷◌ ch s) (behind_char ch o)
behind-Splits ch s none e h = (e, h)
behind-Splits ch s (some (key, value)) e (c, is, at, free) =
    (c, ap (λ t. String.◌∷◌ ch t) is, at, (e, free))

split_at_equals-Splits : (s : String) → Splits s (split_at_equals s)
unfolding split_at_equals
split_at_equals-Splits String.[] = tt
split_at_equals-Splits (String.◌∷◌ ch s) = elim (Bool-cases (eqb (code ch) 61)) [
  | inl e ↦ rw e (ch, refl, e, tt)
  | inr e ↦ rw e (behind-Splits ch s (split_at_equals s) e (split_at_equals-Splits s))
]

-- A text behind quotes.
pub record LeftStripped (s v : String) : Type 0 where
  pub front : String
  pub is : s ≡ followed_by front v
  pub quotes : Quotes front
  pub bare : FirstBare v

trim_left_quotes-LeftStripped : (s : String) → LeftStripped s (trim_left_quotes s)
unfolding trim_left_quotes
trim_left_quotes-LeftStripped String.[] = record { front = ""; is = refl; quotes = tt; bare = tt }
trim_left_quotes-LeftStripped (String.◌∷◌ c s) =
    let l = trim_left_quotes-LeftStripped s in
    elim (Bool-cases (is_quote c)) [
      | inl e ↦ rw e (record {
        front = String.◌∷◌ c l.front;
        is = ap (λ t. String.◌∷◌ c t) l.is;
        quotes = (e, l.quotes);
        bare = l.bare;
      })
      | inr e ↦ rw e (record { front = ""; is = refl; quotes = tt; bare = e })
    ]

-- A text before quotes.
pub record RightStripped (s v : String) : Type 0 where
  pub back : String
  pub is : s ≡ followed_by v back
  pub quotes : Quotes back
  pub bare : LastBare v

close_quotes-RightStripped :
    (c : Char) (s x : String)
    → RightStripped s x
    → RightStripped (String.◌∷◌ c s) (close_quotes c x)
close_quotes-RightStripped c s String.[] r = elim (Bool-cases (is_quote c)) [
  | inl e ↦
      rw (e, close_quotes)
        (record {
          back = String.◌∷◌ c r.back;
          is = ap (λ t. String.◌∷◌ c t) r.is;
          quotes = (e, r.quotes);
          bare = tt;
        })
  | inr e ↦
      rw (e, close_quotes)
        (record { back = r.back; is = ap (λ t. String.◌∷◌ c t) r.is; quotes = r.quotes; bare = e })
]
close_quotes-RightStripped c s (String.◌∷◌ d x) r = record {
  back = r.back;
  is = ap (λ t. String.◌∷◌ c t) r.is;
  quotes = r.quotes;
  bare = r.bare;
}

trim_right_quotes-RightStripped : (s : String) → RightStripped s (trim_right_quotes s)
unfolding trim_right_quotes
trim_right_quotes-RightStripped String.[] = record { back = ""; is = refl; quotes = tt; bare = tt }
trim_right_quotes-RightStripped (String.◌∷◌ c s) =
    close_quotes-RightStripped c s (trim_right_quotes s) (trim_right_quotes-RightStripped s)

close_quotes-FirstBare : (c : Char) (x : String) → is_quote c ≡ false → FirstBare (close_quotes c x)
close_quotes-FirstBare c String.[] e = rw (e, close_quotes) e
close_quotes-FirstBare c (String.◌∷◌ d x) e = e

trim_right_quotes-FirstBare : (s : String) → FirstBare s → FirstBare (trim_right_quotes s)
unfolding trim_right_quotes
trim_right_quotes-FirstBare String.[] h = tt
trim_right_quotes-FirstBare (String.◌∷◌ c s) h = close_quotes-FirstBare c (trim_right_quotes s) h

trim_quotes-Unquotes : (s : String) → Unquotes s (trim_quotes s)
unfolding trim_quotes
trim_quotes-Unquotes s =
    let l = trim_left_quotes-LeftStripped s in
    let r = trim_right_quotes-RightStripped (trim_left_quotes s) in
    record {
      front = l.front;
      back = r.back;
      is = l.is ∙ ap (followed_by l.front) r.is;
      quotes_front = l.quotes;
      quotes_back = r.quotes;
      first_bare = trim_right_quotes-FirstBare (trim_left_quotes s) l.bare;
      last_bare = r.bare;
    }

parts-Reads :
    (text : String) (o : Option (String × String))
    → IsStatement (trim_space text)
    → Splits (trim_space text) o
    → Reads text (parts o)
parts-Reads text none h free = Reads.no_assignment text h free
parts-Reads text (some (key, value)) h (c, is, at, free) =
    Reads.assignment text key value (trim_quotes (trim_space value)) c h is at free
      (trim_quotes-Unquotes (trim_space value))

-- A text is empty, begins with "#", or neither.
data Begun : String → Type 0 where
  empty : Begun ""
  hash : (c : Char) (s : String) → eqb (code c) 35 ≡ true → Begun (String.◌∷◌ c s)
  statement : (c : Char) (s : String) → eqb (code c) 35 ≡ false → Begun (String.◌∷◌ c s)

begun : (s : String) → Begun s
begun String.[] = Begun.empty
begun (String.◌∷◌ c s) = elim (Bool-cases (eqb (code c) 35)) [
  | inl e ↦ Begun.hash c s e
  | inr e ↦ Begun.statement c s e
]

line-Reads :
    (text line : String)
    → trim_space text ≡ line
    → Begun line
    → Reads text
        (if line == "" || is_comment line then Line.skipped else parts (split_at_equals line))
unfolding is_comment
line-Reads text line is Begun.empty = Reads.blank text is
line-Reads text line is (Begun.hash c s e) =
    let line = String.◌∷◌ c s in
    elim (Bool-cases (line == "")) [
      | inl f ↦ rw f (Reads.blank text (is ∙ (string_eq.same_iff line "").0 f))
      | inr f ↦ rw (f, e) (Reads.comment text c s is e)
    ]
line-Reads text line is (Begun.statement c s e) =
    let line = String.◌∷◌ c s in
    elim (Bool-cases (line == "")) [
      | inl f ↦ rw f (Reads.blank text (is ∙ (string_eq.same_iff line "").0 f))
      | inr f ↦
          rw (f, e)
            (parts-Reads text (split_at_equals line) (subst IsStatement (sym is) e)
              (subst (λ x. Splits x (split_at_equals line)) (sym is) (split_at_equals-Splits line)))
    ]

-- Every line is read as its text says.
pub read_line-Reads : (text : String) → Reads text (read_line text)
unfolding read_line
read_line-Reads text = line-Reads text (trim_space text) refl (begun (trim_space text))
