-- ===== src/Structure/Packing/Python.antt =====
-- The names and the string literals of Python, as far as the texts of Structure/Packing use them: a
-- name here is of ASCII letters, digits and underscores.
use Prim.Native.Char.{Char, code}
use leapp.Common.{
  String, string_eq, nat_eq, ◌≡◌, refl, List, [], ◌∷◌, Bool, true, false, ◌&&◌, ◌||◌, ◌==◌, not,
  ltb, arith, contains, if◌then◌else◌, Bool-cases, inl, inr,
}

abbrev is_between : Char → Char → Char → Bool
is_between a b c = not (ltb (code c) (code a)) && not (ltb (code b) (code c))

abbrev is_letter : Char → Bool
is_letter c = is_between "a" "z" c || (is_between "A" "Z" c || (code c == 95))

abbrev is_digit : Char → Bool
is_digit c = is_between "0" "9" c

-- `s[1:]` of a name.
unfoldable pub are_name_chars : String → Bool
are_name_chars String.[] = true
are_name_chars (String.◌∷◌ c s) = (is_letter c || is_digit c) && are_name_chars s

abbrev pub keywords : List String
keywords =
    "False" ∷ "None" ∷ "True" ∷ "and" ∷ "as" ∷ "assert" ∷ "async" ∷ "await" ∷ "break" ∷ "class"
    ∷ "continue" ∷ "def" ∷ "del" ∷ "elif" ∷ "else" ∷ "except" ∷ "finally" ∷ "for" ∷ "from"
    ∷ "global" ∷ "if" ∷ "import" ∷ "in" ∷ "is" ∷ "lambda" ∷ "nonlocal" ∷ "not" ∷ "or" ∷ "pass"
    ∷ "raise" ∷ "return" ∷ "try" ∷ "while" ∷ "with" ∷ "yield" ∷ []

abbrev starts_name : String → Bool
starts_name String.[] = false
starts_name (String.◌∷◌ c s) = is_letter c

-- A name that can be assigned to: no keyword, and no digit at the start.
unfoldable pub is_identifier : String → Bool
is_identifier s = starts_name s && (are_name_chars s && not (contains keywords s))

-- The characters that a literal in double quotes cannot have as they are: the quote, the backslash,
-- the ends of a line and NUL.
abbrev is_special : Char → Bool
is_special c =
    (code c == 34) || ((code c == 92) || ((code c == 10) || ((code c == 13) || (code c == 0))))

-- What stands for a special character in a literal, in front of the rest.
abbrev escaped : Char → String → String
escaped c s =
    if code c == 10
    then String.◌∷◌ "\\" (String.◌∷◌ "n" s)
    else if code c == 13
    then String.◌∷◌ "\\" (String.◌∷◌ "r" s)
    else if code c == 0
    then String.◌∷◌ "\\" (String.◌∷◌ "x" (String.◌∷◌ "0" (String.◌∷◌ "0" s)))
    else String.◌∷◌ "\\" (String.◌∷◌ c s)

-- What is written between the quotes of a literal for a text.
unfoldable pub escape : String → String
escape String.[] = ""
escape (String.◌∷◌ c s) =
    let rest = escape s in if is_special c then escaped c rest else String.◌∷◌ c rest

-- The text has no special character.
unfoldable pub is_plain : String → Bool
is_plain String.[] = true
is_plain (String.◌∷◌ c s) = not (is_special c) && is_plain s

-- A plain text is written as it is.
pub escape-is_plain : (s : String) → is_plain s ≡ true → escape s ≡ s
unfolding escape is_plain
escape-is_plain String.[] h = refl
escape-is_plain (String.◌∷◌ c s) h = elim (Bool-cases (is_special c)) [
  | inl special ↦ absurd (cc (rw special at h))
  | inr plain ↦ rw (plain, escape-is_plain s (rw plain at h)) refl
]

-- `"[" in s`
unfoldable pub has_bracket : String → Bool
has_bracket String.[] = false
has_bracket (String.◌∷◌ c s) = (code c == 91) || has_bracket s

bracket_free_chars : (s : String) → are_name_chars s ≡ true → has_bracket s ≡ false
unfolding are_name_chars has_bracket
bracket_free_chars String.[] h = refl
bracket_free_chars (String.◌∷◌ c s) h = ground (arith, bracket_free_chars s)

pub bracket_free : (s : String) → is_identifier s ≡ true → has_bracket s ≡ false
unfolding is_identifier
bracket_free s h = bracket_free_chars s (ground (arith, h))
