-- ===== src/Text.antt =====
-- The text operations of Python's `str` that the program uses, over code points: stripping,
-- splitting at commas, searching, the last "__" of a field name, and the order of texts.
use Prim.Native.Char.{code}
use Prim.Native.String.{[], ◌∷◌}
use mathlib.Core.Option
use resourcey.Prelude.{
  ℕ, zero, suc, ◌+◌, ◌*◌, ◌-◌, String, Bool, true, false, ◌&&◌, ◌||◌, Option, none, some, List, ltb,
  leb, ◌==◌, if◌then◌else◌,
}
use resourcey.Prelude.Int.{ℤ, pos, negsuc}

-- The code points that `str.strip` and `str.split` take for blanks.
unfoldable pub is_space : ℕ → Bool
is_space c =
    leb 9 c && leb c 13
    || leb 28 c && leb c 32
    || c == 133
    || c == 160
    || c == 5760
    || leb 8192 c && leb c 8202
    || c == 8232
    || c == 8233
    || c == 8239
    || c == 8287
    || c == 12288

unfoldable pub is_blank : String → Bool
unfolding is_space
is_blank [] = true
is_blank (c ∷ s) = is_space (code c) && is_blank s

unfoldable pub strip_left : String → String
unfolding is_space
strip_left [] = []
strip_left (c ∷ s) = let rest = strip_left s in if is_space (code c) then rest else c ∷ s

unfoldable pub strip_right : String → String
unfolding is_blank
strip_right [] = []
strip_right (c ∷ s) = let rest = strip_right s in if is_blank (c ∷ s) then [] else c ∷ rest

unfoldable pub strip : String → String
unfolding strip_left strip_right
strip s = strip_right (strip_left s)

-- `s.split(sep)` at one character: the pieces between the separators, empty ones too.
unfoldable pub split_aux : ℕ → String → (String × List String)
split_aux sep [] = ([], List.[])
split_aux sep (c ∷ s) =
    let (first, rest) = split_aux sep s in
    if code c == sep then ([], List.◌∷◌ first rest) else (c ∷ first, rest)

unfoldable pub split : ℕ → String → List String
unfolding split_aux
split sep s = let (first, rest) = split_aux sep s in List.◌∷◌ first rest

unfoldable pub has_prefix : String → String → Bool
has_prefix [] s = true
has_prefix (c ∷ p) [] = false
has_prefix (c ∷ p) (d ∷ s) = code c == code d && has_prefix p s

-- `needle in text`.
unfoldable pub occurs_in : String → String → Bool
unfolding has_prefix
occurs_in p [] = has_prefix p []
occurs_in p (c ∷ s) = has_prefix p (c ∷ s) || occurs_in p s

-- `name.rpartition("__")`: what stands before and after the last separator, if there is one.
abbrev after_two : String → String
after_two [] = []
after_two (c ∷ []) = []
after_two (c ∷ d ∷ s) = s

unfoldable pub rpartition : String → Option (String × String)
unfolding has_prefix
rpartition [] = none
rpartition (c ∷ s) = elim (rpartition s) [
  | some (head, op) ↦ some (c ∷ head, op)
  | none ↦ if has_prefix "__" (c ∷ s) then some ([], after_two (c ∷ s)) else none
]

-- The order of texts, code point by code point.
unfoldable pub text_lt : String → String → Bool
text_lt [] [] = false
text_lt [] (d ∷ t) = true
text_lt (c ∷ s) [] = false
text_lt (c ∷ s) (d ∷ t) = if code c == code d then text_lt s t else ltb (code c) (code d)

-- `s.split()`: the words between blanks.
unfoldable pub flush : String → List String → List String
flush [] ws = ws
flush (c ∷ w) ws = List.◌∷◌ (c ∷ w) ws

unfoldable pub words_aux : String → (String × List String)
unfolding flush is_space
words_aux [] = ([], List.[])
words_aux (c ∷ s) =
    let (w, ws) = words_aux s in if is_space (code c) then ([], flush w ws) else (c ∷ w, ws)

unfoldable pub words : String → List String
unfolding flush words_aux
words s = let (w, ws) = words_aux s in flush w ws

-- `s.partition(sep)` at one character, if it is there.
unfoldable pub partition : ℕ → String → Option (String × String)
partition sep [] = none
partition sep (c ∷ s) = elim (partition sep s) [
  | none ↦ if code c == sep then some ([], s) else none
  | some (before, after) ↦ if code c == sep then some ([], s) else some (c ∷ before, after)
]

unfoldable pub digit : ℕ → Option ℕ
digit c = if leb b'0' c && leb c b'9' then some (c - b'0') else none

-- The digits of `int(text)`: ASCII digits, with single underscores between digits.
unfoldable pub int_digits : Bool → ℕ → String → Option ℕ
unfolding digit
int_digits after_digit n [] = if after_digit then some n else none
int_digits after_digit n (c ∷ s) =
    let under = int_digits false n s in
    elim (digit (code c)) [
      | some d ↦ int_digits true (n * 10 + d) s
      | none ↦ if code c == b'_' && after_digit then under else none
    ]

unfoldable pub negated : ℕ → ℤ
negated zero = pos 0
negated (suc n) = negsuc n

-- `int(text)` of a stripped text; `none` is its `ValueError`.
unfoldable pub parse_int : String → Option ℤ
unfolding int_digits negated
parse_int [] = none
parse_int (c ∷ s) =
    if code c == b'-'
    then Option.map negated (int_digits false 0 s)
    else if code c == b'+'
    then Option.map pos (int_digits false 0 s)
    else Option.map pos (int_digits false 0 (c ∷ s))

-- The number of a text that matches the expression of one or more digits.
unfoldable pub plain_digits : ℕ → String → Option ℕ
unfolding digit
plain_digits n [] = some n
plain_digits n (c ∷ s) = elim (digit (code c)) [
  | none ↦ none
  | some d ↦ plain_digits (n * 10 + d) s
]

unfoldable pub parse_digits : String → Option ℕ
unfolding plain_digits
parse_digits [] = none
parse_digits (c ∷ s) = plain_digits 0 (c ∷ s)
