-- ===== src/Sql/Like.antt =====
-- The pattern of a substring test (`_contains_pattern` of resourcey/sql/filter_converter.py), and
-- how SQL reads a LIKE pattern with `\` for its escape character.
use Prim.Native.Char.{Char, code}
use Prim.Native.String.{[], ◌∷◌}
use resourcey.Prelude.{
  ℕ, String, ◌≡◌, refl, Bool, true, false, ◌==◌, if◌then◌else◌, Bool-cases, inl, inr, arith, ltb,
}

-- `s.replace(ch, "\\" + ch)` for one character.
unfoldable pub escape : ℕ → String → String
escape ch [] = []
escape ch (c ∷ s) = let rest = escape ch s in if code c == ch then "\\" ∷ c ∷ rest else c ∷ rest

unfoldable pub then_percent : String → String
then_percent [] = "%"
then_percent (c ∷ s) = c ∷ then_percent s

unfoldable pub safe : String → String
unfolding escape
safe s = escape b'_' (escape b'%' (escape b'\\' s))

unfoldable pub contains_pattern : String → String
unfolding safe then_percent
contains_pattern value = "%" ∷ then_percent (safe value)

-- A pattern as SQL reads it: a literal text, or a literal, a wildcard (`%` or `_`) and the rest.
pub data Pattern : Type 0 where
  literal : String → Pattern
  wild : String → Bool → Pattern → Pattern

pub data Kind : Type 0 where
  percent underscore backslash plain : Kind

abbrev pub kind : ℕ → Kind
kind n =
    if n == b'%'
    then percent
    else if n == b'_'
    then underscore
    else if n == b'\\'
    then backslash
    else plain

abbrev pub push : Char → Pattern → Pattern
push c (literal s) = literal (c ∷ s)
push c (wild s any rest) = wild (c ∷ s) any rest

unfoldable pub parts_from : Bool → String → Pattern
parts_from escaped [] = literal []
parts_from true (c ∷ s) = push c (parts_from false s)
parts_from false (c ∷ s) = elim (kind (code c)) [
  | percent ↦ wild [] true (parts_from false s)
  | underscore ↦ wild [] false (parts_from false s)
  | backslash ↦ parts_from true s
  | plain ↦ push c (parts_from false s)
]

-- The pattern that holds of the texts with `needle` somewhere in them.
abbrev pub around : String → Pattern
around needle = wild [] true (wild needle true (literal []))

parts-safe : (t : String) → parts_from false (then_percent (safe t)) ≡ wild t true (literal [])
unfolding parts_from then_percent safe escape
parts-safe [] = refl
parts-safe (c ∷ t) = elim (Bool-cases (code c == b'\\')) [
  | inl e ↦
      (let f : (code c == b'%') ≡ false = ground (arith, e) in
        let g : (code c == b'_') ≡ false = ground (arith, e) in rw (e, f, g, parts-safe t) refl)
  | inr e ↦ elim (Bool-cases (code c == b'%')) [
    | inl f ↦
        (let g : (code c == b'_') ≡ false = ground (arith, f) in rw (e, f, g, parts-safe t) refl)
    | inr f ↦ elim (Bool-cases (code c == b'_')) [
      | inl g ↦ rw (e, f, g, parts-safe t) refl
      | inr g ↦ rw (e, f, g) (grind (arith, parts-safe t, e, f, g))
    ]
  ]
]

-- SQL reads the pattern of a substring test as the needle between two wildcards, so that `%`, `_`
-- and the escape character of the needle stand for themselves.
pub parts-contains_pattern : (t : String) → parts_from false (contains_pattern t) ≡ around t
unfolding parts_from contains_pattern
parts-contains_pattern t = rw (parts-safe t) refl

-- A text of ASCII characters, in which case databases fold as Python does.
abbrev pub IsAscii : String → Type 0
IsAscii [] = Unit
IsAscii (c ∷ t) = (ltb (code c) 128 ≡ true) × IsAscii t
