-- ===== src/Mongo/Regex.antt =====
-- The expression of a substring test (`_escaped` of resourcey/mongo/mongo_filter_converter.py), and
-- how an expression that has no operator in it is read.
use Prim.Native.Char.{code}
use Prim.Native.String.{[], ◌∷◌}
use mathlib.Core.Option
use resourcey.Prelude.{
  ℕ, String, ◌≡◌, refl, Bool, true, false, ◌==◌, ◌||◌, leb, ◌&&◌, Option, none, some, if◌then◌else◌,
  Bool-cases, inl, inr, arith,
}

-- The characters that `re.escape` puts a backslash in front of.
unfoldable pub is_special : ℕ → Bool
is_special n =
    leb 9 n && leb n 13
    || n == b' '
    || n == b'#'
    || n == b'$'
    || n == b'&'
    || leb b'(' n && leb n b'+'
    || n == b'-'
    || n == b'.'
    || n == b'?'
    || leb b'[' n && leb n b'^'
    || leb b'{' n && leb n b'~'

-- `re.escape`.
unfoldable pub escaped : String → String
escaped [] = []
escaped (c ∷ s) = let rest = escaped s in if is_special (code c) then "\\" ∷ c ∷ rest else c ∷ rest

-- The text that an expression without operators stands for, from a place that may be behind a
-- backslash.
unfoldable pub literal_of : Bool → String → Option String
literal_of true [] = none
literal_of false [] = some []
literal_of true (c ∷ s) =
    let rest = literal_of false s in
    if is_special (code c) then Option.map (λ t. c ∷ t) rest else none
literal_of false (c ∷ s) =
    let behind = literal_of true s in
    let rest = literal_of false s in
    if code c == b'\\'
    then behind
    else if is_special (code c)
    then none
    else Option.map (λ t. c ∷ t) rest

backslash_special : (n : ℕ) → is_special n ≡ false → (n == b'\\') ≡ false
unfolding is_special
backslash_special n e = ground (arith, e)

-- The expression of a substring test stands for the text that is sought, whatever its characters.
pub literal_of-escaped : (t : String) → literal_of false (escaped t) ≡ some t
unfolding literal_of escaped
literal_of-escaped [] = refl
literal_of-escaped (c ∷ t) = elim (Bool-cases (is_special (code c))) [
  | inl e ↦ rw e (rw (literal_of-escaped t, e) refl)
  | inr e ↦ rw e (rw (backslash_special (code c) e, e, literal_of-escaped t) refl)
]
