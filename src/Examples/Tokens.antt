-- ===== src/Examples/Tokens.antt =====
-- A codec for cursors over numbers, as the interface of cursors asks for one: numbers in unary.
use Prim.Native.Char.{code}
use Prim.Native.String.{[], ◌∷◌}
use resourcey.Prelude.{
  ℕ, zero, suc, String, Bool, true, false, Option, none, some, ◌≡◌, refl, ◌==◌, if◌then◌else◌,
}
use resourcey.Listing.{Cursor, Codec}

unfoldable pub unary : ℕ → String → String
unary zero rest = "b" ∷ rest
unary (suc n) rest = "a" ∷ unary n rest

abbrev one_more : Option (ℕ × String) → Option (ℕ × String)
one_more none = none
one_more (some (n, s)) = some (suc n, s)

unfoldable pub count_unary : String → Option (ℕ × String)
count_unary [] = none
count_unary (c ∷ s) =
    let rest = count_unary s in if code c == b'b' then some (0, s) else one_more rest

abbrev key_text : Option ℕ → String → String
key_text none rest = "n" ∷ rest
key_text (some k) rest = "s" ∷ unary k rest

abbrev field_text : Option String → String
field_text none = []
field_text (some f) = "s" ∷ f

abbrev flag : Bool → String → String
flag true s = "a" ∷ s
flag false s = "d" ∷ s

abbrev read_field : String → Option String
read_field [] = none
read_field (c ∷ s) = some s

abbrev keyed : Bool → ℕ → Option (ℕ × String) → Option (Cursor ℕ)
keyed up i none = none
keyed up i (some (k, s)) =
    some (record { sort_field = read_field s; ascending = up; sort_key = some k; id_value = i })

unfoldable pub read_key : Bool → ℕ → String → Option (Cursor ℕ)
unfolding count_unary
read_key up i [] = none
read_key up i (c ∷ s) =
    if code c == b'n'
    then some (record { sort_field = read_field s; ascending = up; sort_key = none; id_value = i })
    else keyed up i (count_unary s)

abbrev read_rest : Bool → Option (ℕ × String) → Option (Cursor ℕ)
read_rest up none = none
read_rest up (some (i, s)) = read_key up i s

unfoldable pub read_token : String → Option (Cursor ℕ)
unfolding read_key count_unary
read_token [] = none
read_token (c ∷ s) = read_rest (code c == b'a') (count_unary s)

unfoldable pub token : Cursor ℕ → String
unfolding unary
token c = flag c.ascending (unary c.id_value (key_text c.sort_key (field_text c.sort_field)))

pub count-unary : (n : ℕ) (s : String) → count_unary (unary n s) ≡ some (n, s)
unfolding count_unary unary
count-unary zero s = refl
count-unary (suc n) s = rw (count-unary n s)

read_field-text : (f : Option String) → read_field (field_text f) ≡ f
read_field-text none = refl
read_field-text (some f) = refl

read_key-text :
    (up : Bool) (i : ℕ) (k : Option ℕ) (f : Option String)
    → read_key up i (key_text k (field_text f))
      ≡ some (record { sort_field = f; ascending = up; sort_key = k; id_value = i })
unfolding read_key
read_key-text up i none f = rw (read_field-text f)
read_key-text up i (some k) f = rw (count-unary k (field_text f), read_field-text f)

read-flag :
    (up : Bool) (i : ℕ) (k : Option ℕ) (f : Option String)
    → read_token (flag up (unary i (key_text k (field_text f))))
      ≡ some (record { sort_field = f; ascending = up; sort_key = k; id_value = i })
unfolding read_token
read-flag true i k f = rw (count-unary i (key_text k (field_text f)), read_key-text true i k f)
read-flag false i k f = rw (count-unary i (key_text k (field_text f)), read_key-text false i k f)

pub read-token : (c : Cursor ℕ) → read_token (token c) ≡ some c
unfolding token
read-token c = read-flag c.ascending c.id_value c.sort_key c.sort_field

instance abbrev pub tokens : Codec ℕ
tokens = record { encode = token; decode = read_token; decode-encode = read-token }
