-- ===== src/Examples/Sealed.antt =====
-- A platform whose texts are written in unary, and a cursor that goes through it.
use Prim.Native.Char.{code}
use Prim.Native.String.{[], ◌∷◌}
use resourcey.Prelude.{
  ℕ, String, Bool, true, false, Option, none, some, ◌≡◌, refl, ◌==◌, if◌then◌else◌,
}
use resourcey.Prelude.Int.{ℤ, pos, negsuc}
use resourcey.Failure.{Result, ok, err, value_error}
use resourcey.Listing.{Cursor}
use resourcey.Cursors.{
  Key, datetime, uuid, Json, missing, boolean, number, quoted, Tagged, Payload, Platform,
  encode_cursor, decode_cursor,
}
use resourcey.Cursors.RoundTrip.{decode_cursor-encode_cursor}
use resourcey.Examples.Tokens.{unary, count_unary, count-unary}

-- What a reader leaves of its text, with what it read.
abbrev Read {ℓ} : Type ℓ → Type ℓ
Read A = Option (A × String)

put_text : String → String → String
put_text [] rest = "b" ∷ rest
put_text (c ∷ s) rest = "a" ∷ c ∷ put_text s rest

put_integer : ℤ → String → String
put_integer (pos n) rest = "p" ∷ unary n rest
put_integer (negsuc n) rest = "m" ∷ unary n rest

abbrev one_integer : Bool → Read ℕ → Read ℤ
one_integer up none = none
one_integer up (some (n, rest)) = some (if up then pos n else negsuc n, rest)

get_integer : String → Read ℤ
get_integer [] = none
get_integer (c ∷ s) = one_integer (code c == b'p') (count_unary s)

get-put_integer : (n : ℤ) (rest : String) → get_integer (put_integer n rest) ≡ some (n, rest)
unfolding get_integer put_integer
get-put_integer (pos n) rest = rw (count-unary n rest) refl
get-put_integer (negsuc n) rest = rw (count-unary n rest) refl

get_text : String → Read String
get_text [] = none
get_text (x ∷ []) = if code x == b'b' then some ([], []) else none
get_text (x ∷ c ∷ s) =
    let rest = get_text s in
    if code x == b'b'
    then some ([], c ∷ s)
    else elim rest [ none ↦ none | some (t, left) ↦ some (c ∷ t, left) ]

get-put_text : (t rest : String) → get_text (put_text t rest) ≡ some (t, rest)
unfolding get_text put_text
get-put_text [] [] = refl
get-put_text [] (c ∷ rest) = refl
get-put_text (c ∷ t) rest = rw (get-put_text t rest) refl

put_json : Json → String → String
unfolding put_integer put_text
put_json missing rest = "n" ∷ rest
put_json (boolean true) rest = "t" ∷ rest
put_json (boolean false) rest = "f" ∷ rest
put_json (number n) rest = "i" ∷ put_integer n rest
put_json (quoted t) rest = "q" ∷ put_text t rest

abbrev mapped {ℓ} : {A B : Type ℓ} → (A → B) → Read A → Read B
mapped f none = none
mapped f (some (a, rest)) = some (f a, rest)

get_json : String → Read Json
get_json [] = none
get_json (c ∷ s) =
    if code c == b'n'
    then some (missing, s)
    else if code c == b't'
    then some (boolean true, s)
    else if code c == b'f'
    then some (boolean false, s)
    else if code c == b'i'
    then mapped number (get_integer s)
    else mapped quoted (get_text s)

get-put_json : (v : Json) (rest : String) → get_json (put_json v rest) ≡ some (v, rest)
unfolding get_json put_json
get-put_json missing rest = refl
get-put_json (boolean true) rest = refl
get-put_json (boolean false) rest = refl
get-put_json (number n) rest = rw (get-put_integer n rest) refl
get-put_json (quoted t) rest = rw (get-put_text t rest) refl

put_tagged : Tagged → String → String
put_tagged t rest = put_text t.tag (put_json t.value rest)

abbrev valued : String → Read Json → Read Tagged
valued t none = none
valued t (some (v, rest)) = some (record { tag = t; value = v }, rest)

abbrev tagged : Read String → Read Tagged
tagged none = none
tagged (some (t, rest)) = valued t (get_json rest)

get_tagged : String → Read Tagged
get_tagged s = tagged (get_text s)

get-put_tagged : (t : Tagged) (rest : String) → get_tagged (put_tagged t rest) ≡ some (t, rest)
unfolding get_tagged put_tagged
get-put_tagged t rest =
    rw (get-put_text t.tag (put_json t.value rest), get-put_json t.value rest) refl

put_field : Option String → String
put_field none = []
put_field (some f) = "s" ∷ f

get_field : String → Option String
get_field [] = none
get_field (c ∷ s) = some s

get-put_field : (f : Option String) → get_field (put_field f) ≡ f
unfolding get_field put_field
get-put_field none = refl
get-put_field (some f) = refl

put_payload : Payload → String
put_payload p = put_json (boolean p.a) (put_tagged p.k (put_tagged p.id (put_field p.s)))

abbrev ended : Bool → Tagged → Read Tagged → Result Payload
ended up key none = err value_error
ended up key (some (i, rest)) = ok (record { s = get_field rest; a = up; k = key; id = i })

abbrev identified : Bool → Read Tagged → Result Payload
identified up none = err value_error
identified up (some (key, rest)) = ended up key (get_tagged rest)

abbrev directed : Read Json → Result Payload
directed (some (boolean up, rest)) = identified up (get_tagged rest)
directed _ = err value_error

get_payload : String → Result Payload
get_payload s = directed (get_json s)

get-put_payload : (p : Payload) → get_payload (put_payload p) ≡ ok p
unfolding get_payload put_payload
get-put_payload p =
    rw
      (
        get-put_json (boolean p.a) (put_tagged p.k (put_tagged p.id (put_field p.s))),
        get-put_tagged p.k (put_tagged p.id (put_field p.s)),
        get-put_tagged p.id (put_field p.s),
        get-put_field p.s,
      )
      refl

abbrev number_text : ℕ → String
number_text n = unary n []

abbrev whole : Read ℕ → Result ℕ
whole none = err value_error
whole (some (n, rest)) = ok n

number_of : String → Result ℕ
number_of s = whole (count_unary s)

number_of-number_text : (n : ℕ) → number_of (number_text n) ≡ ok n
unfolding number_of
number_of-number_text n = rw (count-unary n []) refl

abbrev quoted_text : Json → String
quoted_text (quoted t) = t
quoted_text v = "None"

abbrev clear : Platform
clear = record {
  isoformat = number_text;
  fromisoformat = number_of;
  uuid_text = number_text;
  uuid_of = number_of;
  str = quoted_text;
  other = λ t v. err value_error;
  dumps = put_payload;
  loads = get_payload;
  encrypt_value = λ t. t;
  decrypt_value = λ t. ok t;
  fromisoformat-isoformat = number_of-number_text;
  uuid_of-uuid_text = number_of-number_text;
  str-quoted = λ t. refl;
  loads-dumps = get-put_payload;
  decrypt_value-encrypt_value = λ t. refl;
}

abbrev newest_first : Cursor Key
newest_first = record {
  sort_field = some "created_at";
  ascending = false;
  sort_key = some (datetime 17);
  id_value = uuid 7;
}

decode_cursor-encode_cursor_example :
    decode_cursor ⦃p = clear⦄ (encode_cursor ⦃p = clear⦄ newest_first) ≡ ok newest_first
decode_cursor-encode_cursor_example = decode_cursor-encode_cursor ⦃p = clear⦄ newest_first
