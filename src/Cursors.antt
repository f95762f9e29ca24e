-- ===== src/Cursors.antt =====
-- resourcey/util/cursor.py: what a cursor carries, tagged by type, as JSON, encrypted.
pub mod RoundTrip
use resourcey.Prelude.{
  ℕ, String, ◌≡◌, Bool, true, false, not, Option, none, some, str_eq, if◌then◌else◌,
}
use resourcey.Prelude.Int.{ℤ, pos, eqb_ℤ}
use resourcey.Text.{parse_int, strip}
use resourcey.Failure.{Result, ok, err, value_error, type_error, ◌>>=◌}
use resourcey.Listing.{Cursor}

-- A sort key or an id that is not `None`. A timestamp counts microseconds, a UUID is its number.
pub data Key : Type 0 where
  flag : Bool → Key
  integer : ℤ → Key
  string : String → Key
  datetime : ℕ → Key
  uuid : ℕ → Key

-- The scalars of JSON, without floats.
pub data Json : Type 0 where
  missing : Json
  boolean : Bool → Json
  number : ℤ → Json
  quoted : String → Json

-- A value under its tag.
pub record Tagged : Type 0 where
  pub tag : String
  pub value : Json

-- The object that is encrypted, by its four members.
pub record Payload : Type 0 where
  pub s : Option String
  pub a : Bool
  pub k : Tagged
  pub id : Tagged

-- The libraries that the codec calls, and what they document: each reader opens what its writer
-- made. `other` reads the tags of floats, decimals, dates and times.
pub record Platform : Type 0 where
  pub isoformat : ℕ → String
  pub fromisoformat : String → Result ℕ
  pub uuid_text : ℕ → String
  pub uuid_of : String → Result ℕ
  pub str : Json → String
  pub other : String → Json → Result (Option Key)
  pub dumps : Payload → String
  pub loads : String → Result Payload
  pub encrypt_value : String → String
  pub decrypt_value : String → Result String
  pub fromisoformat-isoformat : (t : ℕ) → fromisoformat (isoformat t) ≡ ok t
  pub uuid_of-uuid_text : (u : ℕ) → uuid_of (uuid_text u) ≡ ok u
  pub str-quoted : (t : String) → str (quoted t) ≡ t
  pub loads-dumps : (p : Payload) → loads (dumps p) ≡ ok p
  pub decrypt_value-encrypt_value : (t : String) → decrypt_value (encrypt_value t) ≡ ok t

-- `bool(repr_)` and `int(repr_)`.
abbrev truth : Json → Bool
truth missing = false
truth (boolean b) = b
truth (number n) = not (eqb_ℤ n (pos 0))
truth (quoted t) = not (str_eq t "")

abbrev parsed : Option ℤ → Result (Option Key)
parsed none = err value_error
parsed (some n) = ok (some (integer n))

unfoldable pub int_of : Json → Result (Option Key)
unfolding parse_int strip
int_of missing = err type_error
int_of (boolean b) = ok (some (integer (if b then pos 1 else pos 0)))
int_of (number n) = ok (some (integer n))
int_of (quoted t) = parsed (parse_int (strip t))

module _ ⦃p : Platform⦄ where
  -- `_serialize`.
  unfoldable pub serialize : Option Key → Tagged
  serialize none = record { tag = "n"; value = missing }
  serialize (some (flag b)) = record { tag = "b"; value = boolean b }
  serialize (some (integer n)) = record { tag = "i"; value = number n }
  serialize (some (string t)) = record { tag = "s"; value = quoted t }
  serialize (some (datetime t)) = record { tag = "dt"; value = quoted (p.isoformat t) }
  serialize (some (uuid u)) = record { tag = "u"; value = quoted (p.uuid_text u) }

  -- `_deserialize`.
  unfoldable pub deserialize : Tagged → Result (Option Key)
  unfolding int_of
  deserialize t =
      if str_eq t.tag "n"
      then ok none
      else if str_eq t.tag "b"
      then ok (some (flag (truth t.value)))
      else if str_eq t.tag "i"
      then int_of t.value
      else if str_eq t.tag "s"
      then ok (some (string (p.str t.value)))
      else if str_eq t.tag "dt"
      then (p.fromisoformat (p.str t.value) >>= λ n. ok (some (datetime n)))
      else if str_eq t.tag "u"
      then (p.uuid_of (p.str t.value) >>= λ n. ok (some (uuid n)))
      else p.other t.tag t.value

  unfoldable pub encode_cursor : Cursor Key → String
  encode_cursor c = p.encrypt_value (
      p.dumps (record {
        s = c.sort_field;
        a = c.ascending;
        k = serialize c.sort_key;
        id = serialize (some c.id_value);
      }))

  -- An id is never `None`.
  abbrev present : Option Key → Result Key
  present none = err value_error
  present (some i) = ok i

  unfoldable pub decode_cursor : String → Result (Cursor Key)
  decode_cursor text = do
    plain ← p.decrypt_value text
    payload ← p.loads plain
    key ← deserialize payload.k
    found ← deserialize payload.id
    i ← present found
    ok (record { sort_field = payload.s; ascending = payload.a; sort_key = key; id_value = i })
