-- ===== src/Cursors/RoundTrip.antt =====
-- A cursor opens to what it was made of, so the codec fills the interface of the list service.
use resourcey.Prelude.{◌≡◌, refl, Option, none, some}
use resourcey.Failure.{Result, ok, err}
use resourcey.Listing.{Cursor, Codec}
use resourcey.Cursors.{
  Key, flag, integer, string, datetime, uuid, Platform, serialize, deserialize, encode_cursor,
  decode_cursor,
}

module _ ⦃p : Platform⦄ where
  deserialize-serialize : (v : Option Key) → deserialize (serialize v) ≡ ok v
  unfolding serialize deserialize
  deserialize-serialize none = refl
  deserialize-serialize (some (flag b)) = refl
  deserialize-serialize (some (integer n)) = refl
  deserialize-serialize (some (string t)) = rw (p.str-quoted t) refl
  deserialize-serialize (some (datetime t)) =
      rw (p.str-quoted (p.isoformat t), p.fromisoformat-isoformat t) refl
  deserialize-serialize (some (uuid u)) =
      rw (p.str-quoted (p.uuid_text u), p.uuid_of-uuid_text u) refl

  -- On a platform whose readers open what its writers made, a cursor decodes to exactly what it
  -- was made of: the sort field, the direction, the typed sort key, which may be missing, and the
  -- typed id.
  pub decode_cursor-encode_cursor : (c : Cursor Key) → decode_cursor (encode_cursor c) ≡ ok c
  unfolding encode_cursor decode_cursor
  decode_cursor-encode_cursor c =
      rw
        (
          p.decrypt_value-encrypt_value _,
          p.loads-dumps _,
          deserialize-serialize c.sort_key,
          deserialize-serialize (some c.id_value),
        )
        refl

  abbrev opened : Result (Cursor Key) → Option (Cursor Key)
  opened (ok c) = some c
  opened (err e) = none

  -- The codec of the list service: whatever `decode_cursor` raises is a malformed cursor.
  cursor_codec : Codec Key
  cursor_codec = record {
    encode = encode_cursor;
    decode = λ t. opened (decode_cursor t);
    decode-encode = λ c. rw (decode_cursor-encode_cursor c) refl;
  }
