-- ===== src/Examples/Rows.antt =====
-- A casing that leaves texts alone, and rows to filter.
use resourcey.Prelude.{[], ◌∷◌}
use resourcey.Value.{Row, one, text, uid}
use resourcey.Filter.{Casing}

instance abbrev pub plain : Casing
plain = record { lower = λ s. s }

-- A document of the user with the given id.
abbrev pub document : Row
document = ("id", one (uid 7)) ∷ ("owner_id", one (uid 42)) ∷ ("title", one (text "plan")) ∷ []

abbrev pub renamed : Row
renamed = ("id", one (uid 7)) ∷ ("owner_id", one (uid 42)) ∷ ("title", one (text "draft")) ∷ []
