-- ===== src/Cache/Keys.antt =====
-- The keys of resourcey/cache/cached_service.py: a write's prefix covers the keys of its path, and
-- two reads share a key only where they share an operation and a discriminator.
use Prim.Native.Char.{code}
use Prim.Native.String.{[], ◌∷◌}
use resourcey.Prelude.{
  ℕ, String, ◌≡◌, refl, sym, ap, ◌∙◌, true, false, none, some, List, str_eq, str_eq_iff, Bool-cases,
  inl, inr, ==_iff, if◌then◌else◌, arith,
}
use resourcey.Text.{has_prefix}
use resourcey.Cache.{
  CacheEntry, Store, get, set, clear, joined, Cached, Request, read, batch_read, search, count,
  operation, own_prefix, cache_key,
}

has_prefix-joined : (p t : String) → has_prefix p (joined p t) ≡ true
unfolding has_prefix joined
has_prefix-joined [] t = refl
has_prefix-joined (c ∷ p) t = rw ((==_iff (code c) (code c)).1 refl) (has_prefix-joined p t)

-- The rest of a text after its first character.
rest : String → String
rest [] = []
rest (c ∷ s) = s

first : String → ℕ
first [] = 0
first (c ∷ s) = code c

joined-cancel : (p s t : String) → joined p s ≡ joined p t → s ≡ t
unfolding joined rest
joined-cancel [] s t e = e
joined-cancel (c ∷ p) s t e = joined-cancel p s t (ap rest e)

pub key-own_prefix : (w : Cached) (q : Request) → has_prefix (own_prefix w) (cache_key w q) ≡ true
unfolding cache_key
key-own_prefix w q = has_prefix-joined (own_prefix w) _

-- The operations differ in their first letters.
letter : Request → ℕ
letter (read i) = b'r'
letter (batch_read is) = b'b'
letter (search f s c n) = b's'
letter (count f) = b'c'

first-letter : (q : Request) (t : String) → first (joined (operation q) t) ≡ letter q
unfolding joined first letter
first-letter (read i) t = refl
first-letter (batch_read is) t = refl
first-letter (search f s c n) t = refl
first-letter (count f) t = refl

letter-operation : (q q' : Request) → letter q ≡ letter q' → operation q ≡ operation q'
unfolding letter
letter-operation (read i) (read i') e = refl
letter-operation (read i) (batch_read is') e = absurd (omega (arith, e))
letter-operation (read i) (search f' s' c' n') e = absurd (omega (arith, e))
letter-operation (read i) (count f') e = absurd (omega (arith, e))
letter-operation (batch_read is) (read i') e = absurd (omega (arith, e))
letter-operation (batch_read is) (batch_read is') e = refl
letter-operation (batch_read is) (search f' s' c' n') e = absurd (omega (arith, e))
letter-operation (batch_read is) (count f') e = absurd (omega (arith, e))
letter-operation (search f s c n) (read i') e = absurd (omega (arith, e))
letter-operation (search f s c n) (batch_read is') e = absurd (omega (arith, e))
letter-operation (search f s c n) (search f' s' c' n') e = refl
letter-operation (search f s c n) (count f') e = absurd (omega (arith, e))
letter-operation (count f) (read i') e = absurd (omega (arith, e))
letter-operation (count f) (batch_read is') e = absurd (omega (arith, e))
letter-operation (count f) (search f' s' c' n') e = absurd (omega (arith, e))
letter-operation (count f) (count f') e = refl

pub key-operation :
    (w : Cached) (q q' : Request)
    → cache_key w q ≡ cache_key w q'
    → (operation q ≡ operation q') × (w.discriminator q ≡ w.discriminator q')
unfolding cache_key
key-operation w q q' e =
    (let tails = joined-cancel (own_prefix w) _ _ e in
      let same =
        letter-operation q q' (sym (first-letter q _) ∙ ap first tails ∙ first-letter q' _) in
      (
        same,
        joined-cancel ":" _ _ (
            joined-cancel (operation q) _ _
              (tails ∙ ap (λ o. joined o (joined ":" (w.discriminator q'))) (sym same))),
      ))

-- An evicted prefix leaves none of its keys.
pub get-clear :
    (prefix key : String) (store : Store)
    → has_prefix prefix key ≡ true
    → get key (clear prefix store) ≡ none
unfolding get clear
get-clear prefix key List.[] h = refl
get-clear prefix key (List.◌∷◌ (k, entry) later) h = elim (Bool-cases (has_prefix prefix k)) [
  | inl e ↦ rw e (get-clear prefix key later h)
  | inr e ↦ elim (Bool-cases (str_eq k key)) [
    | inl f ↦ cc (e, h, ap (has_prefix prefix) ((str_eq_iff k key).0 f))
    | inr f ↦ rw (e, f) (get-clear prefix key later h)
  ]
]

pub get-set_same :
    (key : String) (entry : CacheEntry) (store : Store) → get key (set key entry store) ≡ some entry
unfolding get set
get-set_same key entry List.[] = rw ((str_eq_iff key key).1 refl) refl
get-set_same key entry (List.◌∷◌ (k, old) later) = elim (Bool-cases (str_eq k key)) [
  | inl e ↦ rw (e, (str_eq_iff key key).1 refl) refl
  | inr e ↦ rw (e, e) (get-set_same key entry later)
]

pub get-set_other :
    (key other : String) (entry : CacheEntry) (store : Store)
    → str_eq key other ≡ false
    → get other (set key entry store) ≡ get other store
unfolding get set
get-set_other key other entry List.[] h = rw h refl
get-set_other key other entry (List.◌∷◌ (k, old) later) h = elim (Bool-cases (str_eq k key)) [
  | inl e ↦
      (let f : str_eq k other ≡ false = ap (λ l. str_eq l other) ((str_eq_iff k key).0 e) ∙ h in
        rw (e, h, f) refl)
  | inr e ↦
      rw e
        (ap (λ o. if str_eq k other then some old else o) (get-set_other key other entry later h))
]
