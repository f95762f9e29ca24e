-- ===== src/Cache.antt =====
-- resourcey/cache/cached_service.py and cache_store.py: the read-through cache in front of an inner
-- service, over a store that it may share with the services of other paths.
pub mod Keys
pub mod Coherence
use Prim.Native.String.{[], ◌∷◌}
use resourcey.Prelude.{
  ℕ, String, Bool, true, false, not, ◌||◌, Option, none, some, List, str_eq, if◌then◌else◌,
}
use resourcey.Value.{Value, Row}
use resourcey.Text.{has_prefix}
use resourcey.Failure.{Result, ok, err, not_found}
use resourcey.Filter.{Filter}
use resourcey.Service.{Service, SortOrder, Page, Edit}

-- What a read of any shape returns.
pub data Payload : Type 0 where
  item : Row → Payload
  items : List (Option Row) → Payload
  page : Page → Payload
  number : ℕ → Payload

pub data Request : Type 0 where
  read : Value → Request
  batch_read : List Value → Request
  search : Option Filter → Option SortOrder → Option String → ℕ → Request
  count : Option Filter → Request

pub record CacheEntry : Type 0 where
  pub payload : Payload
  pub read_at : ℕ
  pub etag : Option String

-- `InMemoryCacheStore`: a dictionary.
abbrev pub Store : Type 0
Store = List (String × CacheEntry)

unfoldable pub get : String → Store → Option CacheEntry
get key List.[] = none
get key (List.◌∷◌ (k, entry) rest) =
    let later = get key rest in if str_eq k key then some entry else later

unfoldable pub set : String → CacheEntry → Store → Store
set key entry List.[] = List.◌∷◌ (key, entry) List.[]
set key entry (List.◌∷◌ (k, old) rest) =
    let later = set key entry rest in
    if str_eq k key then List.◌∷◌ (key, entry) rest else List.◌∷◌ (k, old) later

unfoldable pub clear : String → Store → Store
unfolding has_prefix
clear prefix List.[] = List.[]
clear prefix (List.◌∷◌ (k, entry) rest) =
    let later = clear prefix rest in
    if has_prefix prefix k then later else List.◌∷◌ (k, entry) later

-- Concatenation of texts.
unfoldable pub joined : String → String → String
joined [] t = t
joined (c ∷ s) t = c ∷ joined s t

-- The strategy: whether a copy read at one time is to be read again at another, and the validator
-- of a payload, which may fail. `discriminator` is the id's text or the digest of the arguments.
pub record Cached : Type 0 where
  pub path : String
  pub private : Bool
  pub inner_private : Bool
  pub has_strategy : Bool
  pub should_read : ℕ → ℕ → Option String → Bool
  pub header_etag : Payload → Option String
  pub discriminator : Request → String

abbrev pub operation : Request → String
operation (read i) = "read"
operation (batch_read is) = "batch_read"
operation (search f s c n) = "search"
operation (count f) = "count"

-- `_key`, and the prefix that a write evicts.
unfoldable pub own_prefix : Cached → String
unfolding joined
own_prefix w = joined w.path ":"

unfoldable pub cache_key : Cached → Request → String
unfolding joined own_prefix
cache_key w q = joined (own_prefix w) (joined (operation q) (joined ":" (w.discriminator q)))

-- `response_is_private` and `_cacheable`.
abbrev pub cacheable : Cached → Bool
cacheable w = if w.has_strategy then not (w.private || w.inner_private) else false

abbrev pub entry_for : Cached → ℕ → Payload → CacheEntry
entry_for w now p = record { payload = p; read_at = now; etag = w.header_etag p }

abbrev pub stored : Cached → ℕ → String → Result Payload → Store → Result Payload × Store
stored w now key (err e) store = (err e, store)
stored w now key (ok p) store =
    (ok p, if cacheable w then set key (entry_for w now p) store else store)

abbrev pub served :
    Cached → ℕ → String → Result Payload → Option CacheEntry → Store → Result Payload × Store
served w now key fetched none store = stored w now key fetched store
served w now key fetched (some entry) store =
    if w.should_read now entry.read_at entry.etag
    then stored w now key fetched store
    else (ok entry.payload, store)

-- `_read_through`, at the time `now`; `fetched` is what the inner service answers.
unfoldable pub read_through : Cached → ℕ → String → Result Payload → Store → Result Payload × Store
unfolding get set
read_through w now key fetched store =
    if cacheable w
    then served w now key fetched (get key store) store
    else stored w now key fetched store

abbrev as_payload {ℓ} : {A : Type ℓ} → (A → Payload) → Result A → Result Payload
as_payload f (err e) = err e
as_payload f (ok a) = ok (f a)

abbrev found : Value → Result (Option Row) → Result Payload
found i (err e) = err e
found i (ok none) = err (not_found i)
found i (ok (some r)) = ok (item r)

module _ {S : Type 0} (inner : Service S) where
  -- What the inner service answers to a read.
  unfoldable pub fetch : Request → S → Result Payload
  fetch (read i) s = found i (inner.do_read i s)
  fetch (batch_read is) s = as_payload items (inner.do_batch_read is s)
  fetch (search f o c n) s = as_payload page (inner.do_search f o c n s)
  fetch (count f) s = as_payload number (inner.do_count f s)

  -- `read`, `batch_read`, `search` and `count`.
  unfoldable pub cached_read : Cached → ℕ → Request → Store → S → Result Payload × Store
  unfolding read_through fetch cache_key
  cached_read w now q store s = read_through w now (cache_key w q) (fetch q s) store

  -- `_evict` follows a write that returns.
  abbrev pub evicted {ℓ} : {A : Type ℓ} → Cached → Result A × S → Store → Result A × (Store × S)
  evicted w (err e, s) store = (err e, (store, s))
  evicted w (ok a, s) store = (ok a, (clear (own_prefix w) store, s))

  unfoldable pub cached_create : Cached → Row → Store → S → Result Row × (Store × S)
  unfolding clear own_prefix
  cached_create w p store s = evicted w (inner.do_create p s) store

  unfoldable pub cached_update :
      Cached → Row → Option Filter → Store → S → Result (Option Row) × (Store × S)
  unfolding clear own_prefix
  cached_update w p f store s = evicted w (inner.do_update p f s) store

  unfoldable pub cached_delete :
      Cached → Value → Option Filter → Store → S → Result Bool × (Store × S)
  unfolding clear own_prefix
  cached_delete w i f store s = evicted w (inner.do_delete i f s) store

  unfoldable pub cached_apply_edits :
      Cached → List Edit → Store → S → Result (List (Option Row)) × (Store × S)
  unfolding clear own_prefix
  cached_apply_edits w es store s = evicted w (inner.do_apply_edits es s) store
