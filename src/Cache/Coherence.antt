-- ===== src/Cache/Coherence.antt =====
-- The cached service of resourcey/cache/cached_service.py answers what its inner service would, as
-- long as every write goes through it and returns.
use resourcey.Prelude.{
  ℕ, ◌≡◌, refl, sym, ap, ◌∙◌, subst, Bool, true, false, ◌||◌, Option, none, some, List, [], str_eq,
  str_eq_iff, Bool-cases, inl, inr,
}
use resourcey.Value.{Value, Row}
use resourcey.Failure.{Result, ok, err, stop_iteration}
use resourcey.Filter.{Filter}
use resourcey.Service.{Service, Edit}
use resourcey.Cache.{
  CacheEntry, Payload, Store, get, set, Cached, Request, operation, own_prefix, cache_key,
  cacheable, entry_for, stored, served, read_through, fetch, cached_read, evicted, cached_create,
  cached_update, cached_delete, cached_apply_edits,
}
use resourcey.Cache.Keys.{key-own_prefix, key-operation, get-clear, get-set_same, get-set_other}

-- Requests with one digest are answered alike: what SHA-256 and the dumps of pydantic promise.
abbrev pub IsFaithful : {S : Type 0} → Service S → Cached → Type 0
IsFaithful {S} inner w =
    (q q' : Request) (s : S) (p : Payload)
    → operation q ≡ operation q'
    → w.discriminator q ≡ w.discriminator q'
    → fetch inner q s ≡ ok p
    → fetch inner q' s ≡ ok p

-- Every copy under this path is what the inner service would answer.
abbrev pub IsCoherent : {S : Type 0} → Service S → Cached → Store → S → Type 0
IsCoherent inner w store s =
    (q : Request) (entry : CacheEntry)
    → get (cache_key w q) store ≡ some entry
    → fetch inner q s ≡ ok entry.payload

module _ {S : Type 0} (inner : Service S) (w : Cached) where
  -- What happens to the state: reads and writes of this service that return, and whatever others do
  -- to the store under keys of other paths.
  pub data Step : Store → S → Store → S → Type 0 where
    reads :
        (now : ℕ) (q : Request) (store : Store) (s : S)
        → Step store s (cached_read inner w now q store s).1 s
    creates :
        (p r : Row) (store store' : Store) (s s' : S)
        → cached_create inner w p store s ≡ (ok r, (store', s'))
        → Step store s store' s'
    updates :
        (p : Row) (f : Option Filter) (r : Option Row) (store store' : Store) (s s' : S)
        → cached_update inner w p f store s ≡ (ok r, (store', s'))
        → Step store s store' s'
    deletes :
        (i : Value) (f : Option Filter) (b : Bool) (store store' : Store) (s s' : S)
        → cached_delete inner w i f store s ≡ (ok b, (store', s'))
        → Step store s store' s'
    edits :
        (es : List Edit) (rs : List (Option Row)) (store store' : Store) (s s' : S)
        → cached_apply_edits inner w es store s ≡ (ok rs, (store', s'))
        → Step store s store' s'
    elsewhere :
        (store store' : Store) (s : S)
        → ((q : Request) → get (cache_key w q) store' ≡ get (cache_key w q) store)
        → Step store s store' s

  pub data Steps (store : Store) (s : S) : Store → S → Type 0 where
    start : Steps store s store s
    further :
        (store' store'' : Store) (s' s'' : S)
        → Steps store s store' s'
        → Step store' s' store'' s''
        → Steps store s store'' s''

  payload_of : Option CacheEntry → Result Payload
  payload_of none = err stop_iteration
  payload_of (some entry) = ok entry.payload

  evicted-IsCoherent :
      {A : Type 0} (result : Result A × S) (a : A) (store store' : Store) (s' : S)
      → evicted inner w result store ≡ (ok a, (store', s'))
      → IsCoherent inner w store' s'
  evicted-IsCoherent (err e, s) a store store' s' e' = cc
  evicted-IsCoherent (ok b, s) a store store' s' e' = λ q entry kept.
      (let gone : get (cache_key w q) store' ≡ none =
          ap (λ t. get (cache_key w q) t.1.0) (sym e')
          ∙ get-clear (own_prefix w) (cache_key w q) store (key-own_prefix w q) in
        cc (gone, kept))

  set-IsCoherent :
      (now : ℕ) (q : Request) (p : Payload) (store : Store) (s : S)
      → IsFaithful inner w
      → IsCoherent inner w store s
      → fetch inner q s ≡ ok p
      → IsCoherent inner w (set (cache_key w q) (entry_for w now p) store) s
  unfolding payload_of
  set-IsCoherent now q p store s faithful coherent fetched q' entry kept =
      elim (Bool-cases (str_eq (cache_key w q) (cache_key w q'))) [
        | inl e ↦
            (let same = (str_eq_iff (cache_key w q) (cache_key w q')).0 e in
              let (alike, digests) = key-operation w q q' same in
              let kept' : get (cache_key w q) (set (cache_key w q) (entry_for w now p) store)
                  ≡ some entry =
                subst (λ k. get k (set (cache_key w q) (entry_for w now p) store) ≡ some entry)
                  (sym same) kept in
              faithful q q' s p alike digests fetched
              ∙ ap payload_of
                  (sym (get-set_same (cache_key w q) (entry_for w now p) store) ∙ kept'))
        | inr e ↦
            coherent q' entry
              (sym (get-set_other (cache_key w q) (cache_key w q') _ store e) ∙ kept)
      ]

  -- A read answers what the inner service would, and keeps the copies right.
  abbrev Transparent : Request → Store → S → Result Payload × Store → Type 0
  Transparent q store s (r, store') = (r ≡ fetch inner q s) × IsCoherent inner w store' s

  stored-Transparent :
      (now : ℕ) (q : Request) (store : Store) (s : S) (fetched : Result Payload)
      → fetch inner q s ≡ fetched
      → IsFaithful inner w
      → IsCoherent inner w store s
      → Transparent q store s (stored w now (cache_key w q) fetched store)
  stored-Transparent now q store s (err e) f faithful coherent = (sym f, coherent)
  stored-Transparent now q store s (ok p) f faithful coherent = elim (Bool-cases (cacheable w)) [
    | inl c ↦ rw c (sym f, set-IsCoherent now q p store s faithful coherent f)
    | inr c ↦ rw c (sym f, coherent)
  ]

  served-Transparent :
      (now : ℕ) (q : Request) (store : Store) (s : S) (copy : Option CacheEntry)
      → get (cache_key w q) store ≡ copy
      → IsFaithful inner w
      → IsCoherent inner w store s
      → Transparent q store s (served w now (cache_key w q) (fetch inner q s) copy store)
  served-Transparent now q store s none g faithful coherent =
      stored-Transparent now q store s (fetch inner q s) refl faithful coherent
  served-Transparent now q store s (some entry) g faithful coherent =
      elim (Bool-cases (w.should_read now entry.read_at entry.etag)) [
        | inl again ↦
            rw again (stored-Transparent now q store s (fetch inner q s) refl faithful coherent)
        | inr fresh ↦ rw fresh (sym (coherent q entry g), coherent)
      ]

  cached_read-Transparent :
      (now : ℕ) (q : Request) (store : Store) (s : S)
      → IsFaithful inner w
      → IsCoherent inner w store s
      → Transparent q store s (cached_read inner w now q store s)
  unfolding cached_read read_through
  cached_read-Transparent now q store s faithful coherent = elim (Bool-cases (cacheable w)) [
    | inl c ↦
        rw c (served-Transparent now q store s (get (cache_key w q) store) refl faithful coherent)
    | inr c ↦ rw c (stored-Transparent now q store s (fetch inner q s) refl faithful coherent)
  ]

  Step-IsCoherent :
      (store : Store) (s : S) (store' : Store) (s' : S)
      → IsFaithful inner w
      → IsCoherent inner w store s
      → Step store s store' s'
      → IsCoherent inner w store' s'
  unfolding cached_create cached_update cached_delete cached_apply_edits
  Step-IsCoherent store s store' s' faithful coherent (reads now q _ _) =
      (cached_read-Transparent now q store s faithful coherent).1
  Step-IsCoherent store s store' s' faithful coherent (creates p r _ _ _ _ e) =
      evicted-IsCoherent (inner.do_create p s) r store store' s' e
  Step-IsCoherent store s store' s' faithful coherent (updates p f r _ _ _ _ e) =
      evicted-IsCoherent (inner.do_update p f s) r store store' s' e
  Step-IsCoherent store s store' s' faithful coherent (deletes i f b _ _ _ _ e) =
      evicted-IsCoherent (inner.do_delete i f s) b store store' s' e
  Step-IsCoherent store s store' s' faithful coherent (edits es rs _ _ _ _ e) =
      evicted-IsCoherent (inner.do_apply_edits es s) rs store store' s' e
  Step-IsCoherent store s store' s' faithful coherent (elsewhere _ _ _ same) =
      λ q entry kept. coherent q entry (sym (same q) ∙ kept)

  -- In every such sequence each copy under this path is what the inner service would answer to the
  -- read that it is kept for, where requests with one digest are answered alike.
  pub Steps-IsCoherent :
      (s₀ s : S) (store : Store)
      → IsFaithful inner w
      → Steps [] s₀ store s
      → IsCoherent inner w store s
  unfolding get
  Steps-IsCoherent s₀ s store faithful start = λ q entry kept. cc
  Steps-IsCoherent s₀ s store faithful (further store' _ s' _ before last) =
      Step-IsCoherent store' s' store s faithful (Steps-IsCoherent s₀ s' store' faithful before)
        last

  -- From an empty store, after any sequence of reads, of writes of the cached service that return,
  -- and of what others do to the store under other keys, a read of the cached service answers what
  -- the inner service answers now, where requests with one digest are answered alike.
  pub cached_read-fetch :
      (s₀ s : S) (store : Store) (now : ℕ) (q : Request)
      → IsFaithful inner w
      → Steps [] s₀ store s
      → (cached_read inner w now q store s).0 ≡ fetch inner q s
  cached_read-fetch s₀ s store now q faithful steps =
      (cached_read-Transparent now q store s faithful
        (Steps-IsCoherent s₀ s store faithful steps)).0

  cacheable-private : w.private || w.inner_private ≡ true → cacheable w ≡ false
  cacheable-private h = elim (Bool-cases w.has_strategy) [
    | inl e ↦ rw (e, h) refl
    | inr e ↦ rw e refl
  ]

  stored-uncached :
      (now : ℕ) (q : Request) (store : Store) (fetched : Result Payload)
      → cacheable w ≡ false
      → stored w now (cache_key w q) fetched store ≡ (fetched, store)
  stored-uncached now q store (err e) c = refl
  stored-uncached now q store (ok p) c = rw c refl

  -- Where the wrapper is private or the inner service's answers differ per caller, a read is the
  -- inner service's, and the store is neither consulted nor changed.
  cached_read-private :
      (now : ℕ) (q : Request) (store : Store) (s : S)
      → w.private || w.inner_private ≡ true
      → cached_read inner w now q store s ≡ (fetch inner q s, store)
  unfolding cached_read read_through
  cached_read-private now q store s h =
      (let c = cacheable-private h in rw c (stored-uncached now q store (fetch inner q s) c))
