-- ===== src/Examples/Caching.antt =====
-- The cached service in front of a service that counts what was created.
use resourcey.Prelude.{ℕ, ◌+◌, ◌≡◌, refl, true, false, none, [], ltb}
use resourcey.Failure.{ok, err, type_error}
use resourcey.Service.{Service}
use resourcey.Cache.{
  Store, Cached, read, batch_read, search, count, fetch, cached_read, cached_create, clear,
  own_prefix,
}
use resourcey.Cache.Coherence.{
  IsFaithful, IsCoherent, reads, creates, Steps, start, further, Steps-IsCoherent,
  cached_read-fetch,
}
use resourcey.Examples.Rows.{document}

abbrev counter : Service ℕ
counter = record {
  do_create = λ r s. (ok r, s + 1);
  do_read = λ i s. err type_error;
  do_update = λ r f s. (ok none, s);
  do_delete = λ i f s. (ok false, s);
  do_search = λ f o c n s. err type_error;
  do_count = λ f s. ok s;
  do_batch_read = λ is s. err type_error;
  do_apply_edits = λ es s. (ok [], s);
}

abbrev cached : Cached
cached = record {
  path = "docs";
  private = false;
  inner_private = false;
  has_strategy = true;
  should_read = λ now read_at etag. ltb (read_at + 60) now;
  header_etag = λ p. none;
  discriminator = λ q. "";
}

abbrev private_cached : Cached
private_cached = record cached { inner_private = true }

faithful : IsFaithful counter cached
unfolding fetch
faithful (count f) (count f') s p o d e = e
faithful (count f) (read i) s p o d e = cc
faithful (count f) (batch_read is) s p o d e = cc
faithful (count f) (search f' o' c n) s p o d e = cc
faithful (read i) q s p o d e = cc
faithful (batch_read is) q s p o d e = cc
faithful (search f o' c n) q s p o d e = cc

-- The number is read, a row is created, and the number is read again.
abbrev before_create : Store
before_create = (cached_read counter cached 10 (count none) [] 3).1

abbrev after_create : Store
after_create = clear (own_prefix cached) before_create

history : Steps counter cached [] 3 after_create 4
unfolding cached_create
history =
    further before_create after_create 3 4
      (further [] before_create 3 3 start (reads 10 (count none) [] 3))
      (creates document document before_create after_create 3 4 refl)

Steps-IsCoherent_example : IsCoherent counter cached after_create 4
Steps-IsCoherent_example = Steps-IsCoherent counter cached 3 4 after_create faithful history

cached_read-fetch_example :
    (cached_read counter cached 20 (count none) after_create 4).0 ≡ fetch counter (count none) 4
cached_read-fetch_example =
    cached_read-fetch counter cached 3 4 after_create 20 (count none) faithful history
