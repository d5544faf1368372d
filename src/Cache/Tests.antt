-- ===== src/Cache/Tests.antt =====
-- Concrete cases of the theorems about the cache.
use ss_backend.Common.{
  ◌≤◌, String, ◌≡◌, refl, true, Option, none, some, List, [], ◌∷◌, arith, length,
}
use ss_backend.Cache.{
  Entry, CacheOptions, Cache, no_client, threw, hit, entry_at, cache_get, cache_set,
}
use ss_backend.Cache.Bounds.{CacheCall, after_calls, cache_bounded}
use ss_backend.Cache.Lookup.{set_get, stale_gone}

-- Values are texts that all parse.
abbrev parse : String → Option String
parse s = some s

abbrev options : CacheOptions
options = record {
  ttl_seconds = 10;
  max_entries = 2;
  build_key = λ k. k;
  enabled = true;
  sweep_interval_ms = 0;
}

abbrev empty : Cache
empty = record { memory = []; sweeping = true }

-- A read keeps the first key, so that the second one is evicted.
abbrev calls : List CacheCall
calls =
    CacheCall.set 0 "a" "1" none
    ∷ CacheCall.set 0 "b" "2" none
    ∷ CacheCall.get 5 "a" no_client
    ∷ CacheCall.set 6 "c" "3" none
    ∷ CacheCall.get 6 "d" (hit "4")
    ∷ CacheCall.tick 7
    ∷ []

cache_bounded_example : length (after_calls parse options calls empty).memory ≤ 2
cache_bounded_example = cache_bounded parse options calls empty (omega arith)

set_get_example :
    ((cache_get parse options 9_000 "a" no_client (cache_set options 0 "a" "1" none empty)).0
      ≡ some "1")
    × ((cache_get parse options 9_000 "a" threw (cache_set options 0 "a" "1" none empty)).0
        ≡ some "1")
set_get_example =
    set_get parse options 0 9_000 "a" "1" none empty "1" refl (omega arith) (omega arith) refl

abbrev old : Entry
old = record { key = "a"; value = "1"; expires_at = 10 }

stale_gone_example :
    let (v, c) =
      cache_get parse options 11 "a" no_client (record { memory = old ∷ []; sweeping = true }) in
    (v ≡ none) × (entry_at "a" c.memory ≡ none)
stale_gone_example =
    stale_gone parse options 11 "a" (record { memory = old ∷ []; sweeping = true }) old refl refl
      (omega arith)
