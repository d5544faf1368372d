-- ===== src/Cache/Lookup.antt =====
-- What `get` returns after `set`, after the lifetime of an entry, and after `delete`, on the process's
-- own copy.
use ss_backend.Common.{
  ℕ, zero, suc, ◌+◌, ◌*◌, ◌≤◌, ◌<◌, String, ◌≡◌, refl, Bool, true, false, Option, none, some, List,
  [], ◌∷◌, ◌++◌, arith, or_default, eq_iff, filter, length-append,
}
use ss_backend.Cache.{
  Entry, CacheOptions, Cache, no_client, threw, without, renewed, entry_at, is_stale, pruned,
  evict_to_capacity, read_memory, live_entry, read_cache, cache_get, cache_set,
}

without-none : (k : String) (es : List Entry) → entry_at k (without k es) ≡ none
without-none k [] = refl
without-none k (e ∷ es) = ground (arith, without-none k es)

filter-none :
    (k : String) (p : Entry → Bool) (es : List Entry)
    → entry_at k es ≡ none
    → entry_at k (filter p es) ≡ none
filter-none k p [] h = refl
filter-none k p (e ∷ es) h = ground (arith, filter-none k p es)

evict_none :
    (k : String) (most : ℕ) (es : List Entry)
    → entry_at k es ≡ none
    → entry_at k (evict_to_capacity most es) ≡ none
unfolding evict_to_capacity
evict_none k most [] h = refl
evict_none k most (e ∷ es) h = ground (arith, evict_none k most es)

last_found :
    (k : String) (e : Entry) (es : List Entry)
    → entry_at k es ≡ none
    → e.key ≡ k
    → entry_at k (es ++ (e ∷ [])) ≡ some e
last_found k e [] h q = ground (arith, eq_iff e.key k)
last_found k e (x ∷ xs) h q = ground (arith, last_found k e xs)

pruned_last :
    (now : ℕ) (e : Entry) (es : List Entry)
    → now ≤ e.expires_at
    → pruned now (es ++ (e ∷ [])) ≡ pruned now es ++ (e ∷ [])
pruned_last now e [] h = ground arith
pruned_last now e (x ∷ xs) h = ground (arith, pruned_last now e xs h)

-- What was written last is evicted last.
evict_last :
    (most : ℕ) (e : Entry) (es : List Entry)
    → evict_to_capacity (suc most) (es ++ (e ∷ [])) ≡ evict_to_capacity most es ++ (e ∷ [])
unfolding evict_to_capacity
evict_last most e [] = ground arith
evict_last most e (x ∷ xs) = ground (arith, evict_last most e xs, length-append xs (e ∷ []))

stored :
    (most now : ℕ) (e : Entry) (memory : List Entry)
    → 0 < most
    → now ≤ e.expires_at
    → entry_at e.key (evict_to_capacity most (pruned now (renewed e memory))) ≡ some e
stored zero now e memory h l = elim h [ ]
stored (suc most) now e memory h l =
    rw (pruned_last now e (without e.key memory) l, evict_last most e _)
      (last_found e.key e _
        (evict_none e.key most _ (filter-none e.key _ _ (without-none e.key memory))) refl)

-- Where Redis is not used or fails, `get` returns what `set` wrote to the key, until the lifetime that
-- `set` gave it is over, if the cache is enabled, has room for an entry, and the value parses.
pub set_get :
    {V : Type 0} (parse : String → Option V) (o : CacheOptions) (now later : ℕ) (key s : String)
    (ttl : Option ℕ) (c : Cache) (v : V)
    → o.enabled ≡ true
    → 0 < o.max_entries
    → later ≤ now + or_default ttl o.ttl_seconds * 1000
    → parse s ≡ some v
    → ((cache_get parse o later key no_client (cache_set o now key s ttl c)).0 ≡ some v)
      × ((cache_get parse o later key threw (cache_set o now key s ttl c)).0 ≡ some v)
unfolding cache_get cache_set read_cache read_memory live_entry
set_get parse o now later key s ttl c v on room in_time p =
    let e : Entry = record {
      key = o.build_key key;
      value = s;
      expires_at = now + or_default ttl o.ttl_seconds * 1000;
    } in
    let here = stored o.max_entries now e c.memory room (omega arith) in
    let fresh : is_stale later e ≡ false = ground arith in
    (rw (on, here, fresh, p) refl, rw (on, here, fresh, p) refl)

-- In an enabled cache without Redis, an entry whose lifetime is over is neither returned by `get` nor
-- kept.
pub stale_gone :
    {V : Type 0} (parse : String → Option V) (o : CacheOptions) (now : ℕ) (key : String) (c : Cache)
    (e : Entry)
    → o.enabled ≡ true
    → entry_at (o.build_key key) c.memory ≡ some e
    → e.expires_at < now
    → let (v, c') = cache_get parse o now key no_client c in
      (v ≡ none) × (entry_at (o.build_key key) c'.memory ≡ none)
unfolding cache_get read_cache read_memory
stale_gone parse o now key c e on f h =
    let stale : is_stale now e ≡ true = ground arith in
    rw (on, f, stale) (refl, without-none (o.build_key key) c.memory)
