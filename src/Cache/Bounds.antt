-- ===== src/Cache/Bounds.antt =====
-- The process's own copy of the cache never grows beyond its capacity.
use ss_backend.Common.{
  ℕ, ◌≤◌, ◌<◌, String, ◌≡◌, refl, inl, inr, Bool, true, false, not, Option, none, some, List, [],
  ◌∷◌, arith, if◌then◌else◌, str_eq, eq_iff, find_sound, filter, length, length-append, Bool-cases,
  Option-cases,
}
use ss_backend.Cache.{
  Entry, CacheOptions, Cache, RedisAnswer, no_client, threw, missing, hit, without, renewed,
  entry_at, is_stale, evict_to_capacity, remember, live_entry, read_memory, read_hit, read_cache,
  cache_get, cache_set, cache_delete, invalidate_prefix, prune_expired, clear, close, sweep,
}

-- A call of the cache or a tick of its timer.
pub data CacheCall : Type 0 where
  get : (now : ℕ) → (key : String) → RedisAnswer → CacheCall
  set : (now : ℕ) → (key serialized : String) → Option ℕ → CacheCall
  delete : (key : String) → CacheCall
  invalidate : (prefix : String) → CacheCall
  prune : (now : ℕ) → CacheCall
  tick : (now : ℕ) → CacheCall
  clear_all close_all : CacheCall

length-filter : (p : Entry → Bool) (es : List Entry) → length (filter p es) ≤ length es
length-filter p [] = omega arith
length-filter p (e ∷ es) = ground (arith, length-filter p es)

length-evict_to_capacity : (most : ℕ) (es : List Entry) → length (evict_to_capacity most es) ≤ most
unfolding evict_to_capacity
length-evict_to_capacity most [] = omega arith
length-evict_to_capacity most (e ∷ es) = ground (arith, length-evict_to_capacity most es)

either : {A : Type 0} (P : A → Type 0) (b : Bool) (x y : A) → P x → P y → P (if b then x else y)
either P true x y p q = p
either P false x y p q = q

without_found :
    (k : String) (es : List Entry) (e : Entry)
    → entry_at k es ≡ some e
    → length (without k es) < length es
without_found k [] e q = absurd (ground arith)
without_found k (x ∷ xs) e q =
    ground (arith, without_found k xs e, length-filter (λ x'. not (str_eq x'.key k)) xs)

module _ {V : Type 0} (parse : String → Option V) (o : CacheOptions) where
  pub after_call : CacheCall → Cache → Cache
  after_call (get now key answer) c = (cache_get parse o now key answer c).1
  after_call (set now key serialized ttl) c = cache_set o now key serialized ttl c
  after_call (delete key) c = cache_delete o key c
  after_call (invalidate prefix) c = invalidate_prefix o prefix c
  after_call (prune now) c = prune_expired now c
  after_call (tick now) c = sweep now c
  after_call clear_all c = clear c
  after_call close_all c = close c

  pub after_calls : List CacheCall → Cache → Cache
  after_calls [] c = c
  after_calls (x ∷ xs) c = after_calls xs (after_call x c)

  abbrev IsBounded : Cache → Type 0
  IsBounded c = length c.memory ≤ o.max_entries

  read_memory-IsBounded :
      (now : ℕ) (key : String) (c : Cache) (x : Option Entry)
      → entry_at key c.memory ≡ x
      → IsBounded c
      → IsBounded (read_memory parse now key c x).1
  unfolding read_memory live_entry
  read_memory-IsBounded now key c none q h = h
  read_memory-IsBounded now key c (some e) q h =
      let own : e.key ≡ key =
        (eq_iff e.key key).0 (find_sound (λ x. str_eq x.key key) c.memory e q) in
      let room = without_found key c.memory e q in
      let again : length (renewed e c.memory) ≤ o.max_entries =
        rw (length-append, own) (omega (arith, room, h)) in
      elim (Bool-cases (is_stale now e)) [
        | inl t ↦ rw t (omega (arith, room, h))
        | inr t ↦ elim (Option-cases (parse e.value)) [
          | inl p ↦
              rw (t, p)
                (omega (
                  arith,
                  length-filter (λ x. not (str_eq x.key e.key)) (renewed e c.memory),
                  again,
                ))
          | inr (v, p) ↦ rw (t, p) again
        ]
      ]

  remember-IsBounded :
      (now : ℕ) (key raw : String) (c : Cache) → IsBounded (remember o now key raw c)
  unfolding remember
  remember-IsBounded now key raw c = length-evict_to_capacity o.max_entries _

  read_cache-IsBounded :
      (now : ℕ) (key : String) (a : RedisAnswer) (c : Cache)
      → IsBounded c
      → IsBounded (read_cache parse o now key a c).1
  unfolding read_cache read_hit
  read_cache-IsBounded now key missing c h = h
  read_cache-IsBounded now key no_client c h = read_memory-IsBounded now key c _ refl h
  read_cache-IsBounded now key threw c h = read_memory-IsBounded now key c _ refl h
  read_cache-IsBounded now key (hit raw) c h = elim (Option-cases (parse raw)) [
    | inl p ↦ rw p (
        read_memory-IsBounded now key (remember o now key raw c) _ refl
          (remember-IsBounded now key raw c))
    | inr (v, p) ↦ rw p (remember-IsBounded now key raw c)
  ]

  call-IsBounded : (x : CacheCall) (c : Cache) → IsBounded c → IsBounded (after_call x c)
  unfolding after_call cache_get cache_set cache_delete invalidate_prefix prune_expired sweep clear
      close
  call-IsBounded (get now key a) c h =
      either (λ r. IsBounded r.1) o.enabled (read_cache parse o now (o.build_key key) a c) (none, c)
        (read_cache-IsBounded now (o.build_key key) a c h) h
  call-IsBounded (set now key s ttl) c h =
      either IsBounded o.enabled _ c (length-evict_to_capacity o.max_entries _) h
  call-IsBounded (delete key) c h =
      either IsBounded o.enabled _ c
        (omega (arith, length-filter (λ e. not (str_eq e.key (o.build_key key))) c.memory)) h
  call-IsBounded (invalidate prefix) c h = omega (arith, length-filter _ c.memory)
  call-IsBounded (prune now) c h = omega (arith, length-filter _ c.memory)
  call-IsBounded (tick now) c h = ground (arith, length-filter (λ e. not (is_stale now e)) c.memory)
  call-IsBounded clear_all c h = omega arith
  call-IsBounded close_all c h = h

-- Whatever calls and ticks follow, with whatever Redis answers, the copy never holds more entries than
-- its capacity if it did not at the start.
pub cache_bounded :
    {V : Type 0} (parse : String → Option V) (o : CacheOptions) (xs : List CacheCall) (c : Cache)
    → length c.memory ≤ o.max_entries
    → length (after_calls parse o xs c).memory ≤ o.max_entries
unfolding after_calls
cache_bounded parse o [] c h = h
cache_bounded parse o (x ∷ xs) c h =
    cache_bounded parse o xs (after_call parse o x c) (call-IsBounded parse o x c h)
