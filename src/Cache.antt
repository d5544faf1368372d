-- ===== src/Cache.antt =====
-- src/lib/ttl-cache.ts: the class `TtlCache`. Redis is a client outside of the program: an argument
-- says what it answered. JSON is an argument too: `parse` is undefined where `JSON.parse` throws. The
-- checks of the constructor are left out; lifetimes are in whole seconds.
pub mod Bounds
pub mod Lookup
pub mod Tests
use ss_backend.Common.{
  ℕ, ◌+◌, ◌*◌, ◌==◌, ltb, String, Bool, true, false, not, ◌||◌, Option, none, some, List, [], ◌∷◌,
  ◌++◌, if◌then◌else◌, or_default, str_eq, find, filter, length,
}
use text.Mathlib.Text.{starts_with}

pub record Entry : Type 0 where
  pub key : String
  pub value : String
  pub expires_at : ℕ

-- `buildKey` puts the namespace before a key; here it is a function, for texts are not taken apart.
pub record CacheOptions : Type 0 where
  pub ttl_seconds : ℕ
  pub max_entries : ℕ
  pub build_key : String → String
  pub enabled : Bool
  pub sweep_interval_ms : ℕ

-- The entries in the order of the Map, which is the order of insertion, and whether the timer runs.
pub record Cache : Type 0 where
  pub memory : List Entry
  pub sweeping : Bool

-- What Redis answered to `get`.
pub data RedisAnswer : Type 0 where
  no_client threw missing : RedisAnswer
  hit : String → RedisAnswer

-- `Map.delete`
abbrev pub without : String → List Entry → List Entry
without k = filter (λ e. not (str_eq e.key k))

-- `Map.delete` and then `Map.set`: the entry comes last.
abbrev pub renewed : Entry → List Entry → List Entry
renewed e memory = without e.key memory ++ (e ∷ [])

abbrev pub entry_at : String → List Entry → Option Entry
entry_at k = find (λ e. str_eq e.key k)

abbrev pub is_stale : ℕ → Entry → Bool
is_stale now e = ltb e.expires_at now

-- `pruneExpired`
abbrev pub pruned : ℕ → List Entry → List Entry
pruned now = filter (λ e. not (is_stale now e))

-- `evictToCapacity`: the first entry goes while there are too many.
pub evict_to_capacity : ℕ → List Entry → List Entry
evict_to_capacity most [] = []
evict_to_capacity most (e ∷ es) =
    let rest = evict_to_capacity most es in if ltb most (length (e ∷ es)) then rest else e ∷ es

-- `ensureSweeper`
abbrev ensure_sweeper : CacheOptions → Bool → Bool
ensure_sweeper o sweeping =
    if sweeping || (o.sweep_interval_ms == 0 || not o.enabled) then sweeping else true

abbrev pub lifetime : CacheOptions → Option ℕ → ℕ
lifetime o ttl = or_default ttl o.ttl_seconds * 1000

-- `remember`
pub remember : CacheOptions → ℕ → String → String → Cache → Cache
unfolding evict_to_capacity
remember o now key raw c = record {
  memory =
      evict_to_capacity o.max_entries
        (renewed (record { key = key; value = raw; expires_at = now + lifetime o none }) c.memory);
  sweeping = ensure_sweeper o c.sweeping;
}

module _ {V : Type 0} (parse : String → Option V) where
  -- A hit moves to the end; an entry that does not parse is dropped.
  pub live_entry : Cache → Entry → Option V → Option V × Cache
  live_entry c e none = (none, record c { memory = without e.key (renewed e c.memory) })
  live_entry c e (some v) = (some v, record c { memory = renewed e c.memory })

  -- The part of `get` that reads the process's own copy.
  pub read_memory : ℕ → String → Cache → Option Entry → Option V × Cache
  unfolding live_entry
  read_memory now key c none = (none, c)
  read_memory now key c (some e) =
      if is_stale now e
      then (none, record c { memory = without key c.memory })
      else live_entry c e (parse e.value)

  -- A value from Redis that does not parse makes `get` fall through to the copy just made.
  pub read_hit : ℕ → String → Cache → Option V → Option V × Cache
  unfolding read_memory
  read_hit now key c (some v) = (some v, c)
  read_hit now key c none = read_memory now key c (entry_at key c.memory)

  pub read_cache : CacheOptions → ℕ → String → RedisAnswer → Cache → Option V × Cache
  unfolding read_hit remember
  read_cache o now key missing c = (none, c)
  read_cache o now key (hit raw) c = read_hit now key (remember o now key raw c) (parse raw)
  read_cache o now key no_client c = read_memory now key c (entry_at key c.memory)
  read_cache o now key threw c = read_memory now key c (entry_at key c.memory)

  -- `get`
  unfoldable pub cache_get : CacheOptions → ℕ → String → RedisAnswer → Cache → Option V × Cache
  unfolding read_cache
  cache_get o now key answer c =
      if o.enabled then read_cache o now (o.build_key key) answer c else (none, c)

-- `set`, with the value as `JSON.stringify` gives it; whatever Redis does, the copy is written.
unfoldable pub cache_set : CacheOptions → ℕ → String → String → Option ℕ → Cache → Cache
unfolding evict_to_capacity
cache_set o now key serialized ttl c =
    let entry : Entry = record {
      key = o.build_key key;
      value = serialized;
      expires_at = now + lifetime o ttl;
    } in
    if o.enabled
    then record {
      memory = evict_to_capacity o.max_entries (pruned now (renewed entry c.memory));
      sweeping = ensure_sweeper o c.sweeping;
    }
    else c

-- `delete`
pub cache_delete : CacheOptions → String → Cache → Cache
cache_delete o key c =
    if o.enabled then record c { memory = without (o.build_key key) c.memory } else c

pub invalidate_prefix : CacheOptions → String → Cache → Cache
invalidate_prefix o prefix c = record c {
  memory = filter (λ e. not (starts_with e.key (o.build_key prefix))) c.memory;
}

pub prune_expired : ℕ → Cache → Cache
prune_expired now c = record c { memory = pruned now c.memory }

pub clear : Cache → Cache
clear c = record c { memory = [] }

pub close : Cache → Cache
close c = record c { sweeping = false }

-- A tick of the timer.
pub sweep : ℕ → Cache → Cache
unfolding close prune_expired
sweep now c = if length c.memory == 0 then close c else prune_expired now c
