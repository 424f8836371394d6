-- ===== src/KvStore/Driver.antt =====
-- `resolveCacheDriver` of backend/src/utils/kvStore.ts: which store the environment selects.
use ziza_lend.Common.{
  ◌≡◌, ◌↔◌, ◌⊎◌, Option, none, some, Bool, true, false, not, [], arith, if◌then◌else◌, Text, codes,
  text_eq, text_eq_iff, map,
}
use ziza_lend.Common.Js.{trim, to_lower}

pub data KvDriver : Type 0 where
  redis memory : KvDriver

-- `none` is a variable that is not set; `invalid` and `missing_url` are the two errors thrown.
pub record Env : Type 0 where
  pub cache_driver : Option Text
  pub redis_url : Option Text

pub data Choice : Type 0 where
  chosen : KvDriver → Choice
  missing_url invalid_driver : Choice

abbrev pub preference : Env → Text
preference env = map to_lower (trim (elim env.cache_driver [ none ↦ codes "auto" | some d ↦ d ]))

abbrev pub has_redis_url : Env → Bool
has_redis_url env = elim env.redis_url [ none ↦ false | some u ↦ not (text_eq (trim u) []) ]

unfoldable pub resolve_cache_driver : Env → Choice
resolve_cache_driver env =
    if text_eq (preference env) (codes "memory")
    then chosen memory
    else if text_eq (preference env) (codes "redis")
    then (if has_redis_url env then chosen redis else missing_url)
    else if text_eq (preference env) (codes "auto")
    then (if has_redis_url env then chosen redis else chosen memory)
    else invalid_driver

-- Redis is selected exactly when a URL is there and the preference is `redis` or `auto`.
pub resolve_cache_driver-redis_iff :
    (env : Env)
    → (resolve_cache_driver env ≡ chosen redis) ↔ (
        (has_redis_url env ≡ true)
        × ((preference env ≡ codes "redis") ⊎ (preference env ≡ codes "auto")))
unfolding resolve_cache_driver
resolve_cache_driver-redis_iff env = ground (
  arith,
  text_eq_iff (preference env) (codes "memory"),
  text_eq_iff (preference env) (codes "redis"),
  text_eq_iff (preference env) (codes "auto"),
)
