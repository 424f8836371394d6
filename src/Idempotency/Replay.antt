-- ===== src/Idempotency/Replay.antt =====
-- A recorded outcome answers the requests that look it up.
use ziza_lend.Common.{List}
use ziza_lend.KvStore.{get as kv_get}
use ziza_lend.Cache.{get}
use ziza_lend.Idempotency.Recorded.{Recorded}
