-- ===== src/Tests/Replays.antt =====
-- The idempotency middleware at concrete requests and schedules.
use ziza_lend.Common.{
  ℕ, ◌≡◌, refl, none, some, Option, List, [], ◌∷◌, arith, Text, codes, text_eq, true, not, ◌==◌,
}
use ziza_lend.Cache.{Codec, get, set, read_match, set_not_exists}
use ziza_lend.KvStore.{live, get as kv_get, set as kv_set, set_nx, del, expiry_from, is_expired}
use ziza_lend.Common.Map.{map_get, map_set, map_delete}
use ziza_lend.Idempotency.{
  Operation, CachedResponse, Phase, Event, step, run, is_recorded, lookup, take_claim, check_held,
  record_outcome,
}
use ziza_lend.Idempotency.Policy.{in_flight_lock_key}
use ziza_lend.Idempotency.Exclusion.{claims_exclude}
use ziza_lend.Idempotency.Race.{new_world}

middleware : Unit {0}
unfolding run step lookup take_claim check_held record_outcome is_recorded get set read_match
    set_not_exists set_nx kv_get kv_set live del map_get map_set map_delete expiry_from is_expired
    text_eq in_flight_lock_key
middleware = tt

decode_pair : Text → Option (CachedResponse ℕ)
decode_pair (s ∷ b ∷ []) = some (record { status = s; body = b })
decode_pair _ = none

abbrev responses : Codec (CachedResponse ℕ)
unfolding decode_pair
responses = record {
  encode = λ r. r.status ∷ r.body ∷ [];
  decode = decode_pair;
  decode-encode = λ r. refl;
}

abbrev uuids : Codec Text
uuids = record { encode = λ t. t; decode = λ t. some t; decode-encode = λ t. refl }

abbrev loan_request : Operation ℕ
loan_request = record {
  truthy = λ b. not (b == 0);
  responses = responses;
  claims = uuids;
  cache_key = codes "idemp:POST:/loans:anonymous:key-0001";
  claim_of = λ i. i ∷ [];
}

abbrev two_requests : List (Event ℕ)
two_requests =
    Event.look_up 0 true
    ∷ Event.look_up 1 true
    ∷ Event.claim 1 true
    ∷ Event.claim 0 true
    ∷ Event.check 0 true
    ∷ []

claims_distinct : (i j : ℕ) → ◌≡◌ {A = Text} (i ∷ []) (j ∷ []) → i ≡ j
claims_distinct i j e = cc

run-two_requests :
    ((run loan_request two_requests (new_world 1000)).phase 0 ≡ Phase.conflict)
    × ((run loan_request two_requests (new_world 1000)).phase 1 ≡ Phase.running (some 1000))
unfolding middleware
run-two_requests = (refl, refl)

-- A request whose client goes away while its handler runs, and its retry, which runs beside the handler.
abbrev abandoned : List (Event ℕ)
abandoned =
    Event.look_up 0 true
    ∷ Event.claim 0 true
    ∷ Event.abort 0
    ∷ Event.release_read 0 true
    ∷ Event.release_delete 0 true
    ∷ Event.look_up 1 true
    ∷ Event.claim 1 true
    ∷ []

run-abandoned :
    ((run loan_request abandoned (new_world 1000)).phase 0 ≡ Phase.settled true (some 1000))
    × ((run loan_request abandoned (new_world 1000)).phase 1 ≡ Phase.running (some 1000))
unfolding middleware ziza_lend.Cache.stored_value
run-abandoned = (refl, refl)

abbrev first_done : List (Event ℕ)
first_done = Event.look_up 0 true ∷ Event.claim 0 true ∷ []

claims_exclude_example : ◌≡◌ {A = ℕ} 1 1
unfolding middleware
claims_exclude_example =
    claims_exclude loan_request claims_distinct two_requests (new_world 1000)
      (λ i. refl, λ later h. refl) (omega arith) 1 1 1000 1000 refl refl (omega arith) (omega arith)

abbrev key_0001 : Text
key_0001 = codes "key-0001"

abbrev hash : Text → Text
hash t = codes "00112233445566778899aabbccddeeff"
