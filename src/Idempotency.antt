-- ===== src/Idempotency.antt =====
-- backend/src/middleware/idempotency.ts: the middleware as the segments between its awaits, over the
-- cache, and a schedule of requests that carry one key for one operation of one caller. The response
-- body is a JSON value, a parameter here with its truth value; the claim of a request is the UUID
-- that it draws.
pub mod Policy
pub mod Keys
pub mod Claims
pub mod Invariant
pub mod Segments
pub mod Exclusion
pub mod Recorded
pub mod Replay
pub mod Race
use ziza_lend.Common.{
  ℕ, ◌+◌, Bool, true, false, not, ◌&&◌, Option, none, some, List, [], ◌∷◌, leb, ltb, ◌==◌,
  if◌then◌else◌, Text, text_eq,
}
use ziza_lend.Common.Js.{trim}
use ziza_lend.KvStore.{Entries, del}
use ziza_lend.Cache.{Codec, set, get, set_not_exists, read_match}
use Policy.{
  Headers, requires_idempotency_key, is_valid_idempotency_key, normalise_api_path, credential_scope,
  presented_credential, idempotency_cache_key, in_flight_lock_key,
}

pub record Request : Type 0 where
  pub method : Text
  pub original_url : Text
  pub supplied_key : Option Text
  pub headers : Headers

-- What is decided before the first await: the request goes on with no key, it is refused, or it goes
-- on under the name of its outcome.
pub data Admission : Type 0 where
  pass_through missing_key invalid_key : Admission
  keyed : Text → Admission

abbrev pub trimmed_key : Request → Text
trimmed_key req = elim req.supplied_key [ none ↦ [] | some k ↦ trim k ]

unfoldable pub admit : (Text → Text) → Request → Admission
admit sha256_hex req =
    let path = normalise_api_path req.original_url in
    let key = trimmed_key req in
    if text_eq key []
    then (if requires_idempotency_key req.method path then missing_key else pass_through)
    else if is_valid_idempotency_key key
    then keyed (
        idempotency_cache_key req.method path
          (credential_scope sha256_hex (presented_credential req.headers)) key)
    else invalid_key

abbrev pub idempotency_ttl : ℕ
idempotency_ttl = 86400

abbrev pub in_flight_ttl : ℕ
in_flight_ttl = 30

pub record CachedResponse (Body : Type 0) : Type 0 where
  pub status : ℕ
  pub body : Body

-- Where a request stands. A request whose handler runs and whose connection is open, and what follows,
-- remember when its claim was taken, or none where the store was down and it runs with no claim. What
-- follows also knows whether the connection closed early: the claim is then released although the handler
-- goes on, and what the handler answers is not recorded.
pub data Phase (Body : Type 0) : Type 0 where
  start missed refused conflict : Phase Body
  running : Option ℕ → Phase Body
  settled matched : (closed_early : Bool) → Option ℕ → Phase Body
  replayed : CachedResponse Body → Phase Body

-- One thing that happens: time passes, or a request takes its next segment. `up` is whether the
-- store answers.
pub data Event (Body : Type 0) : Type 0 where
  advance : ℕ → Event Body
  look_up claim check release_read release_delete : ℕ → Bool → Event Body
  finish : ℕ → Bool → ℕ → Option Body → Event Body
  abort : ℕ → Event Body

pub record World (Body : Type 0) : Type 0 where
  pub now : ℕ
  pub entries : Entries
  pub phase : ℕ → Phase Body

abbrev pub move : {Body : Type 0} → World Body → ℕ → Phase Body × Entries → World Body
move w i (p, m) = record w { entries = m; phase = λ j. if j == i then p else w.phase j }

abbrev pub is_held : Option Text → Bool
is_held none = false
is_held (some []) = false
is_held (some (c ∷ s)) = true

-- An operation: the truth value of a body, JSON at the two cached types, the name of the outcome, and
-- the UUID that each request draws as its claim.
pub record Operation (Body : Type 0) : Type 0 where
  pub truthy : Body → Bool
  pub responses : Codec (CachedResponse Body)
  pub claims : Codec Text
  pub cache_key : Text
  pub claim_of : ℕ → Text

module _ {Body : Type 0} (op : Operation Body) where
  open op use {truthy, responses, claims, cache_key, claim_of}

  abbrev pub lock_key : Text
  lock_key = in_flight_lock_key cache_key

  -- The first await: a recorded outcome is sent again.
  unfoldable pub lookup : Bool → ℕ → Entries → Phase Body × Entries
  lookup up now m =
      let (cached, m') = get responses up now cache_key m in
      (elim cached [ none ↦ missed | some r ↦ replayed r ], m')

  -- The second: the operation is claimed.
  unfoldable pub take_claim : Bool → ℕ → Text → Entries → Phase Body × Entries
  take_claim up now uuid m =
      let (claimed, m') = set_not_exists claims up now lock_key uuid in_flight_ttl m in
      (if claimed then running (some now) else refused, m')

  -- The third, where no claim was taken: a held claim is a duplicate in flight.
  unfoldable pub check_held : Bool → ℕ → Entries → Phase Body × Entries
  check_held up now m =
      let (held, m') = get claims up now lock_key m in
      (if is_held held then conflict else running none, m')

  -- `res.statusCode >= 200 && res.statusCode < 500 && responseBody`.
  unfoldable pub is_recorded : ℕ → Option Body → Bool
  is_recorded status none = false
  is_recorded status (some body) = leb 200 status && ltb status 500 && truthy body

  -- The `finish` event records the outcome.
  unfoldable pub record_outcome : Bool → ℕ → ℕ → Option Body → Entries → Entries
  record_outcome up now status none m = m
  record_outcome up now status (some body) m =
      if is_recorded status (some body)
      then set responses up now cache_key (record { status = status; body = body }) idempotency_ttl
          m
      else m

  -- An event that does not fit the phase of its request does nothing. `abort` is a `close` with no `finish`.
  -- `releaseClaim` runs on `finish` and again on `close`.
  unfoldable pub step : Event Body → World Body → World Body
  step (advance n) w = record w { now = w.now + n }
  step (look_up i up) w = elim (w.phase i) [ start ↦ move w i (lookup up w.now w.entries) | _ ↦ w ]
  step (claim i up) w = elim (w.phase i) [
    | missed ↦ move w i (take_claim up w.now (claim_of i) w.entries)
    | _ ↦ w
  ]
  step (check i up) w = elim (w.phase i) [
    | refused ↦ move w i (check_held up w.now w.entries)
    | _ ↦ w
  ]
  step (finish i up status body) w = elim (w.phase i) [
    | running t ↦ move w i (settled false t, record_outcome up w.now status body w.entries)
    | _ ↦ w
  ]
  step (abort i) w = elim (w.phase i) [ running t ↦ move w i (settled true t, w.entries) | _ ↦ w ]
  step (release_read i up) w = elim (w.phase i) [
    | settled early t ↦
        let (same, m') = read_match claims up w.now lock_key (claim_of i) w.entries in
        move w i (if same then matched early t else settled early t, m')
    | _ ↦ w
  ]
  step (release_delete i up) w = elim (w.phase i) [
    | matched early t ↦
        move w i (settled early t, if up then del (lock_key ∷ []) w.entries else w.entries)
    | _ ↦ w
  ]

  unfoldable pub run : List (Event Body) → World Body → World Body
  run [] w = w
  run (e ∷ es) w = run es (step e w)
