-- ===== src/Tests/Clients.antt =====
-- The client of the SDK at concrete inputs.
use ziza_lend.Common.{
  ℕ, zero, suc, ◌+◌, ◌≤◌, ◌<◌, ◌≡◌, refl, true, false, Option, none, some, List, [], ◌∷◌, Text,
  codes, text_eq, length, All, arith,
}
use ziza_lend.Common.Js.{to_upper}
use ziza_lend.Common.Map.{Map}
use ziza_lend.Client.{Config}
use ziza_lend.Client.Request.{response, Attempt, body, may_retry_of, request}
use ziza_lend.Client.Request.Attempts.{IsWithin, request-IsWithin}
use ziza_lend.Client.Request.Progress.{fails, request-Succeeds}
use ziza_lend.Client.Pages.{
  IteratorPage, Cursor, was_requested, next_of, iterate_pages, collect_pages,
}
use ziza_lend.Client.Pages.Walk.{AreNew, last, more, iterate_pages-asked, collect_pages-whole}

abbrev no_dates : Text → Option ℕ
no_dates t = none

abbrev defaults : Config
defaults = record {
  token = some (codes "jwt");
  api_key = none;
  timeout_ms = 60000;
  max_retries = 3;
  total_timeout_ms = none;
  max_retry_delay_ms = 30000;
  auto_idempotency_key = true;
}

abbrev in_five_seconds : Config
in_five_seconds = record defaults { total_timeout_ms = some 5000 }

abbrev busy : Attempt
busy = record {
  took = 100;
  answer = response 503 (some (codes "2")) true 10;
  random_below = λ n. 0;
  late = 1;
}

abbrev created : Attempt
created = record { took = 100; answer = response 201 none true 10; random_below = λ n. 0; late = 1 }

-- The first attempt meets a busy server, and the second a server that answers.
abbrev net : ℕ → Attempt
net zero = busy
net (suc n) = created

request-IsWithin_example :
    (length (request no_dates in_five_seconds (codes "get") none [] net 1000).1 ≤ 4)
    × All
        (IsWithin (1000 + 5000))
        (request no_dates in_five_seconds (codes "get") none [] net 1000).1
request-IsWithin_example =
    request-IsWithin no_dates in_five_seconds (codes "get") [] none net 1000 5000 refl

abbrev own_key : Map Text
own_key = (codes "idempotency-key", codes "mine") ∷ []

request-Succeeds_example :
    ((request no_dates defaults (codes "GET") none [] net 0).0 ≡ body 201)
    × (length (request no_dates defaults (codes "GET") none [] net 0).1 ≡ 2)
unfolding may_retry_of to_upper text_eq fails
request-Succeeds_example =
    request-Succeeds no_dates defaults (codes "GET") [] none net 0 201 1 refl refl (omega arith)
      first_fails (omega arith, (refl, refl, refl))
  where
    first_fails : (i : ℕ) → i < 1 → fails defaults (net i) ≡ true
    first_fails zero below = refl
    first_fails (suc i) below = absurd (omega arith)

-- Two pages, and a server that gives the last cursor again.
abbrev pages : Cursor → Option (IteratorPage ℕ)
pages none = some (record { items = 1 ∷ 2 ∷ []; next_cursor = some (codes "b") })
pages (some t) = some (record { items = 3 ∷ []; next_cursor = none })

abbrev echo : Cursor → Option (IteratorPage ℕ)
echo cursor = some (record { items = 1 ∷ []; next_cursor = some (codes "a") })

collect_pages-whole_example : collect_pages pages 2 none ≡ some (1 ∷ 2 ∷ 3 ∷ [])
unfolding next_of was_requested
collect_pages-whole_example =
    collect_pages-whole pages 2 none (more refl refl (last refl refl)) (refl, tt) (omega arith)

iterate_pages-asked_example :
    (length {A = Cursor} (none ∷ some (codes "a") ∷ []) ≤ 100)
    × ((later : List Cursor) × (◌≡◌ {A = List Cursor} (none ∷ some (codes "a") ∷ []) (none ∷ later))
        × AreNew (none ∷ []) later)
unfolding iterate_pages text_eq
iterate_pages-asked_example =
    iterate_pages-asked echo 100 none
      (record { yielded = 1 ∷ 1 ∷ []; asked = none ∷ some (codes "a") ∷ []; threw = false }) refl
