-- ===== src/Tests/Streaming.antt =====
-- Event streams at concrete inputs.
use mathlib.Core.List.{Memᴰ}
use ziza_lend.Common.{
  ℕ, ◌≡◌, refl, Bool, true, false, none, some, [], ◌∷◌, Text, codes, All, text_eq,
}
use ziza_lend.Streams.{
  Client, Streams, can_open_connection, subscribe_address, register_user_client, broadcast, Target,
  to_address, stream_target, admit_stream, open_stream, Reached, started, asked, opened,
}
use ziza_lend.Streams.Recipients.{NamesNone, MayGet, Reached-recipients, empty_borrower-gets_all}

abbrev no_admins : Text → Bool
no_admins user_key = false

abbrev writable : ℕ → Bool
writable res = true

abbrev no_streams : Streams
no_streams = record { borrowers = []; admins = []; users = []; heartbeat = false }

abbrev phone : Client
phone = record { res = 1; user_key = codes "GA" }

abbrev one_stream : Streams
one_stream = open_stream (to_address (codes "GA")) phone no_streams

one_stream-Reached : Reached no_admins (NamesNone no_admins) [] one_stream
unfolding admit_stream stream_target can_open_connection
one_stream-Reached =
    opened [] [] (to_address (codes "GA")) phone refl
      (asked phone none (to_address (codes "GA")) (λ e. cc e) refl started)

Reached-recipients_example :
    All (MayGet no_admins (some (codes "GA"))) (broadcast writable (some (codes "GA")) one_stream).0
Reached-recipients_example =
    Reached-recipients no_admins writable (some (codes "GA")) one_stream-Reached

abbrev eavesdropper : Client
eavesdropper = record { res = 2; user_key = codes "GE" }

empty_borrower-gets_all_example :
    (target : Target) × (admit_stream false eavesdropper (some []) one_stream ≡ some target)
    × Memᴰ eavesdropper
        (broadcast writable (some (codes "GA")) (open_stream target eavesdropper one_stream)).0
unfolding can_open_connection text_eq open_stream subscribe_address register_user_client
empty_borrower-gets_all_example =
    empty_borrower-gets_all eavesdropper one_stream writable (some (codes "GA")) refl refl

delivered_once : (broadcast writable (some (codes "GA")) one_stream).0 ≡ phone ∷ []
unfolding broadcast text_eq open_stream subscribe_address
delivered_once = refl
