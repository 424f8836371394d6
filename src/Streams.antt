-- ===== src/Streams.antt =====
-- backend/src/services/eventStreamService.ts and `streamEvents` of
-- backend/src/controllers/eventStreamController.ts: the open event streams and who gets an event. A connection
-- is a number, which also stands for the `ClientInfo` made for it; the maps of sets are lists of pairs.
pub mod Registered
pub mod Recipients
use ziza_lend.Common.{
  ℕ, ◌+◌, ◌≡◌, ◌||◌, Bool, true, false, not, ◌&&◌, Option, none, some, List, [], ◌∷◌, ◌++◌, map,
  if◌then◌else◌, Text, text_eq, ltb, ◌==◌, filter, any, length,
}

pub record Client : Type 0 where
  pub res : ℕ
  pub user_key : Text

-- `borrowerClients`, `adminClients`, `userClients`, and whether the heartbeat's timer runs.
pub record Streams : Type 0 where
  pub borrowers : List (Text × Client)
  pub admins : List Client
  pub users : List Client
  pub heartbeat : Bool

abbrev pub max_connections_per_user : ℕ
max_connections_per_user = 3

abbrev pub is_of : Text → Client → Bool
is_of user_key client = text_eq client.user_key user_key

unfoldable pub get_user_connection_count : Text → Streams → ℕ
get_user_connection_count user_key s = length (filter (is_of user_key) s.users)

unfoldable pub can_open_connection : Text → Streams → Bool
unfolding get_user_connection_count
can_open_connection user_key s = ltb (get_user_connection_count user_key s) max_connections_per_user

-- `registerUserClient`, where the connection is in the set or not.
abbrev pub is_same : ℕ → Client → Bool
is_same res client = client.res == res

unfoldable pub register_user_client : Client → List Client → List Client
register_user_client client users =
    if any (λ c. is_same client.res c && is_of client.user_key c) users
    then users
    else client ∷ users

unfoldable pub subscribe_address : Text → Client → Streams → Streams
unfolding register_user_client
subscribe_address address client s = record s {
  borrowers = (address, client) ∷ s.borrowers;
  users = register_user_client client s.users;
  heartbeat = true;
}

unfoldable pub subscribe_all : Client → Streams → Streams
unfolding register_user_client
subscribe_all client s = record s {
  admins = client ∷ s.admins;
  users = register_user_client client s.users;
  heartbeat = true;
}

abbrev pub is_other : ℕ → Client → Bool
is_other res client = not (is_same res client)

-- The clients of the borrowers and the admins, which `collectAllClients` collects.
abbrev pub borrower_streams : List (Text × Client) → List Client
borrower_streams entries = map (λ e. e.1) entries

abbrev pub collect_all_clients : Streams → List Client
collect_all_clients s = borrower_streams s.borrowers ++ s.admins

-- `stopHeartbeatIfEmpty`.
abbrev pub is_empty : List Client → Bool
is_empty [] = true
is_empty (c ∷ cs) = false

abbrev pub stop_heartbeat_if_empty : Streams → Streams
stop_heartbeat_if_empty s = record s {
  heartbeat = if is_empty (collect_all_clients s) then false else s.heartbeat;
}

-- `removeClient`.
unfoldable pub remove_client : ℕ → Streams → Streams
remove_client res s = record s {
  borrowers = filter (λ e. is_other res e.1) s.borrowers;
  admins = filter (is_other res) s.admins;
  users = filter (is_other res) s.users;
}

-- The functions that the two subscriptions return.
unfoldable pub unsubscribe : ℕ → Streams → Streams
unfolding remove_client
unsubscribe res s = stop_heartbeat_if_empty (remove_client res s)

-- One heartbeat; `writes` tells to which connections a write succeeds.
unfoldable pub ping : (ℕ → Bool) → List Client → Streams → Streams
unfolding remove_client
ping writes [] s = s
ping writes (c ∷ cs) s = ping writes cs (if writes c.res then s else remove_client c.res s)

unfoldable pub beat : (ℕ → Bool) → Streams → Streams
unfolding ping
beat writes s = if s.heartbeat then ping writes (collect_all_clients s) s else s

-- The clients of an address: none for an event without one.
abbrev pub is_for : Text → Text × Client → Bool
is_for address e = text_eq e.0 address

abbrev pub address_clients : Option Text → List (Text × Client) → List Client
address_clients none entries = []
address_clients (some []) entries = []
address_clients (some (c ∷ s)) entries = borrower_streams (filter (is_for (c ∷ s)) entries)

-- `broadcast`: the connections that get the event, and the streams after it. A client whose write fails
-- is dropped, but stays in `userClients`.
abbrev pub survives : (ℕ → Bool) → Option Text → Text × Client → Bool
survives writes none e = true
survives writes (some []) e = true
survives writes (some (c ∷ s)) e = not (is_for (c ∷ s) e && not (writes e.1.res))

unfoldable pub broadcast : (ℕ → Bool) → Option Text → Streams → List Client × Streams
broadcast writes address s = (
  filter (λ c. writes c.res) (address_clients address s.borrowers ++ s.admins),
  record s {
    borrowers = filter (survives writes address) s.borrowers;
    admins = filter (λ c. writes c.res) s.admins;
  },
)

unfoldable pub get_connection_count : Streams → ℕ × ℕ × ℕ
get_connection_count s = (length s.borrowers, length s.admins, length s.borrowers + length s.admins)

-- `closeAllConnections` and `reset`.
unfoldable pub close_all_connections : Streams → Streams
close_all_connections s = record { borrowers = []; admins = []; users = []; heartbeat = false }

-- `streamEvents` for a user with a key: what the request asks for is settled before the replay, which
-- is awaited, and the stream is opened after it. Other requests run in between.
pub data Target : Type 0 where
  to_address : Text → Target
  to_all forbidden : Target

unfoldable pub stream_target : Bool → Text → Option Text → Target
stream_target is_admin user_key none = if is_admin then to_all else to_address user_key
stream_target is_admin user_key (some []) = to_all
stream_target is_admin user_key (some (c ∷ s)) =
    if is_admin || text_eq (c ∷ s) user_key then to_address (c ∷ s) else forbidden

-- None where the request is refused.
abbrev pub within_limit : Bool → Target → Option Target
within_limit can_open forbidden = none
within_limit can_open (to_address address) = if can_open then some (to_address address) else none
within_limit can_open to_all = if can_open then some to_all else none

unfoldable pub admit_stream : Bool → Client → Option Text → Streams → Option Target
unfolding stream_target can_open_connection
admit_stream is_admin client requested s =
    within_limit (can_open_connection client.user_key s)
      (stream_target is_admin client.user_key requested)

unfoldable pub open_stream : Target → Client → Streams → Streams
unfolding subscribe_address subscribe_all
open_stream (to_address address) client s = subscribe_address address client s
open_stream to_all client s = subscribe_all client s
open_stream forbidden client s = s

-- A connection that has no entry yet.
abbrev pub is_new : ℕ → Streams → Bool
is_new res s = not (any (is_same res) s.users)

-- The requests that wait for their replay and the streams, as the service gets to them; what becomes of
-- a connection is up to the network. `is_admin` is whether a user has that role, and `Accepts` what the
-- requests carry as their borrower.
module _ (is_admin : Text → Bool) (Accepts : Option Text → Type 0) where
  pub data Reached : List (Target × Client) → Streams → Type 0 where
    started : Reached [] (record { borrowers = []; admins = []; users = []; heartbeat = false })
    asked :
        {waiting : List (Target × Client)} {s : Streams} (client : Client) (requested : Option Text)
        (target : Target)
        → Accepts requested
        → admit_stream (is_admin client.user_key) client requested s ≡ some target
        → Reached waiting s
        → Reached ((target, client) ∷ waiting) s
    opened :
        (before after : List (Target × Client)) {s : Streams} (target : Target) (client : Client)
        → is_new client.res s ≡ true
        → Reached (before ++ (target, client) ∷ after) s
        → Reached (before ++ after) (open_stream target client s)
    closed :
        {waiting : List (Target × Client)} {s : Streams} (res : ℕ)
        → Reached waiting s
        → Reached waiting (unsubscribe res s)
    pinged :
        {waiting : List (Target × Client)} {s : Streams} (writes : ℕ → Bool)
        → Reached waiting s
        → Reached waiting (beat writes s)
    sent :
        {waiting : List (Target × Client)} {s : Streams} (writes : ℕ → Bool) (address : Option Text)
        → Reached waiting s
        → Reached waiting (broadcast writes address s).1
    closed_all :
        {waiting : List (Target × Client)} {s : Streams}
        → Reached waiting s
        → Reached waiting (close_all_connections s)
