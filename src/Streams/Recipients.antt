-- ===== src/Streams/Recipients.antt =====
-- Who gets an event.
use mathlib.Core.List.Memᴰ
use mathlib.Core.List.{Memᴰ}
use mathlib.Core.Path.{subst}
use ziza_lend.Common.{
  ℕ, ◌≡◌, ◌≢◌, ◌⊎◌, ap, sym, ◌∙◌, refl, Bool, true, false, inl, inr, Option, none, some, List, [],
  ◌∷◌, ◌++◌, if◌then◌else◌, Text, text_eq, text_eq_iff, filter, filter-Memᴰ, All, All-append,
  All-imp, Bool-cases,
}
use ziza_lend.Streams.{
  Client, Streams, can_open_connection, subscribe_address, subscribe_all, is_other,
  borrower_streams, collect_all_clients, remove_client, unsubscribe, ping, beat, is_for,
  address_clients, survives, broadcast, close_all_connections, Target, to_address, to_all,
  forbidden, stream_target, within_limit, admit_stream, open_stream, Reached, started, asked,
  opened, closed, pinged, sent, closed_all,
}

filter-All :
    {A : Type 0} (P : A → Type 0) (p : A → Bool) (xs : List A) → All P xs → All P (filter p xs)
filter-All P p [] h = tt
filter-All P p (x ∷ xs) h = elim (Bool-cases (p x)) [
  | inl t ↦ rw t (h.0, filter-All P p xs h.1)
  | inr f ↦ rw f (filter-All P p xs h.1)
]

some-injective : {A : Type 0} {a b : A} → some a ≡ some b → a ≡ b
some-injective h = cc h

All-middle :
    {A : Type 0} (P : A → Type 0) (xs : List A) (y : A) (ys : List A)
    → All P (xs ++ y ∷ ys)
    → P y × All P (xs ++ ys)
All-middle P [] y ys h = h
All-middle P (x ∷ xs) y ys h = let rest = All-middle P xs y ys h.1 in (rest.0, (h.0, rest.1))

module _ (is_admin : Text → Bool) where
  -- A user may follow an address that is its own, and an admin any address and all events.
  abbrev MayFollow : Text → Client → Type 0
  MayFollow address client = (is_admin client.user_key ≡ true) ⊎ (address ≡ client.user_key)

  abbrev MayOpen : Target → Client → Type 0
  MayOpen (to_address address) client = MayFollow address client
  MayOpen to_all client = is_admin client.user_key ≡ true
  MayOpen forbidden client = Unit

  record IsProper (s : Streams) : Type 0 where
    own : All (λ e. MayFollow e.0 e.1) s.borrowers
    admin : All (λ c. is_admin c.user_key ≡ true) s.admins

  -- No request names an empty borrower.
  abbrev pub NamesNone : Option Text → Type 0
  NamesNone requested = requested ≢ some []

  stream_target-MayOpen :
      (client : Client) (requested : Option Text)
      → NamesNone requested
      → MayOpen (stream_target (is_admin client.user_key) client.user_key requested) client
  unfolding stream_target
  stream_target-MayOpen client none h = elim (Bool-cases (is_admin client.user_key)) [
    | inl t ↦ rw t t
    | inr f ↦ rw f (inr refl)
  ]
  stream_target-MayOpen client (some []) h = absurd (h refl)
  stream_target-MayOpen client (some (c ∷ s)) h = elim (Bool-cases (is_admin client.user_key)) [
    | inl t ↦ rw t (inl t)
    | inr f ↦ elim (Bool-cases (text_eq (c ∷ s) client.user_key)) [
      | inl u ↦ rw (f, u) (inr ((text_eq_iff (c ∷ s) client.user_key).0 u))
      | inr n ↦ rw (f, n) tt
    ]
  ]

  within_limit-MayOpen :
      (can_open : Bool) (asked_for target : Target) (client : Client)
      → within_limit can_open asked_for ≡ some target
      → MayOpen asked_for client
      → MayOpen target client
  within_limit-MayOpen can_open forbidden target client h m = absurd (cc h)
  within_limit-MayOpen true (to_address address) target client h m =
      subst (λ t. MayOpen t client) (some-injective h) m
  within_limit-MayOpen false (to_address address) target client h m = absurd (cc h)
  within_limit-MayOpen true to_all target client h m =
      subst (λ t. MayOpen t client) (some-injective h) m
  within_limit-MayOpen false to_all target client h m = absurd (cc h)

  remove_client-IsProper : (res : ℕ) (s : Streams) → IsProper s → IsProper (remove_client res s)
  unfolding remove_client
  remove_client-IsProper res s h = record {
    own = filter-All (λ e. MayFollow e.0 e.1) (λ e. is_other res e.1) s.borrowers h.own;
    admin = filter-All (λ c. is_admin c.user_key ≡ true) (is_other res) s.admins h.admin;
  }

  either : (b : Bool) (s t : Streams) → IsProper s → IsProper t → IsProper (if b then s else t)
  either true s t h k = h
  either false s t h k = k

  ping-IsProper :
      (writes : ℕ → Bool) (cs : List Client) (s : Streams)
      → IsProper s
      → IsProper (ping writes cs s)
  unfolding ping
  ping-IsProper writes [] s h = h
  ping-IsProper writes (c ∷ cs) s h =
      ping-IsProper writes cs (if writes c.res then s else remove_client c.res s)
        (either (writes c.res) s (remove_client c.res s) h (remove_client-IsProper c.res s h))

  open_stream-IsProper :
      (target : Target) (client : Client) (s : Streams)
      → MayOpen target client
      → IsProper s
      → IsProper (open_stream target client s)
  unfolding open_stream subscribe_address subscribe_all
  open_stream-IsProper (to_address address) client s m h = record {
    own = (m, h.own);
    admin = h.admin;
  }
  open_stream-IsProper to_all client s m h = record { own = h.own; admin = (m, h.admin) }
  open_stream-IsProper forbidden client s m h = h

  -- The waiting requests and the open streams are all in order.
  abbrev IsInOrder : List (Target × Client) → Streams → Type 0
  IsInOrder waiting s = All (λ w. MayOpen w.0 w.1) waiting × IsProper s

  Reached-IsInOrder :
      {waiting : List (Target × Client)} {s : Streams}
      → Reached is_admin NamesNone waiting s
      → IsInOrder waiting s
  unfolding unsubscribe beat close_all_connections broadcast admit_stream
  Reached-IsInOrder started = (tt, record { own = tt; admin = tt })
  Reached-IsInOrder (asked {s = s} client requested target n a r) =
      let before = Reached-IsInOrder r in
      let wanted = stream_target (is_admin client.user_key) client.user_key requested in
      (
        (
          within_limit-MayOpen (can_open_connection client.user_key s) wanted target client a
              (stream_target-MayOpen client requested n),
          before.0,
        ),
        before.1,
      )
  Reached-IsInOrder (opened first rest {s = s} target client n r) =
      let before = Reached-IsInOrder r in
      let parts = All-middle (λ w. MayOpen w.0 w.1) first (target, client) rest before.0 in
      (parts.1, open_stream-IsProper target client s parts.0 before.1)
  Reached-IsInOrder (closed {s = s} res r) =
      let before = Reached-IsInOrder r in
      let removed = remove_client-IsProper res s before.1 in
      (before.0, record { own = removed.own; admin = removed.admin })
  Reached-IsInOrder (pinged {s = s} writes r) =
      let before = Reached-IsInOrder r in
      (
        before.0,
        either s.heartbeat (ping writes (collect_all_clients s) s) s
            (ping-IsProper writes (collect_all_clients s) s before.1) before.1,
      )
  Reached-IsInOrder (sent {s = s} writes address r) =
      let before = Reached-IsInOrder r in
      (
        before.0,
        record {
          own =
              filter-All (λ e. MayFollow e.0 e.1) (survives writes address) s.borrowers
                before.1.own;
          admin =
              filter-All (λ c. is_admin c.user_key ≡ true) (λ c. writes c.res) s.admins
                before.1.admin;
        },
      )
  Reached-IsInOrder (closed_all r) = ((Reached-IsInOrder r).0, record { own = tt; admin = tt })

  -- A user may get an event about itself, and an admin any event.
  abbrev pub MayGet : Option Text → Client → Type 0
  MayGet address client = (is_admin client.user_key ≡ true) ⊎ (address ≡ some client.user_key)

  followers-MayGet :
      (address : Text) (entries : List (Text × Client))
      → All (λ e. MayFollow e.0 e.1) entries
      → All (MayGet (some address)) (borrower_streams (filter (is_for address) entries))
  followers-MayGet address [] h = tt
  followers-MayGet address (e ∷ es) h = elim (Bool-cases (is_for address e)) [
    | inr f ↦ rw f (followers-MayGet address es h.1)
    | inl t ↦ rw t (
      follower address e.0 e.1 ((text_eq_iff e.0 address).0 t) h.0,
      followers-MayGet address es h.1,
    )
  ]
    where
      follower :
          (address own : Text) (client : Client)
          → own ≡ address
          → MayFollow own client
          → MayGet (some address) client
      follower address own client e (inl a) = inl a
      follower address own client e (inr u) = inr (ap some (sym e ∙ u))

  address_clients-MayGet :
      (address : Option Text) (entries : List (Text × Client))
      → All (λ e. MayFollow e.0 e.1) entries
      → All (MayGet address) (address_clients address entries)
  address_clients-MayGet none entries h = tt
  address_clients-MayGet (some []) entries h = tt
  address_clients-MayGet (some (c ∷ s)) entries h = followers-MayGet (c ∷ s) entries h

  -- As long as no request names an empty borrower, an event reaches only admins and the user that it is
  -- about, whatever opens, waits, closes and fails. Roles do not change.
  pub Reached-recipients :
      {waiting : List (Target × Client)} {s : Streams} (writes : ℕ → Bool) (address : Option Text)
      → Reached is_admin NamesNone waiting s
      → All (MayGet address) (broadcast writes address s).0
  unfolding broadcast
  Reached-recipients {s = s} writes address r =
      let proper = (Reached-IsInOrder r).1 in
      filter-All (MayGet address) (λ c. writes c.res)
        (address_clients address s.borrowers ++ s.admins)
        (All-append (MayGet address) (address_clients address s.borrowers) s.admins
          (address_clients-MayGet address s.borrowers proper.own)
          (All-imp s.admins (λ c a. inl a) proper.admin))

-- A user that is no admin and asks for the stream of an empty borrower is admitted to all events while
-- the limit allows it, and then gets every event about anybody.
pub empty_borrower-gets_all :
    (client : Client) (s : Streams) (writes : ℕ → Bool) (address : Option Text)
    → can_open_connection client.user_key s ≡ true
    → writes client.res ≡ true
    → (target : Target) × (admit_stream false client (some []) s ≡ some target)
      × Memᴰ client (broadcast writes address (open_stream target client s)).0
unfolding admit_stream stream_target broadcast open_stream subscribe_all
empty_borrower-gets_all client s writes address h k = (
  to_all,
  rw h refl,
  filter-Memᴰ (λ c. writes c.res) (address_clients address s.borrowers ++ client ∷ s.admins) k
      (Memᴰ.append_right (address_clients address s.borrowers) (Memᴰ.head refl)),
)
