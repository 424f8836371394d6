-- ===== src/Streams/Registered.antt =====
-- Every open stream is counted under its user.
use ziza_lend.Common.{
  ℕ, suc, ◌+◌, ◌≤◌, ◌≡◌, ap, refl, Bool, true, false, ◌&&◌, inl, inr, Option, List, [], ◌∷◌, ◌++◌,
  if◌then◌else◌, Text, filter, any, length, Bool-cases, arith,
}
use ziza_lend.Streams.{
  Client, Streams, is_of, get_user_connection_count, is_same, register_user_client,
  subscribe_address, subscribe_all, is_other, borrower_streams, collect_all_clients, remove_client,
  unsubscribe, ping, beat, broadcast, survives, close_all_connections, Target, to_address, to_all,
  forbidden, open_stream, is_new, Reached, started, asked, opened, closed, pinged, sent, closed_all,
}

abbrev count : (Client → Bool) → List Client → ℕ
count p cs = length (filter p cs)

count-append :
    (p : Client → Bool) (xs ys : List Client) → count p (xs ++ ys) ≡ count p xs + count p ys
count-append p [] ys = omega arith
count-append p (x ∷ xs) ys = elim (Bool-cases (p x)) [
  | inl t ↦ rw t (omega (arith, count-append p xs ys))
  | inr f ↦ rw f (count-append p xs ys)
]

-- Counting what passes another test.
count-filter :
    (p q : Client → Bool) (xs : List Client) → count p (filter q xs) ≡ count (λ c. q c && p c) xs
count-filter p q [] = refl
count-filter p q (x ∷ xs) = elim (Bool-cases (q x)) [
  | inr f ↦ rw f (count-filter p q xs)
  | inl t ↦ elim (Bool-cases (p x)) [
    | inl u ↦ rw (t, u) (ap suc (count-filter p q xs))
    | inr n ↦ rw (t, n) (count-filter p q xs)
  ]
]

count-filter_le : (p q : Client → Bool) (xs : List Client) → count p (filter q xs) ≤ count p xs
count-filter_le p q [] = omega arith
count-filter_le p q (x ∷ xs) = elim (Bool-cases (q x)) [
  | inr f ↦ rw f (below (p x) (count-filter_le p q xs))
  | inl t ↦ elim (Bool-cases (p x)) [
    | inl u ↦ rw (t, u) (omega (arith, count-filter_le p q xs))
    | inr n ↦ rw (t, n) (count-filter_le p q xs)
  ]
]
  where
    below :
        (b : Bool)
        → count p (filter q xs) ≤ count p xs
        → count p (filter q xs) ≤ length (if b then x ∷ filter p xs else filter p xs)
    below true h = omega (arith, h)
    below false h = h

streams-filter :
    (q : Client → Bool) (entries : List (Text × Client))
    → borrower_streams (filter (λ e. q e.1) entries) ≡ filter q (borrower_streams entries)
streams-filter q [] = refl
streams-filter q (e ∷ es) = elim (Bool-cases (q e.1)) [
  | inl t ↦ rw t (ap (◌∷◌ e.1) (streams-filter q es))
  | inr f ↦ rw f (streams-filter q es)
]

-- The streams of any kind of client are registered.
abbrev IsCounted : Streams → Type 0
IsCounted s = (p : Client → Bool) → count p (collect_all_clients s) ≤ count p s.users

remove_client-IsCounted : (res : ℕ) (s : Streams) → IsCounted s → IsCounted (remove_client res s)
unfolding remove_client
remove_client-IsCounted res s h p =
    let q = is_other res in
    let b = borrower_streams s.borrowers in
    omega (
      arith,
      count-append p (borrower_streams (filter (λ e. q e.1) s.borrowers)) (filter q s.admins),
      ap (count p) (streams-filter q s.borrowers),
      count-filter p q b,
      count-filter p q s.admins,
      count-filter p q s.users,
      h (λ c. q c && p c),
      count-append (λ c. q c && p c) b s.admins,
    )

ping-IsCounted :
    (writes : ℕ → Bool) (cs : List Client) (s : Streams)
    → IsCounted s
    → IsCounted (ping writes cs s)
unfolding ping
ping-IsCounted writes [] s h = h
ping-IsCounted writes (c ∷ cs) s h = elim (Bool-cases (writes c.res)) [
  | inl t ↦ rw (ping, t) (ping-IsCounted writes cs s h)
  | inr f ↦
      rw (ping, f)
        (ping-IsCounted writes cs (remove_client c.res s) (remove_client-IsCounted c.res s h))
]

any-and :
    (res : ℕ) (user_key : Text) (users : List Client)
    → any (is_same res) users ≡ false
    → any (λ c. is_same res c && is_of user_key c) users ≡ false
any-and res user_key [] h = refl
any-and res user_key (u ∷ us) h = elim (Bool-cases (is_same res u)) [
  | inl t ↦ absurd (ground (arith, h, t))
  | inr f ↦ rw f (any-and res user_key us (ground (arith, h, f)))
]

register_user_client-new :
    (client : Client) (s : Streams)
    → is_new client.res s ≡ true
    → register_user_client client s.users ≡ client ∷ s.users
unfolding register_user_client
register_user_client-new client s h =
    rw (any-and client.res client.user_key s.users (ground (arith, h))) refl

count-both :
    (p : Client → Bool) (c : Client) (xs ys : List Client)
    → count p xs ≤ count p ys
    → count p (c ∷ xs) ≤ count p (c ∷ ys)
count-both p c xs ys h = omega (arith, h, count-append p (c ∷ []) xs, count-append p (c ∷ []) ys)

open_stream-IsCounted :
    (target : Target) (client : Client) (s : Streams)
    → is_new client.res s ≡ true
    → IsCounted s
    → IsCounted (open_stream target client s)
unfolding open_stream subscribe_address subscribe_all
open_stream-IsCounted (to_address address) client s n h p =
    rw (register_user_client-new client s n)
      (count-both p client (collect_all_clients s) s.users (h p))
open_stream-IsCounted to_all client s n h p = rw (register_user_client-new client s n) (
    omega (
      arith,
      count-append p (borrower_streams s.borrowers) (client ∷ s.admins),
      count-append p (client ∷ []) s.admins,
      count-append p (client ∷ []) s.users,
      count-append p (borrower_streams s.borrowers) s.admins,
      h p,
    ))
open_stream-IsCounted forbidden client s n h p = h p

count-streams-filter :
    (p : Client → Bool) (q : Text × Client → Bool) (entries : List (Text × Client))
    → count p (borrower_streams (filter q entries)) ≤ count p (borrower_streams entries)
count-streams-filter p q [] = omega arith
count-streams-filter p q (e ∷ es) = elim (Bool-cases (q e)) [
  | inl t ↦ rw t (
      count-both p e.1 (borrower_streams (filter q es)) (borrower_streams es)
        (count-streams-filter p q es))
  | inr f ↦
      rw f (
        omega (arith, count-append p (e.1 ∷ []) (borrower_streams es), count-streams-filter p q es))
]

broadcast-IsCounted :
    (writes : ℕ → Bool) (address : Option Text) (s : Streams)
    → IsCounted s
    → IsCounted (broadcast writes address s).1
unfolding broadcast
broadcast-IsCounted writes address s h p = omega (
  arith,
  count-append p (borrower_streams (filter (survives writes address) s.borrowers))
      (filter (λ c. writes c.res) s.admins),
  count-streams-filter p (survives writes address) s.borrowers,
  count-filter_le p (λ c. writes c.res) s.admins,
  count-append p (borrower_streams s.borrowers) s.admins,
  h p,
)

either : (b : Bool) (s t : Streams) → IsCounted s → IsCounted t → IsCounted (if b then s else t)
either true s t h k = h
either false s t h k = k

module _ (is_admin : Text → Bool) (Accepts : Option Text → Type 0) where
  Reached-IsCounted :
      {waiting : List (Target × Client)} {s : Streams}
      → Reached is_admin Accepts waiting s
      → IsCounted s
  unfolding unsubscribe beat close_all_connections
  Reached-IsCounted started p = omega arith
  Reached-IsCounted (asked client requested target a e r) p = Reached-IsCounted r p
  Reached-IsCounted (opened before after {s = s} target client n r) p =
      open_stream-IsCounted target client s n (Reached-IsCounted r) p
  Reached-IsCounted (closed {s = s} res r) p = remove_client-IsCounted res s (Reached-IsCounted r) p
  Reached-IsCounted (pinged {s = s} writes r) p =
      either s.heartbeat (ping writes (collect_all_clients s) s) s
        (ping-IsCounted writes (collect_all_clients s) s (Reached-IsCounted r))
        (Reached-IsCounted r) p
  Reached-IsCounted (sent {s = s} writes address r) p =
      broadcast-IsCounted writes address s (Reached-IsCounted r) p
  Reached-IsCounted (closed_all r) p = omega arith

  -- The number that the limit is compared with is never less than the number of streams that the user
  -- has open, whatever opens, closes and fails.
  pub Reached-registered :
      {waiting : List (Target × Client)} {s : Streams} (user_key : Text)
      → Reached is_admin Accepts waiting s
      → length (filter (is_of user_key) (collect_all_clients s))
        ≤ get_user_connection_count user_key s
  unfolding get_user_connection_count
  Reached-registered user_key r = Reached-IsCounted r (is_of user_key)
