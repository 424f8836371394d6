-- ===== src/Scores/Cached.antt =====
-- The cached scores after a bulk update.
use ziza_lend.Common.{
  ◌≡◌, refl, ◌∙◌, true, none, some, [], ◌∷◌, Text, text_eq, text_eq_iff, text_eq_refl, arith, inl,
  inr, Bool-cases,
}
use ziza_lend.Common.Int.{ℤ}
use ziza_lend.Common.Map.{Map, map_get}
use ziza_lend.Common.MapLaws.{map_get-map_delete}
use ziza_lend.KvStore.{Entries, del}
use ziza_lend.Cache.{delete}
use ziza_lend.Scores.{
  Scores, with_user, drop_cached, score_key, breakdown_key, update_user_scores_bulk,
}
use ziza_lend.Scores.Bounds.{accepted, map_get-with_user}

map_get-delete :
    (k j : Text) (m : Entries) → map_get j m ≡ none → map_get j (delete true k m) ≡ none
unfolding delete del
map_get-delete k j m h = ground (arith, map_get-map_delete k j m, h)

delete-removes : (k : Text) (m : Entries) → map_get k (delete true k m) ≡ none
unfolding delete del
delete-removes k m = rw (map_get-map_delete k k m, text_eq_refl k) refl

drop_cached-keeps :
    (j : Text) (us : Map ℤ) (m : Entries)
    → map_get j m ≡ none
    → map_get j (drop_cached true us m) ≡ none
unfolding drop_cached
drop_cached-keeps j [] m h = h
drop_cached-keeps j ((user, n) ∷ us) m h =
    drop_cached-keeps j us (delete true (breakdown_key user) (delete true (score_key user) m)) (
      map_get-delete (breakdown_key user) j (delete true (score_key user) m)
        (map_get-delete (score_key user) j m h))

drop_cached-removes :
    (user : Text) (delta : ℤ) (us : Map ℤ) (m : Entries)
    → map_get user us ≡ some delta
    → (map_get (score_key user) (drop_cached true us m) ≡ none)
      × (map_get (breakdown_key user) (drop_cached true us m) ≡ none)
unfolding drop_cached map_get
drop_cached-removes user delta [] m h = cc
drop_cached-removes user delta ((j, n) ∷ us) m h = elim (Bool-cases (text_eq user j)) [
  | inl e ↦
      let same : user ≡ j = (text_eq_iff user j).0 e in
      rw same (
        drop_cached-keeps (score_key j) us
            (delete true (breakdown_key j) (delete true (score_key j) m))
            (map_get-delete (breakdown_key j) (score_key j) (delete true (score_key j) m)
              (delete-removes (score_key j) m)),
        drop_cached-keeps (breakdown_key j) us
            (delete true (breakdown_key j) (delete true (score_key j) m))
            (delete-removes (breakdown_key j) (delete true (score_key j) m)),
      )
  | inr e ↦
      drop_cached-removes user delta us
        (delete true (breakdown_key j) (delete true (score_key j) m)) (ground arith)
]

-- After a bulk update, and while the cache answers, neither the score nor the breakdown of an updated
-- user is cached any more.
pub update_user_scores_bulk-cache :
    (c : _) (s : Text) (delta : ℤ) (updates : Map ℤ) (table : Scores) (cache : Entries)
    → map_get (c ∷ s) updates ≡ some delta
    → (map_get (score_key (c ∷ s)) (update_user_scores_bulk true true updates table cache).cache
        ≡ none)
      × (map_get
            (breakdown_key (c ∷ s))
            (update_user_scores_bulk true true updates table cache).cache
          ≡ none)
update_user_scores_bulk-cache c s delta updates table cache h =
    rw (accepted true updates table cache).1 (
      drop_cached-removes (c ∷ s) delta (with_user updates) cache
        (map_get-with_user c s updates ∙ h))
