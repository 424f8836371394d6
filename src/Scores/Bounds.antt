-- ===== src/Scores/Bounds.antt =====
-- What a bulk update leaves in the table.
use ziza_lend.Common.{
  ℕ, ◌≡◌, refl, ◌⊎◌, inl, inr, ◌∙◌, ap, Bool, true, Option, none, some, [], ◌∷◌, if◌then◌else◌,
  Text, text_eq, text_eq_iff, arith,
}
use ziza_lend.Common.Int.{ℤ, pos, negsuc, ◌+ℤ◌, ◌-ℤ◌, ◌≤ℤ◌}
use ziza_lend.Common.Map.{Map, map_get, map_set}
use ziza_lend.Common.MapLaws.{map_get-map_set, HasUniqueKeys}
use ziza_lend.KvStore.{Entries}
use ziza_lend.Scores.{
  Scores, clamp, proposed, new_score, with_user, upsert, drop_cached, update_user_scores_bulk,
}

abbrev pub InBand : ℤ → Type 0
InBand n = (pos 300 ≤ℤ n) × (n ≤ℤ pos 850)

clamp-InBand : (n : ℤ) → InBand (clamp n)
unfolding clamp
clamp-InBand (pos n) = ground arith
clamp-InBand (negsuc n) = ground arith

-- Whatever the old score, or none, and the delta, the new score is between 300 and 850.
pub new_score-InBand : (old : Option ℤ) (delta : ℤ) → InBand (new_score old delta)
unfolding new_score proposed
new_score-InBand none delta = clamp-InBand (pos 500 +ℤ delta)
new_score-InBand (some score) delta = clamp-InBand (score +ℤ proposed delta -ℤ pos 500)

-- A delta between -200 and 350 is added to the user's score, or to 500 for a new one, and the sum is
-- cut to the band from 300 to 850.
pub new_score-adds :
    (score delta : ℤ)
    → negsuc 199 ≤ℤ delta
    → delta ≤ℤ pos 350
    → (new_score (some score) delta ≡ clamp (score +ℤ delta))
      × (new_score none delta ≡ clamp (pos 500 +ℤ delta))
unfolding new_score proposed clamp ◌+ℤ◌ ◌-ℤ◌
new_score-adds (pos s) (pos d) low high = (ground arith, refl)
new_score-adds (pos s) (negsuc d) low high = (ground arith, refl)
new_score-adds (negsuc s) (pos d) low high = (ground arith, refl)
new_score-adds (negsuc s) (negsuc d) low high = (ground arith, refl)

-- Outside these bounds an update is cut twice: no delta takes more than 200 from a score.
pub new_score-loses_at_most :
    (score delta : ℤ) → score ≤ℤ pos 850 → (score -ℤ pos 200) ≤ℤ new_score (some score) delta
unfolding new_score proposed clamp ◌+ℤ◌ ◌-ℤ◌
new_score-loses_at_most (pos s) (pos d) h = ground arith
new_score-loses_at_most (pos s) (negsuc d) h = ground arith
new_score-loses_at_most (negsuc s) (pos d) h = ground arith
new_score-loses_at_most (negsuc s) (negsuc d) h = ground arith

abbrev pub updated : Option ℤ → Option ℤ → Option ℤ
updated none old = old
updated (some delta) old = some (new_score old delta)

map_get-upsert :
    (user : Text) (us : Map ℤ) (table : Scores)
    → HasUniqueKeys us
    → map_get user (upsert us table) ≡ updated (map_get user us) (map_get user table)
unfolding upsert map_get
map_get-upsert user [] table u = refl
map_get-upsert user ((j, delta) ∷ us) table u = ground (
  arith,
  text_eq_iff user j,
  map_get-map_set j user (new_score (map_get j table) delta) table,
  map_get-upsert user us (map_set j (new_score (map_get j table) delta) table) u.1,
  u.0,
)

pub map_get-with_user :
    (c : ℕ) (s : Text) (us : Map ℤ) → map_get (c ∷ s) (with_user us) ≡ map_get (c ∷ s) us
unfolding with_user map_get
map_get-with_user c s [] = refl
map_get-with_user c s (([], n) ∷ us) = map_get-with_user c s us
map_get-with_user c s ((d ∷ t, n) ∷ us) =
    ap (λ rest. if text_eq (c ∷ s) (d ∷ t) then some n else rest) (map_get-with_user c s us)

pub with_user-HasUniqueKeys : (us : Map ℤ) → HasUniqueKeys us → HasUniqueKeys (with_user us)
unfolding with_user map_get
with_user-HasUniqueKeys [] u = tt
with_user-HasUniqueKeys (([], n) ∷ us) u = with_user-HasUniqueKeys us u.1
with_user-HasUniqueKeys ((d ∷ t, n) ∷ us) u =
    (map_get-with_user d t us ∙ u.0, with_user-HasUniqueKeys us u.1)

pub List-cases : (us : Map ℤ) → (us ≡ []) ⊎ ((u : Text × ℤ) × (rest : Map ℤ) × (us ≡ u ∷ rest))
List-cases [] = inl refl
List-cases (u ∷ us) = inr (u, us, refl)

-- What an accepted bulk update does to the table and to the cache.
pub accepted :
    (cache_up : Bool) (updates : Map ℤ) (table : Scores) (cache : Entries)
    → ((update_user_scores_bulk true cache_up updates table cache).table
        ≡ upsert (with_user updates) table)
      × ((update_user_scores_bulk true cache_up updates table cache).cache
          ≡ drop_cached cache_up (with_user updates) cache)
unfolding update_user_scores_bulk upsert drop_cached
accepted cache_up updates table cache = elim (List-cases (with_user updates)) [
  | inl e ↦ rw (update_user_scores_bulk, e) (refl, refl)
  | inr (u, us, e) ↦ rw (update_user_scores_bulk, e) (refl, refl)
]

-- A bulk update that the database accepts gives each named user of the map its new score, and leaves
-- the scores of all other users alone.
pub update_user_scores_bulk-table :
    (cache_up : Bool) (c : ℕ) (s : Text) (updates : Map ℤ) (table : Scores) (cache : Entries)
    → HasUniqueKeys updates
    → map_get (c ∷ s) (update_user_scores_bulk true cache_up updates table cache).table
      ≡ updated (map_get (c ∷ s) updates) (map_get (c ∷ s) table)
unfolding update_user_scores_bulk
update_user_scores_bulk-table cache_up c s updates table cache u = rw (
  (accepted cache_up updates table cache).0,
  map_get-upsert (c ∷ s) (with_user updates) table (with_user-HasUniqueKeys updates u),
  map_get-with_user c s updates,
)
