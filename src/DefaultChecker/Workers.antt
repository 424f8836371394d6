-- ===== src/DefaultChecker/Workers.antt =====
-- `mapConcurrent` of backend/src/services/defaultChecker.ts: workers that share the index of the next item,
-- as steps in any order. A worker takes an item and starts its call in one step; the call ends in another.
pub mod Complete
use ziza_lend.Common.{
  ℕ, zero, suc, ◌≤◌, ◌<◌, ◌≡◌, Option, none, some, Bool, true, false, List, [], ◌∷◌, min, ◌==◌,
  if◌then◌else◌,
}

pub data Worker : Type 0 where
  looking finished : Worker
  calling : (index : ℕ) → Worker

-- `currentIndex`, `results`, the workers, and the indexes whose calls were started, the latest first.
pub record Pool (R : Type 0) : Type 0 where
  pub current_index : ℕ
  pub results : ℕ → Option R
  pub worker : ℕ → Worker
  pub started : List ℕ

abbrev pub update {ℓ} : {A : Type ℓ} → (ℕ → A) → ℕ → A → ℕ → A
update f i a j = if j == i then a else f j

abbrev pub new_pool : {R : Type 0} → Pool R
new_pool = record { current_index = 0; results = λ i. none; worker = λ i. looking; started = [] }

-- The list is its length and the item at each index; a call gives the value of `fn` at the item.
module _ {A R : Type 0} (item : ℕ → A) (n limit : ℕ) (fn : A → R) where
  abbrev pub worker_count : ℕ
  worker_count = min limit n

  pub data Step (p : Pool R) : Pool R → Type 0 where
    takes :
        (i : ℕ)
        → i < worker_count
        → p.worker i ≡ looking
        → p.current_index < n
        → Step p (record p {
          current_index = suc p.current_index;
          worker = update p.worker i (calling p.current_index);
          started = p.current_index ∷ p.started;
        })
    returns :
        (i k : ℕ)
        → p.worker i ≡ calling k
        → Step p (record p {
          results = update p.results k (some (fn (item k)));
          worker = update p.worker i looking;
        })
    leaves :
        (i : ℕ)
        → p.worker i ≡ looking
        → n ≤ p.current_index
        → Step p (record p { worker = update p.worker i finished })

  pub data Reached : Pool R → Type 0 where
    at_start : Reached new_pool
    after : {p q : Pool R} → Reached p → Step p q → Reached q
