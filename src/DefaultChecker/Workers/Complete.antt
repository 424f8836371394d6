-- ===== src/DefaultChecker/Workers/Complete.antt =====
-- When the workers have finished, each item was called once and its result stands at its index.
use ziza_lend.Common.{
  ℕ, zero, suc, ◌≤◌, ◌<◌, ◌≡◌, ◌⊎◌, ◌∙◌, refl, sym, ap, some, false, List, [], ◌∷◌, ◌==◌, ==_iff,
  inl, inr, Bool-cases, arith,
}
use ziza_lend.DefaultChecker.Workers.{
  finished, calling, Pool, update, new_pool, worker_count, Step, takes, returns, leaves, Reached,
  at_start, after,
}

-- The indexes below a number, the highest first.
abbrev pub countdown : ℕ → List ℕ
countdown zero = []
countdown (suc n) = n ∷ countdown n

module _ {A R : Type 0} (item : ℕ → A) (n limit : ℕ) (fn : A → R) where
  record IsKept (p : Pool R) : Type 0 where
    done_or_called :
        (k : ℕ)
        → k < p.current_index
        → (p.results k ≡ some (fn (item k)))
          ⊎ ((i : ℕ) × (i < worker_count item n limit fn) × (p.worker i ≡ calling k))
    in_range : (i k : ℕ) → p.worker i ≡ calling k → i < worker_count item n limit fn
    at_end : (i : ℕ) → p.worker i ≡ finished → n ≤ p.current_index
    within : p.current_index ≤ n
    once : p.started ≡ countdown p.current_index

  -- The cases of an index under an update.
  at_update {ℓ κ} :
      {B : Type ℓ} (P : B → Type κ) (f : ℕ → B) (i j : ℕ) (b : B)
      → (j ≡ i → P b)
      → ((j == i) ≡ false → P (f j))
      → P (update f i b j)
  at_update P f i j b this other = elim (Bool-cases (j == i)) [
    | inl same ↦ rw same (this ((==_iff j i).0 same))
    | inr apart ↦ rw apart (other apart)
  ]

  from_update {ℓ κ μ} :
      {B : Type ℓ} {Q : Type μ} (P : B → Type κ) (f : ℕ → B) (i j : ℕ) (b : B)
      → (j ≡ i → P b → Q)
      → ((j == i) ≡ false → P (f j) → Q)
      → P (update f i b j)
      → Q
  from_update {Q} P f i j b this other = at_update (λ x. P x → Q) f i j b this other

  start-IsKept : IsKept new_pool
  start-IsKept = record {
    done_or_called = λ k below. absurd (omega arith);
    in_range = λ i k e. cc e;
    at_end = λ i e. cc e;
    within = omega arith;
    once = refl;
  }

  Step-IsKept : {p q : Pool R} → Step item n limit fn p q → IsKept p → IsKept q
  Step-IsKept {p} (takes i mine free more) h = record {
    done_or_called = λ k below. elim (Bool-cases (k == p.current_index)) [
      | inl last ↦ inr (
        i,
        mine,
        at_update (λ w. w ≡ calling k) p.worker i i _
            (λ _. ap calling (sym ((==_iff k p.current_index).0 last)))
            (λ apart. absurd (cc ((==_iff i i).1 refl, apart))),
      )
      | inr before ↦ elim (h.done_or_called k (ground (arith, below, before))) [
        | inl result ↦ inl result
        | inr (j, few, busy) ↦ inr (
          j,
          few,
          at_update (λ w. w ≡ calling k) p.worker i j _
              (λ same. absurd (cc (ap p.worker same, busy, free))) (λ _. busy),
        )
      ]
    ];
    in_range = λ j k.
        from_update (λ w. w ≡ calling k) p.worker i j _ (λ same _. rw same mine)
          (λ _ e. h.in_range j k e);
    at_end = λ j.
        from_update (λ w. w ≡ finished) p.worker i j _ (λ _ e. absurd (cc e))
          (λ _ e. absurd (omega (arith, h.at_end j e, more)));
    within = more;
    once = ap (◌∷◌ p.current_index) h.once;
  }
  Step-IsKept {p} (returns i k busy) h = record {
    done_or_called = λ m below. elim (Bool-cases (m == k)) [
      | inl this ↦ inl (
          at_update (λ r. r ≡ some (fn (item m))) p.results k m _
            (λ same. ap (λ x. some (fn (item x))) (sym same)) (λ apart. absurd (cc (this, apart))))
      | inr other ↦ elim (h.done_or_called m below) [
        | inl result ↦ inl (
            at_update (λ r. r ≡ some (fn (item m))) p.results k m _
              (λ same. absurd (cc ((==_iff m k).1 same, other))) (λ _. result))
        | inr (j, few, called) ↦ inr (
          j,
          few,
          at_update (λ w. w ≡ calling m) p.worker i j _
              (λ same. absurd (
                cc (
                  (==_iff m k).1 (calling-injective m k (sym called ∙ ap p.worker same ∙ busy)),
                  other,
                )))
              (λ _. called),
        )
      ]
    ];
    in_range = λ j m.
        from_update (λ w. w ≡ calling m) p.worker i j _ (λ _ e. absurd (cc e))
          (λ _ e. h.in_range j m e);
    at_end = λ j.
        from_update (λ w. w ≡ finished) p.worker i j _ (λ _ e. absurd (cc e)) (λ _ e. h.at_end j e);
    within = h.within;
    once = h.once;
  }
    where
      calling-injective : (a b : ℕ) → calling a ≡ calling b → a ≡ b
      calling-injective a b e = cc e
  Step-IsKept {p} (leaves i free ended) h = record {
    done_or_called = λ k below. elim (h.done_or_called k below) [
      | inl result ↦ inl result
      | inr (j, few, busy) ↦ inr (
        j,
        few,
        at_update (λ w. w ≡ calling k) p.worker i j _
            (λ same. absurd (cc (ap p.worker same, busy, free))) (λ _. busy),
      )
    ];
    in_range = λ j k.
        from_update (λ w. w ≡ calling k) p.worker i j _ (λ _ e. absurd (cc e))
          (λ _ e. h.in_range j k e);
    at_end =
        λ j. from_update (λ w. w ≡ finished) p.worker i j _ (λ _ _. ended) (λ _ e. h.at_end j e);
    within = h.within;
    once = h.once;
  }

  Reached-IsKept : {p : Pool R} → Reached item n limit fn p → IsKept p
  Reached-IsKept at_start = start-IsKept
  Reached-IsKept (after r st) = Step-IsKept st (Reached-IsKept r)

  -- In whatever order the calls end: when every worker has finished, `fn` was called for each index exactly
  -- once, and the result of each item stands at its index, if there is a worker.
  pub Reached-complete :
      {p : Pool R}
      → Reached item n limit fn p
      → 0 < limit
      → ((i : ℕ) → i < worker_count item n limit fn → p.worker i ≡ finished)
      → (k : ℕ) → k < n
      → (p.results k ≡ some (fn (item k))) × (p.started ≡ countdown n)
  Reached-complete {p} r some_worker all_finished k below =
      let h = Reached-IsKept r in
      let ended : n ≤ p.current_index = h.at_end 0 (all_finished 0 (omega arith)) in
      let all : p.current_index ≡ n = omega (arith, h.within) in
      (
        elim (h.done_or_called k (omega arith)) [
          | inl result ↦ result
          | inr (i, few, busy) ↦ absurd (cc (all_finished i few, busy))
        ],
        h.once ∙ ap countdown all,
      )
