-- ===== src/DefaultChecker/Lock/Owner.antt =====
-- What holds of the field `currentLockValue` of each process while its runs take turns.
use ziza_lend.Common.{
  ℕ, ◌≡◌, ◌≢◌, ◌∙◌, sym, ap, true, none, some, inl, inr, Text, ◌==◌, ==_iff, Bool-cases, arith,
}
use ziza_lend.DefaultChecker.Lock.{Phase, running, Checker, put}

-- The field of a process has the value of its run, and a process has one run at most.
pub record IsOwned (process : ℕ → ℕ) (phase : ℕ → Phase) (checker : ℕ → Checker) : Type 0 where
  pub own :
      (i : ℕ) {v : Text} {since : ℕ} → phase i ≡ running v since → checker (process i) ≡ some v
  pub one_run :
      (i j : ℕ) {u v : Text} {s t : ℕ}
      → phase i ≡ running u s
      → phase j ≡ running v t
      → process i ≡ process j
      → i ≡ j

module _ {process : ℕ → ℕ} {phase : ℕ → Phase} {checker : ℕ → Checker} where
  -- A run that is not under way afterwards; the field stays, or is cleared at the end of the run.
  pub stop-IsOwned :
      (i : ℕ) (p : Phase)
      → ((v : Text) (since : ℕ) → p ≢ running v since)
      → IsOwned process phase checker
      → IsOwned process (put phase i p) checker
  stop-IsOwned i p still inv = record {
    own = λ j {v} {since} a. inv.own j (was j v since a);
    one_run = λ j k {u} {v} {s} {t} a b same. inv.one_run j k (was j u s a) (was k v t b) same;
  }
    where
      was :
          (j : ℕ) (v : Text) (since : ℕ)
          → put phase i p j ≡ running v since
          → phase j ≡ running v since
      was j v since a = elim (Bool-cases (j == i)) [
        | inl this ↦ absurd (still v since (rw this at a))
        | inr other ↦ rw other at a
      ]

  -- A field that is written with what it has.
  pub same_field-IsOwned :
      (p : ℕ) → IsOwned process phase checker → IsOwned process phase (put checker p (checker p))
  same_field-IsOwned p inv = record {
    own = λ j {v} {since} a. kept (process j) (inv.own j a);
    one_run = inv.one_run;
  }
    where
      kept : (q : ℕ) {v : Text} → checker q ≡ some v → put checker p (checker p) q ≡ some v
      kept q h = elim (Bool-cases (q == p)) [
        | inl same ↦ rw same (ap checker (sym ((==_iff q p).0 same)) ∙ h)
        | inr apart ↦ rw apart h
      ]

  pub clear-IsOwned :
      (i : ℕ) (p : Phase) {u : Text} {s : ℕ}
      → phase i ≡ running u s
      → ((v : Text) (since : ℕ) → p ≢ running v since)
      → IsOwned process phase checker
      → IsOwned process (put phase i p) (put checker (process i) none)
  clear-IsOwned i p runs still inv = record {
    own = owned;
    one_run = (stop-IsOwned i p still inv).one_run;
  }
    where
      owned :
          (j : ℕ) {v : Text} {since : ℕ}
          → put phase i p j ≡ running v since
          → put checker (process i) none (process j) ≡ some v
      owned j {v} {since} a = elim (Bool-cases (j == i)) [
        | inl this ↦ absurd (still v since (rw this at a))
        | inr other ↦ elim (Bool-cases (process j == process i)) [
          | inl same ↦ absurd (
              ground (
                arith,
                ==_iff j i,
                inv.one_run j i (rw other at a) runs ((==_iff (process j) (process i)).0 same),
              ))
          | inr apart ↦ rw apart (inv.own j (rw other at a))
        ]
      ]

  pub begin-IsOwned :
      (i : ℕ) (text : Text) (now : ℕ)
      → ((j : ℕ) (v : Text) (since : ℕ) → process j ≡ process i → phase j ≢ running v since)
      → IsOwned process phase checker
      → IsOwned process (put phase i (running text now)) (put checker (process i) (some text))
  begin-IsOwned i text now alone inv = record { own = owned; one_run = one }
    where
      owned :
          (j : ℕ) {v : Text} {since : ℕ}
          → put phase i (running text now) j ≡ running v since
          → put checker (process i) (some text) (process j) ≡ some v
      owned j {v} {since} a = elim (Bool-cases (j == i)) [
        | inl this ↦
            let here : (process j == process i) ≡ true =
              (==_iff (process j) (process i)).1 (ap process ((==_iff j i).0 this)) in
            let mine = rw this at a in rw here (cc mine)
        | inr other ↦ elim (Bool-cases (process j == process i)) [
          | inl same ↦
              absurd (alone j v since ((==_iff (process j) (process i)).0 same) (rw other at a))
          | inr apart ↦ rw apart (inv.own j (rw other at a))
        ]
      ]

      one :
          (j k : ℕ) {u v : Text} {s t : ℕ}
          → put phase i (running text now) j ≡ running u s
          → put phase i (running text now) k ≡ running v t
          → process j ≡ process k
          → j ≡ k
      one j k {u} {v} {s} {t} a b same = elim (Bool-cases (j == i)) [
        | inl j_this ↦ elim (Bool-cases (k == i)) [
          | inl k_this ↦ (==_iff j i).0 j_this ∙ sym ((==_iff k i).0 k_this)
          | inr other ↦
              absurd (alone k v t (sym same ∙ ap process ((==_iff j i).0 j_this)) (rw other at b))
        ]
        | inr j_other ↦ elim (Bool-cases (k == i)) [
          | inl k_this ↦
              absurd (alone j u s (same ∙ ap process ((==_iff k i).0 k_this)) (rw j_other at a))
          | inr other ↦ inv.one_run j k (rw j_other at a) (rw other at b) same
        ]
      ]
