-- ===== src/Concurrent.antt =====
-- Tasks that run at the same time. A program is a task split into its statements: the queries, the
-- writes, the calls of services and the messages, each of which takes effect at once, as a statement
-- does that commits by itself. Between two statements of one task other tasks may run theirs.
pub mod Safe
pub mod Programs
pub mod Backtests
pub mod Alone
pub mod Growth
pub mod Statements
pub mod Tasks
pub mod Done
pub mod Assess
pub mod Deliver
pub mod Attempt
pub mod Ingest
pub mod Edits
pub mod Sound
pub mod Serial
pub mod Whole
pub mod Race
use cryptovira.Prelude.{ℕ, zero, suc, ◌≡◌, refl, ap, ◌∙◌, List, [], ◌∷◌, map}
use cryptovira.Exec.{Exec, Result, ok, err, continue}

-- A program over states `S`: it ends, or makes a statement and goes on with what that returns. An
-- exception ends it.
pub data Code (S : Type 0) (A : Type 0) : Type 1 where
  stop : Result A → Code S A
  ask : {B : Type 0} → Exec S B → (B → Code S A) → Code S A

module _ {S A : Type 0} where
  abbrev pub done : A → Code S A
  done a = stop (ok a)

  infixl 5 ◌>>=◌ ◌>>◌
  abbrev pub ◌>>=◌ : {B : Type 0} → Exec S B → (B → Code S A) → Code S A
  m >>= k = ask m k

  abbrev pub ◌>>◌ : {B : Type 0} → Exec S B → Code S A → Code S A
  m >> k = ask m (λ _. k)

  -- A program that runs with nothing between its statements.
  unfoldable pub run : Code S A → Exec S A
  run (stop r) s = (r, s)
  run (ask m k) s = continue (m s) (λ b. run (k b))

  -- What is left of a program after its next statement, and the state then.
  unfoldable pub resume : {B : Type 0} → Result B × S → (B → Code S A) → Code S A × S
  resume (ok b, s) k = (k b, s)
  resume (err e, s) k = (stop (err e), s)

  unfoldable pub advance : Code S A → S → Code S A × S
  unfolding resume
  advance (stop r) s = (stop r, s)
  advance (ask m k) s = resume (m s) k

-- Programs that run at the same time, each with a label, and the state that they share.
pub record Pool (L S A : Type 0) : Type 1 where
  pub state : S
  pub threads : List (L × Code S A)

module _ {L S A : Type 0} where
  -- the next statement of the program at that place; of no program, if there is none
  unfoldable pub pick : ℕ → List (L × Code S A) → S → Pool L S A
  unfolding advance
  pick i [] s = record { state = s; threads = [] }
  pick zero ((l, c) ∷ cs) s =
      let (c', s') = advance c s in record { state = s'; threads = (l, c') ∷ cs }
  pick (suc i) (t ∷ cs) s =
      let p = pick i cs s in record { state = p.state; threads = t ∷ p.threads }

  -- An interleaving: which program makes the next statement, one after another.
  unfoldable pub interleave : List ℕ → Pool L S A → Pool L S A
  unfolding pick
  interleave [] p = p
  interleave (i ∷ is) p = interleave is (pick i p.threads p.state)

  -- What holds of a program that has ended without an exception, of its label.
  abbrev pub WhenDone : (L → Type 0) → L × Code S A → Type 0
  WhenDone P (l, stop (ok a)) = P l
  WhenDone P (l, stop (err e)) = Unit
  WhenDone P (l, ask m k) = Unit

  abbrev pub HasEnded : L × Code S A → Type 0
  HasEnded (l, stop r) = Unit
  HasEnded (l, ask m k) = ⊥

  -- The programs stay in their places.
  pick-labels :
      (i : ℕ) (ts : List (L × Code S A)) (s : S)
      → map (λ t. t.0) (pick i ts s).threads ≡ map (λ t. t.0) ts
  unfolding pick
  pick-labels i [] s = refl
  pick-labels zero ((l, c) ∷ ts) s = refl
  pick-labels (suc i) (t ∷ ts) s = ap (λ ls. t.0 ∷ ls) (pick-labels i ts s)

  pub interleave-labels :
      (is : List ℕ) (p : Pool L S A)
      → map (λ t. t.0) (interleave is p).threads ≡ map (λ t. t.0) p.threads
  unfolding interleave
  interleave-labels [] p = refl
  interleave-labels (i ∷ is) p =
      interleave-labels is (pick i p.threads p.state) ∙ pick-labels i p.threads p.state
