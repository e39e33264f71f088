-- ===== src/Concurrent/Safe.antt =====
-- Programs that keep an invariant whatever runs between their statements.
use cryptovira.Prelude.{ℕ, zero, suc, ◌≡◌, refl, List, [], ◌∷◌, take, All}
use cryptovira.Exec.{Result, ok, err}
use cryptovira.Concurrent.{Code, stop, ask, resume, advance, Pool, pick, interleave, WhenDone}

-- `I` holds of every state, and `G` between a state and any later one. `V` holds of the states that
-- the run passes through, in which statements are run. `Done` holds when a program
-- has ended without an exception, and from then on.
module _ {S : Type 0} (I : S → Type 0) (G : S → S → Type 0) where
  -- what a statement keeps
  abbrev pub Kept : S → S → Type 0
  Kept s s' = I s' × G s s'

module _ {S A : Type 0} (I : S → Type 0) (G : S → S → Type 0) (V : S → Type 0) where
  -- Each statement of the program keeps both, wherever other programs that keep both have led, and
  -- so does what is left of it.
  abbrev pub Safe : (S → Type 0) → Code S A → S → Type 0
  Safe Done (stop (ok a)) s = Done s
  Safe Done (stop (err e)) s = Unit
  Safe Done (ask {B} m k) s =
      (s' : S)
      → I s'
      → G s s'
      → V s'
      → I (m s').1 × G s' (m s').1 × ((b : B) → (m s').0 ≡ ok b → Safe Done (k b) (m s').1)

  module _ (G-refl : (s : S) → G s s) (G-trans : (s t u : S) → G s t → G t u → G s u) where
    -- A statement that writes nothing.
    pub Safe-read :
        {B : Type 0} (Done : S → Type 0) (f : S → Result B) (k : B → Code S A) (s : S)
        → ((s' : S) → I s' → G s s' → V s' → (b : B) → f s' ≡ ok b → Safe Done (k b) s')
        → Safe Done (ask (λ u. (f u, u)) k) s
    Safe-read Done f k s rest s' i g v = (i, G-refl s', rest s' i g v)

    -- A statement that writes and returns nothing.
    pub Safe-write :
        (Done : S → Type 0) (f : S → S) (k : Code S A) (s : S)
        → ((s' : S) → I s' → G s s' → V s' → Kept I G s' (f s') × Safe Done k (f s'))
        → Safe Done (ask (λ u. (ok tt, f u)) (λ (_ : Unit {0}). k)) s
    Safe-write Done f k s rest s' i g v =
        let (kept, later) = rest s' i g v in (kept.0, kept.1, (λ _ _. later))

    module _ (Done : S → Type 0) (lasts : (s s' : S) → G s s' → Done s → Done s') where
      -- A program stays safe while others run.
      pub Safe-later : (c : Code S A) (s s' : S) → G s s' → Safe Done c s → Safe Done c s'
      Safe-later (stop (ok a)) s s' g h = lasts s s' g h
      Safe-later (stop (err e)) s s' g h = tt
      Safe-later (ask m k) s s' g h = λ u i g' v. h u i (G-trans s s' u g g') v

      -- A statement that writes nothing, if what follows is safe whatever it returns.
      pub Safe-look :
          {B : Type 0} (f : S → Result B) (k : B → Code S A) (s : S)
          → ((b : B) → Safe Done (k b) s)
          → Safe Done (ask (λ u. (f u, u)) k) s
      Safe-look f k s rest s' i g v = (i, G-refl s', λ b _. Safe-later (k b) s s' g (rest b))

      resume-Safe :
          {B : Type 0} (out : Result B × S) (k : B → Code S A)
          → ((b : B) → out.0 ≡ ok b → Safe Done (k b) out.1)
          → Safe Done (resume out k).0 (resume out k).1
      unfolding resume
      resume-Safe (ok b, s) k h = h b refl
      resume-Safe (err e, s) k h = tt

      resume_state : {B : Type 0} (out : Result B × S) (k : B → Code S A) → (resume out k).1 ≡ out.1
      unfolding resume
      resume_state (ok b, s) k = refl
      resume_state (err e, s) k = refl

      advance-Safe :
          (c : Code S A) (s : S)
          → I s
          → V s
          → Safe Done c s
          → Kept I G s (advance c s).1 × Safe Done (advance c s).0 (advance c s).1
      unfolding advance
      advance-Safe (stop r) s i v h = ((i, G-refl s), h)
      advance-Safe (ask m k) s i v h =
          let (i', g, rest) = h s i (G-refl s) v in
          (rw (resume_state (m s) k) (i', g), resume-Safe (m s) k rest)

    module _ {L : Type 0} (Done : L → S → Type 0)
        (lasts : (l : L) (s s' : S) → G s s' → Done l s → Done l s') where
      abbrev pub AllSafe : List (L × Code S A) → S → Type 0
      AllSafe [] s = Unit
      AllSafe ((l, c) ∷ ts) s = Safe (Done l) c s × AllSafe ts s

      AllSafe-later : (ts : List (L × Code S A)) (s s' : S) → G s s' → AllSafe ts s → AllSafe ts s'
      AllSafe-later [] s s' g h = tt
      AllSafe-later ((l, c) ∷ ts) s s' g h =
          (Safe-later (Done l) (lasts l) c s s' g h.0, AllSafe-later ts s s' g h.1)

      pick-Safe :
          (i : ℕ) (ts : List (L × Code S A)) (s : S)
          → I s
          → V s
          → AllSafe ts s
          → Kept I G s (pick i ts s).state × AllSafe (pick i ts s).threads (pick i ts s).state
      unfolding pick
      pick-Safe i [] s inv v h = ((inv, G-refl s), tt)
      pick-Safe zero ((l, c) ∷ ts) s inv v h =
          let (kept, now) = advance-Safe (Done l) (lasts l) c s inv v h.0 in
          (kept, (now, AllSafe-later ts s (advance c s).1 kept.1 h.1))
      pick-Safe (suc i) ((l, c) ∷ ts) s inv v h =
          let (kept, rest) = pick-Safe i ts s inv v h.1 in
          (kept, (Safe-later (Done l) (lasts l) c s (pick i ts s).state kept.1 h.0, rest))

      -- `V` holds of each state in which the schedule runs a statement.
      abbrev pub Passes : List ℕ → Pool L S A → Type 0
      Passes [] p = Unit
      Passes (i ∷ is) p = V p.state × Passes is (pick i p.threads p.state)

      -- The states after the first statements of the schedule are those.
      pub passed :
          (is : List ℕ) (p : Pool L S A)
          → ((k : ℕ) → V (interleave (take k is) p).state)
          → Passes is p
      unfolding interleave
      passed [] p h = tt
      passed (i ∷ is) p h = (h 0, passed is (pick i p.threads p.state) (λ k. h (suc k)))

      -- However the statements of safe programs interleave, the invariant holds, and every program
      -- that has ended without an exception has done its work.
      pub interleave-Safe :
          (is : List ℕ) (p : Pool L S A)
          → I p.state
          → Passes is p
          → AllSafe p.threads p.state
          → Kept I G p.state (interleave is p).state
            × AllSafe (interleave is p).threads (interleave is p).state
      unfolding interleave
      interleave-Safe [] p inv v h = ((inv, G-refl p.state), h)
      interleave-Safe (i ∷ is) p inv v h =
          let next = pick i p.threads p.state in
          let (kept, now) = pick-Safe i p.threads p.state inv v.0 h in
          let (kept', end) = interleave-Safe is next kept.0 v.1 now in
          ((kept'.0, G-trans p.state next.state (interleave is next).state kept.1 kept'.1), end)

      pub AllSafe-WhenDone :
          (ts : List (L × Code S A)) (s : S) → AllSafe ts s → All (WhenDone (λ l. Done l s)) ts
      AllSafe-WhenDone [] s h = tt
      AllSafe-WhenDone ((l, stop (ok a)) ∷ ts) s h = (h.0, AllSafe-WhenDone ts s h.1)
      AllSafe-WhenDone ((l, stop (err e)) ∷ ts) s h = (tt, AllSafe-WhenDone ts s h.1)
      AllSafe-WhenDone ((l, ask m k) ∷ ts) s h = (tt, AllSafe-WhenDone ts s h.1)
