-- ===== src/Concurrent/Serial.antt =====
-- Programs that run one after another are one of the interleavings.
use cryptovira.Prelude.{ℕ, suc, ◌≡◌, refl, ap, ◌∙◌, List, [], ◌∷◌, ◌++◌, map, All}
use cryptovira.Exec.{Result, ok, err, continue}
use cryptovira.Concurrent.{Code, stop, ask, run, resume, advance, Pool, pick, interleave, HasEnded}

module _ {L S A : Type 0} where
  -- the state after each program has run alone, in that order
  unfoldable pub one_by_one : List (L × Code S A) → S → S
  one_by_one [] s = s
  one_by_one ((l, c) ∷ ts) s = one_by_one ts (run c s).1

  interleave-append :
      (is js : List ℕ) (p : Pool L S A) → interleave (is ++ js) p ≡ interleave js (interleave is p)
  unfolding interleave
  interleave-append [] js p = refl
  interleave-append (i ∷ is) js p = interleave-append is js (pick i p.threads p.state)

  -- A schedule for the programs behind the first.
  interleave-behind :
      (is : List ℕ) (t : L × Code S A) (p : Pool L S A)
      → interleave (map suc is) (record { state = p.state; threads = t ∷ p.threads })
        ≡ record { state = (interleave is p).state; threads = t ∷ (interleave is p).threads }
  unfolding interleave pick
  interleave-behind [] t p = refl
  interleave-behind (i ∷ is) t p = interleave-behind is t (pick i p.threads p.state)

  -- a schedule that ends the first program
  Ends : L → Code S A → List (L × Code S A) → S → Type 1
  Ends l c ts s =
      (is : List ℕ) × (interleave is (record { state = s; threads = (l, c) ∷ ts })
        ≡ record { state = (run c s).1; threads = (l, stop (run c s).0) ∷ ts })

  -- The first program can run to its end.
  run_first : (l : L) (c : Code S A) (ts : List (L × Code S A)) (s : S) → Ends l c ts s
  unfolding Ends run interleave pick advance resume
  run_first l (stop r) ts s = ([], refl)
  run_first l (ask {B} m k) ts s =
      let (is, at) = after (m s) (λ b s'. run_first l (k b) ts s') in (0 ∷ is, at)
    where
      after :
          (out : Result B × S)
          → ((b : B) (s' : S) → Ends l (k b) ts s')
          → (is : List ℕ) × (interleave is
                (record { state = (resume out k).1; threads = (l, (resume out k).0) ∷ ts })
              ≡ record {
                state = (continue out (λ b. run (k b))).1;
                threads = (l, stop (continue out (λ b. run (k b))).0) ∷ ts;
              })
      after (ok b, s') below = below b s'
      after (err e, s') below = ([], refl)

  -- There is an interleaving in which every program ends, and it leaves what they leave one after
  -- another.
  pub serial :
      (ts : List (L × Code S A)) (s : S)
      → (is : List ℕ) × ((interleave is (record { state = s; threads = ts })).state
          ≡ one_by_one ts s)
        × All HasEnded (interleave is (record { state = s; threads = ts })).threads
  unfolding one_by_one interleave Ends
  serial [] s = ([], refl, tt)
  serial ((l, c) ∷ ts) s =
      let (is, at) = run_first l c ts s in
      let (js, left, ended) = serial ts (run c s).1 in
      let whole =
        interleave-append is (map suc js) (record { state = s; threads = (l, c) ∷ ts })
        ∙ ap (interleave (map suc js)) at
        ∙ interleave-behind js (l, stop (run c s).0)
            (record { state = (run c s).1; threads = ts }) in
      (is ++ map suc js, rw whole left, rw whole (tt, ended))
