-- ===== src/Concurrent/Assess.antt =====
-- `evaluate_strategy` among other tasks.
use mathlib.Core.List.{Memᴰ}
use mathlib.Core.List.Memᴰ
use cryptovira.Prelude.{
  ℕ, String, ◌≡◌, refl, subst, Bool, true, ◌⊎◌, inl, inr, none, some, List, [], ◌∷◌, any,
  Bool-cases, if◌then◌else◌, item_from_end, arith, ◌==◌, ◌&&◌,
}
use cryptovira.Exec.{ok, or_raise-eq-ok}
use cryptovira.Orm.{Stored}
use cryptovira.Strategy.Models.{Strategy, StrategyEvaluation}
use cryptovira.Strategy.Tasks.{of_candle, history}
use cryptovira.Signals.Models.{Signal}
use cryptovira.Signals.Services.{of_evaluation}
use cryptovira.Backtesting.Tasks.{Bar}
use cryptovira.World.{Platform, World, Message}
use cryptovira.World.Queries.{get-ok, get-Memᴰ, get-stored, has_id}
use cryptovira.System.Judging.{backs}
use cryptovira.System.Invariant.{Sound}
use cryptovira.Concurrent.{done}
use cryptovira.Concurrent.Safe.{Safe}
use cryptovira.Concurrent.Growth.{Grows, Grows-refl, Grows-trans, Continues-any, Memᴰ-later}
use cryptovira.Concurrent.Statements.{published_kept, audited_kept, signal_kept}
use cryptovira.Concurrent.Programs.{
  Program, try_create, announce, after_create, record_new, write_audit, assess_candles, assess,
}
use cryptovira.Concurrent.Done.{Announced, Recorded, Reading, Audited, Idle}

module _ {B : Type 0} (P : B → Type 0) where
  -- What holds of a result holds of anything it returns.
  pub ok-only : (a b : B) → ok a ≡ ok b → P a → P b
  ok-only a b e h = subst P (cc e) h

module _ (pf : Platform) (V : World pf → Type 0) where
  -- a safe program of the tasks
  abbrev pub IsSafe : (World pf → Type 0) → Program pf → World pf → Type 0
  IsSafe = Safe (Sound pf) (Grows pf) V

  -- The announcement of a stored signal.
  announce-IsSafe :
      (Done : World pf → Type 0) (evaluation : ℕ) (signal : Stored Signal) (w : World pf)
      → signal.row.evaluation ≡ evaluation
      → Memᴰ signal (pf.orm.rows w.signals)
      → ((v : World pf) → Grows pf w v → Announced pf evaluation v → Done v)
      → IsSafe Done (announce pf signal.id) w
  unfolding announce
  announce-IsSafe Done evaluation signal w of stored finish = λ u sound g _.
      let (sound', grown) =
        published_kept pf (Message.dispatch_notifications signal.id ∷ []) u sound in
      (
        sound',
        grown,
        λ _ _. finish _ (Grows-trans pf w u _ g grown) (record {
          signal = signal;
          of = of;
          kept = Memᴰ-later _ _ _ g.signals stored;
          published = Memᴰ.append_right u.published (Memᴰ.head refl);
        }),
      )

  -- `record_signal`, for a stored evaluation that triggered.
  module _ (Done : World pf → Type 0) (evaluation : ℕ) (w : World pf)
      (backed : any (λ e. e.id == evaluation && e.row.triggered) (pf.orm.rows w.evaluations) ≡ true)
      (finish : (v : World pf) → Grows pf w v → Announced pf evaluation v → Done v) where
    after_taken-IsSafe :
        (u : World pf) → Grows pf w u → IsSafe Done (after_create pf evaluation none) u
    unfolding after_create
    after_taken-IsSafe u g = λ v sound h _. (
      sound,
      Grows-refl pf v,
      λ s found.
          announce-IsSafe Done evaluation s v
            (let (is, _) = get-ok pf.orm (of_evaluation evaluation) v.signals s found in
              ground (arith, is))
            (get-Memᴰ pf.orm (of_evaluation evaluation) v.signals s found)
            (λ x k. finish x (Grows-trans pf w u x g (Grows-trans pf u v x h k))),
    )

    after_new-IsSafe :
        (u : World pf) (s : Stored Signal)
        → Grows pf w u
        → s.row.evaluation ≡ evaluation
        → Memᴰ s (pf.orm.rows u.signals)
        → IsSafe Done (after_create pf evaluation (some s)) u
    unfolding after_create
    after_new-IsSafe u s g of stored =
        announce-IsSafe Done evaluation s u of stored (λ x k. finish x (Grows-trans pf w u x g k))

    record_new-IsSafe : IsSafe Done (record_new pf evaluation) w
    unfolding record_new try_create
    record_new-IsSafe = λ u sound g _.
        elim (Bool-cases (any (of_evaluation evaluation) (pf.orm.rows u.signals))) [
          | inl taken ↦
              rw
                (
                  pf.orm.create_taken_law (record { evaluation = evaluation }) u.signals taken,
                  try_create,
                )
                (
                  sound,
                  Grows-refl pf u,
                  λ o e.
                      ok-only (λ o. IsSafe Done (after_create pf evaluation o) u) none o e
                        (after_taken-IsSafe u g),
                )
          | inr free ↦
              let (i, t, made, at) =
                pf.orm.create_free_law (record { evaluation = evaluation }) u.signals free in
              let new : Stored Signal = record {
                id = i;
                row = record { evaluation = evaluation };
              } in
              let v : World pf = record u { signals = t } in
              let (sound', grown) =
                signal_kept pf evaluation i u t at free
                  (Continues-any (backs new) _ _ g.evaluations backed) sound in
              rw (made, try_create)
                (
                  sound',
                  grown,
                  λ o e.
                      ok-only (λ o. IsSafe Done (after_create pf evaluation o) v) (some new) o e
                        (after_new-IsSafe v new (Grows-trans pf w u v g grown) refl
                          (rw at (Memᴰ.append_right (pf.orm.rows u.signals) (Memᴰ.head refl)))),
                )
        ]

  module _ (Done : World pf → Type 0) (strategy time : ℕ) (verdict : Bool × String)
      (start : World pf)
      (finish : (v : World pf) → Grows pf start v → Recorded pf strategy time v → Done v) where
    -- What follows the audit row once it is read back.
    judged-IsSafe :
        (e : Stored StrategyEvaluation) (w : World pf)
        → Grows pf start w
        → e.row.strategy ≡ strategy
        → e.row.candle_open_time ≡ time
        → Memᴰ e (pf.orm.rows w.evaluations)
        → (e.row.triggered ≡ true
            → any (λ x. x.id == e.id && x.row.triggered) (pf.orm.rows w.evaluations) ≡ true)
        → IsSafe Done (if e.row.triggered then record_new pf e.id else done tt) w
    judged-IsSafe e w s of at stored backed = elim (Bool-cases e.row.triggered) [
      | inr idle ↦ rw idle (
          finish w s (record {
            evaluation = e;
            of = of;
            at = at;
            kept = stored;
            fired = λ is. cc (is, idle);
          }))
      | inl fired ↦ rw fired (
          record_new-IsSafe Done e.id w (backed fired) (λ v g a.
            finish v (Grows-trans pf start w v s g) (record {
              evaluation = e;
              of = of;
              at = at;
              kept = Memᴰ-later _ _ _ g.evaluations stored;
              fired = λ _. a;
            })))
    ]

    write_audit-IsSafe : IsSafe Done (write_audit pf strategy time verdict) start
    unfolding write_audit
    write_audit-IsSafe = λ u sound g _.
        let (sound', grown) = audited_kept pf strategy time verdict u sound in
        (
          sound',
          grown,
          λ _ _. λ v sound h _. (
            sound,
            Grows-refl pf v,
            λ e found.
                judged-IsSafe e v (Grows-trans pf start _ v (Grows-trans pf start u _ g grown) h)
                  (let (is, _) = get-ok pf.orm (of_candle strategy time) v.evaluations e found in
                    ground (arith, is))
                  (let (is, _) = get-ok pf.orm (of_candle strategy time) v.evaluations e found in
                    ground (arith, is))
                  (get-Memᴰ pf.orm (of_candle strategy time) v.evaluations e found)
                  (λ fired.
                    get-stored pf.orm (of_candle strategy time) v.evaluations e
                      (λ x. x.id == e.id && x.row.triggered) found (ground (arith, fired))),
          ),
        )

  assess_candles-IsSafe :
      (Done : World pf → Type 0) (s : Stored Strategy) (candles : List (Bar pf)) (w : World pf)
      → (candles ≡ [] → Done w)
      → ((v : World pf) (latest : Bar pf)
          → Grows pf w v
          → item_from_end candles 1 ≡ some latest
          → Recorded pf s.id latest.row.open_time v
          → Done v)
      → IsSafe Done (assess_candles pf s candles) w
  unfolding assess_candles
  assess_candles-IsSafe Done s [] w empty finish = empty refl
  assess_candles-IsSafe Done s (c ∷ cs) w empty finish = λ u sound g _. (
    sound,
    Grows-refl pf u,
    λ config _. λ v sound h _. (
      sound,
      Grows-refl pf v,
      λ verdict _. λ x sound k _. (
        sound,
        Grows-refl pf x,
        λ latest last. write_audit-IsSafe Done s.id latest.row.open_time verdict x (λ y l r.
            finish y latest
              (Grows-trans pf w x y (Grows-trans pf w u x g (Grows-trans pf u v x h k)) l)
              (or_raise-eq-ok _ _ last) r),
      ),
    ),
  )

  pub assess-IsSafe :
      (i : ℕ) (w : World pf) → IsSafe (λ v. Idle pf V i v ⊎ Audited pf V i v) (assess pf i) w
  unfolding assess
  assess-IsSafe i w = λ u sound g seen. (
    sound,
    Grows-refl pf u,
    λ s found. λ v sound h seen_later. (
      sound,
      Grows-refl pf v,
      λ candles read.
          let at : history pf s.row v ≡ candles = cc read in
          let (is, _) = get-ok pf.orm (has_id i) u.strategies s found in
          let reading : (x : World pf) → Grows pf v x → Reading pf V i x = λ x k. record {
            earlier = u;
            seen = seen;
            strategy = s;
            found = found;
            looked = v;
            seen_later = seen_later;
            followed = h;
            since = k;
          } in
          assess_candles-IsSafe (λ v. Idle pf V i v ⊎ Audited pf V i v) s candles v
            (λ empty.
              inl (record { reading = reading v (Grows-refl pf v); empty = cc (at, empty) }))
            (λ x latest k last r. inr (record {
              reading = reading x k;
              latest = latest;
              last = rw at last;
              recorded = subst (λ j. Recorded pf j latest.row.open_time x) (ground (arith, is)) r;
            })),
    ),
  )
