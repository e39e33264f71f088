-- ===== src/Concurrent/Ingest.antt =====
-- `ingest_candles` and the fan-outs among other tasks.
use cryptovira.Prelude.{ℕ, String, ◌≡◌, sym, ◌∙◌, true, List, map, any, any-map, All, All-imply}
use cryptovira.Exec.{gets, Result, ok, traverse, or_raise-eq-ok}
use cryptovira.Orm.{Stored}
use cryptovira.Market.Models.{Interval, Candle, same_bar, same_bar_refl}
use cryptovira.Market.Binance.{Kline}
use cryptovira.Market.Tasks.{in_columns}
use cryptovira.Market.Tasks.Ingest.{present_before}
use cryptovira.World.{Platform, World, Message}
use cryptovira.World.Matches.{contents}
use cryptovira.World.Queries.{bulk_create-present}
use cryptovira.Concurrent.{◌>>=◌}
use cryptovira.Concurrent.Growth.{Grows-refl}
use cryptovira.Concurrent.Statements.{candles_kept}
use cryptovira.Concurrent.Programs.{publish_each, ingest}
use cryptovira.Concurrent.Done.{Ingested, Asked}
use cryptovira.Concurrent.Assess.{IsSafe}
use cryptovira.Concurrent.Deliver.{publish_each-IsSafe}

module _ (pf : Platform) (V : World pf → Type 0) where
  -- Every new candle is in the table afterwards, or one for the same bar.
  stored_candles :
      (new rows : List (Candle pf.python))
      → traverse (in_columns pf) new ≡ ok rows
      → (w : World pf)
      → All
          (λ c.
            any (λ s. same_bar c s.row) (pf.orm.rows (pf.orm.bulk_create rows w.candles)) ≡ true)
          new
  stored_candles new rows fits w =
      let after = pf.orm.rows (pf.orm.bulk_create rows w.candles) in
      All-imply _ _
        (λ c is. sym (any-map (λ (s : Stored (Candle pf.python)). s.row) (same_bar c) after) ∙ is)
        new
        (present_before pf new rows (contents after) fits
          (bulk_create-present pf.orm same_bar_refl rows w.candles))

  pub ingest-IsSafe :
      (source : String → Interval → Result (List (Kline pf.python))) (now : ℕ)
      (symbol interval : String) (w : World pf)
      → IsSafe pf V
          (Ingested pf V source now symbol interval)
          (ingest pf source now symbol interval)
          w
  unfolding ingest
  ingest-IsSafe source now symbol interval w = λ a sound ga seen. (
    sound,
    Grows-refl pf a,
    λ currency found. λ b sound gb _. (
      sound,
      Grows-refl pf b,
      λ known valid. λ c sound gc _. (
        sound,
        Grows-refl pf c,
        λ klines answered. λ d sound gd _. (
          sound,
          Grows-refl pf d,
          λ rows fits. λ e sound ge _.
              let (sound', grown) = candles_kept pf rows e sound in
              (
                sound',
                grown,
                λ _ _. record {
                  earlier = a;
                  seen = seen;
                  currency = currency;
                  found = found;
                  known = known;
                  klines = klines;
                  valid = or_raise-eq-ok _ _ valid;
                  answered = answered;
                  kept = stored_candles _ rows fits e;
                },
              ),
        ),
      ),
    ),
  )

  module _ {A : Type 0} (rows : World pf → List A) (message : A → Message) where
    pub ask-IsSafe :
        (w : World pf)
        → IsSafe pf V
            (Asked pf V (λ u. map message (rows u)))
            (do l ← gets rows; publish_each pf (map message l))
            w
    ask-IsSafe w = λ u sound g seen. (
      sound,
      Grows-refl pf u,
      λ l read. publish_each-IsSafe pf V (Asked pf V (λ u. map message (rows u))) _ u (λ v h sent.
          let at : rows u ≡ l = cc read in
          record { earlier = u; seen = seen; since = h; published = rw at sent }),
    )
