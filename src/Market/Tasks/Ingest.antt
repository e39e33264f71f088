-- ===== src/Market/Tasks/Ingest.antt =====
-- What ingestion promises: one candle for each bar, closed bars only, and redelivery for nothing.
use cryptovira.Prelude.{
  ℕ, ◌<◌, String, ◌≡◌, refl, sym, subst, ◌⊎◌, inl, inr, true, some, List, [], ◌∷◌, ◌++◌, append-nil,
  select, any, All, All-select, All-map, ltb, str_eq, Option-cases, arith,
}
use cryptovira.Exec.{
  Result, ok, err, Error, value_error, Result-cases, ok_same, and_then-eq-ok, traverse,
  traverse_back, traverse_forth,
}
use cryptovira.Orm.{Stored}
use cryptovira.Orm.Merge.{IsUnique}
use cryptovira.Market.Models.{Interval, of_value, Currency, Candle, same_bar, same_bar_refl}
use cryptovira.Market.Binance.{Kline}
use cryptovira.Market.Tasks.{closed_candles, column, in_columns, to_candle, ingest_candles}
use cryptovira.World.{Platform, World}
use cryptovira.World.Matches.{contents}
use cryptovira.World.Queries.{
  get, bulk_create-append, bulk_create-IsUnique, bulk_create-present, bulk_create-again,
}

module _ (pf : Platform) where
  -- Writing the decimals changes neither the bar that a candle is for nor when it closed.
  in_columns_same :
      (b b' : Candle pf.python)
      → in_columns pf b ≡ ok b'
      → ((x : Candle pf.python) → same_bar b x ≡ same_bar b' x) × (b'.close_time ≡ b.close_time)
  unfolding in_columns
  in_columns_same b b' h =
      let (o, _, h1) = and_then-eq-ok (column pf b.open_) _ h in
      let (o, _, h2) = and_then-eq-ok (column pf b.high) _ h1 in
      let (o, _, h3) = and_then-eq-ok (column pf b.low) _ h2 in
      let (o, _, h4) = and_then-eq-ok (column pf b.close) _ h3 in
      let (o, _, h5) = and_then-eq-ok (column pf b.volume) _ h4 in
      subst
        (λ c.
          ((x : Candle pf.python) → same_bar b x ≡ same_bar c x) × (c.close_time ≡ b.close_time))
        (ok_same h5) ((λ x. refl), refl)

  any_same :
      (b b' : Candle pf.python) (l : List (Candle pf.python))
      → ((x : Candle pf.python) → same_bar b x ≡ same_bar b' x)
      → any (same_bar b) l ≡ any (same_bar b') l
  any_same b b' [] same = refl
  any_same b b' (x ∷ l) same = rw (same x, any_same b b' l same) refl

  -- Where every row is there, every candle that was written as one of them is.
  pub present_before :
      (new rows l : List (Candle pf.python))
      → traverse (in_columns pf) new ≡ ok rows
      → All (λ b. any (same_bar b) l ≡ true) rows
      → All (λ b. any (same_bar b) l ≡ true) new
  present_before new rows l fits h =
      traverse_back (in_columns pf) (λ b. any (same_bar b) l ≡ true)
        (λ b. any (same_bar b) l ≡ true)
        (λ b b' e h. rw (any_same b b' l (in_columns_same b b' e).0) h) new rows fits h

module _ (pf : Platform) (source : String → Interval → Result (List (Kline pf.python)))
    (now : ℕ) where
  closed_candles-All :
      (c : ℕ) (klines : List (Kline pf.python))
      → All (λ b. b.close_time < now) (closed_candles pf c now klines)
  unfolding closed_candles
  closed_candles-All c klines =
      All-map (to_candle pf c) (λ k. ltb k.close_time now ≡ true) (λ b. b.close_time < now)
        (λ k h. ground arith) (select (λ k. ltb k.close_time now) klines)
        (All-select (λ k. ltb k.close_time now) klines)

  rows-All :
      (c : ℕ) (klines : List (Kline pf.python)) (rows : List (Candle pf.python))
      → traverse (in_columns pf) (closed_candles pf c now klines) ≡ ok rows
      → All (λ b. b.close_time < now) rows
  rows-All c klines rows fits =
      traverse_forth (in_columns pf) (λ b. b.close_time < now) (λ b. b.close_time < now)
        (λ b b' e h. rw ((in_columns_same pf b b' e).1) h) _ rows fits (closed_candles-All c klines)

  -- the candles of a world, without their primary keys
  abbrev pub bars : World pf → List (Candle pf.python)
  bars w = contents (pf.orm.rows w.candles)

  abbrev pub ran : World pf → List (Candle pf.python) → World pf
  ran w new = record w { candles = pf.orm.bulk_create new w.candles }

  module _ (symbol interval : String) (w : World pf) where
    -- What the currency's row, the interval, the source's answer and the rows that are written are
    -- when nothing raises.
    pub record Answered : Type 0 where
      pub currency : Stored Currency
      pub known : Interval
      pub klines : List (Kline pf.python)
      pub found : get pf.orm (λ s. str_eq s.row.symbol symbol) w.currencies ≡ ok currency
      pub is_known : of_value interval ≡ some known
      pub answer : source symbol known ≡ ok klines
      pub rows : List (Candle pf.python)
      pub fits : traverse (in_columns pf) (closed_candles pf currency.id now klines) ≡ ok rows

    abbrev pub new_bars : Answered → List (Candle pf.python)
    new_bars a = closed_candles pf a.currency.id now a.klines

  -- Then a run writes the closed bars of what the source returned.
  pub ingest_candles-Answered :
      (symbol interval : String) (w : World pf) (a : Answered symbol interval w)
      → ingest_candles pf source now symbol interval w ≡ (ok tt, ran w a.rows)
  unfolding ingest_candles
  ingest_candles-Answered symbol interval w a = rw (a.found, a.is_known, a.answer, a.fits) refl

  -- Otherwise it raises, and changes nothing.
  pub ingest_candles_cases :
      (symbol interval : String) (w : World pf)
      → ((e : Error) × (ingest_candles pf source now symbol interval w ≡ (err e, w)))
        ⊎ Answered symbol interval w
  unfolding ingest_candles
  ingest_candles_cases symbol interval w =
      elim (Result-cases (get pf.orm (λ s. str_eq s.row.symbol symbol) w.currencies)) [
        | inr (e, raised) ↦ inl (e, rw raised refl)
        | inl (currency, found) ↦ elim (Option-cases (of_value interval)) [
          | inl unknown ↦ inl (value_error, rw (found, unknown) refl)
          | inr (known, is) ↦ elim (Result-cases (source symbol known)) [
            | inr (e, raised) ↦ inl (e, rw (found, is, raised) refl)
            | inl (klines, answer) ↦
                elim (Result-cases
                  (traverse (in_columns pf) (closed_candles pf currency.id now klines))) [
                    | inr (e, raised) ↦ inl (e, rw (found, is, answer, raised) refl)
                    | inl (rows, fits) ↦ inr (record {
                      currency = currency;
                      known = known;
                      klines = klines;
                      found = found;
                      is_known = is;
                      answer = answer;
                      rows = rows;
                      fits = fits;
                    })
                  ]
          ]
        ]
      ]

  module _ (symbol interval : String) (w : World pf) where
    -- A run of `ingest_candles`, whether or not it raises, keeps the unique constraint on
    -- candles.
    ingest_candles-IsUnique :
        IsUnique same_bar (bars w)
        → IsUnique same_bar (bars (ingest_candles pf source now symbol interval w).1)
    ingest_candles-IsUnique u = elim (ingest_candles_cases symbol interval w) [
      | inl (e, is) ↦ rw is u
      | inr a ↦
          rw (ingest_candles-Answered symbol interval w a)
            (bulk_create-IsUnique pf.orm _ w.candles u)
    ]

    -- A run of `ingest_candles`, whether or not it raises, only adds candles, and each that it
    -- adds had closed before the clock's time; the stored rows keep their places and primary
    -- keys.
    pub ingest_candles-append :
        (more : List (Stored (Candle pf.python))) × (pf.orm.rows
            (ingest_candles pf source now symbol interval w).1.candles
          ≡ pf.orm.rows w.candles ++ more)
        × All (λ b. b.close_time < now) (contents more)
    ingest_candles-append = elim (ingest_candles_cases symbol interval w) [
      | inl (e, is) ↦ rw is ([], sym (append-nil _), tt)
      | inr a ↦
          rw (ingest_candles-Answered symbol interval w a) (
            bulk_create-append pf.orm _ _ w.candles (rows-All a.currency.id a.klines a.rows a.fits))
    ]

    -- Where the currency is stored, the interval is known, the source answers and the decimals of
    -- its closed bars fit their columns, every bar of
    -- the answer that had closed has its candle in the table after a run, be it a new one or one
    -- stored earlier.
    pub ingest_candles-present :
        (a : Answered symbol interval w)
        → All
            (λ b. any (same_bar b) (bars (ingest_candles pf source now symbol interval w).1) ≡ true)
            (new_bars symbol interval w a)
    ingest_candles-present a = rw (ingest_candles-Answered symbol interval w a) (
        present_before pf _ a.rows _ a.fits
          (bulk_create-present pf.orm same_bar_refl a.rows w.candles))

    -- A second run of `ingest_candles` with the same answer of the source and the same clock
    -- leaves the candles as they are, their primary keys apart.
    pub ingest_candles_again :
        bars
          (ingest_candles pf source now symbol interval
            (ingest_candles pf source now symbol interval w).1).1
        ≡ bars (ingest_candles pf source now symbol interval w).1
    ingest_candles_again = elim (ingest_candles_cases symbol interval w) [
      | inl (e, is) ↦ rw (is, is) refl
      | inr a ↦
          rw
            (
              ingest_candles-Answered symbol interval w a,
              ingest_candles-Answered symbol interval (ran w a.rows) (record {
                currency = a.currency;
                known = a.known;
                klines = a.klines;
                found = a.found;
                is_known = a.is_known;
                answer = a.answer;
                rows = a.rows;
                fits = a.fits;
              }),
            )
            (bulk_create-again pf.orm same_bar_refl a.rows w.candles)
    ]
