-- ===== src/Deletion.antt =====
-- The deletion of rows on the admin site or by hand: the `on_delete` of the foreign keys in the models
-- says what goes with a row, and what a row is kept for.
pub mod Cascade
use cryptovira.Prelude.{
  ℕ, ◌≡◌, Bool, true, false, not, ◌&&◌, ◌||◌, List, [], ◌∷◌, select, any, All, ◌==◌,
}
use cryptovira.Orm.{Stored}
use cryptovira.Market.Models.{Currency, Candle}
use cryptovira.Strategy.Models.{Strategy, StrategyEvaluation}
use cryptovira.Signals.Models.{Signal, NotificationRecipient, NotificationDelivery}
use cryptovira.Backtesting.Models.{Backtest}
use cryptovira.World.{Platform, World}
use cryptovira.World.Queries.{has_id}

-- the rows that stay
abbrev pub kept : {A : Type 0} → (A → Bool) → List A → List A
kept gone l = select (λ x. not (gone x)) l

-- A row with that primary key goes.
abbrev pub gone_at : {Row : Type 0} → (Stored Row → Bool) → List (Stored Row) → ℕ → Bool
gone_at gone targets i = any (λ t. gone t && t.id == i) targets

module _ (pf : Platform) where
  -- the rows that were asked to be deleted, of any tables; users by their primary keys
  pub record Chosen : Type 0 where
    pub user : ℕ → Bool
    pub currency : Stored Currency → Bool
    pub candle : Stored (Candle pf.python) → Bool
    pub strategy : Stored Strategy → Bool
    pub evaluation : Stored StrategyEvaluation → Bool
    pub signal : Stored Signal → Bool
    pub recipient : Stored NotificationRecipient → Bool
    pub delivery : Stored NotificationDelivery → Bool
    pub backtest : Stored (Backtest pf.python) → Bool

  module _ (c : Chosen) where
    -- `on_delete=models.CASCADE`
    abbrev pub strategy_gone : Stored Strategy → Bool
    strategy_gone s = c.strategy s || c.user s.row.user

    abbrev pub recipient_gone : Stored NotificationRecipient → Bool
    recipient_gone r = c.recipient r || c.user r.row.user

    module _ (w : World pf) where
      abbrev pub evaluation_gone : Stored StrategyEvaluation → Bool
      evaluation_gone e =
          c.evaluation e || gone_at strategy_gone (pf.orm.rows w.strategies) e.row.strategy

      abbrev pub backtest_gone : Stored (Backtest pf.python) → Bool
      backtest_gone b =
          c.backtest b || gone_at strategy_gone (pf.orm.rows w.strategies) b.row.strategy

      abbrev pub signal_gone : Stored Signal → Bool
      signal_gone s =
          c.signal s || gone_at evaluation_gone (pf.orm.rows w.evaluations) s.row.evaluation

      abbrev pub delivery_gone : Stored NotificationDelivery → Bool
      delivery_gone d =
          c.delivery d
          || (gone_at signal_gone (pf.orm.rows w.signals) d.row.signal
              || gone_at recipient_gone (pf.orm.rows w.recipients) d.row.recipient)

      -- `on_delete=models.PROTECT`: a candle or a strategy refers to a currency that was chosen.
      abbrev pub is_protected : Bool
      is_protected =
          any (λ x. gone_at c.currency (pf.orm.rows w.currencies) x.row.currency)
            (pf.orm.rows w.candles)
          || any (λ s. gone_at c.currency (pf.orm.rows w.currencies) s.row.currency)
              (pf.orm.rows w.strategies)

  -- The chosen rows were deleted, with those that go with them, and nothing else has changed. A
  -- deletion of a protected row raises, and changes nothing.
  pub record Deleted (c : Chosen) (w w' : World pf) : Type 0 where
    pub allowed : is_protected c w ≡ false
    pub currencies : pf.orm.rows w'.currencies ≡ kept c.currency (pf.orm.rows w.currencies)
    pub candles : pf.orm.rows w'.candles ≡ kept c.candle (pf.orm.rows w.candles)
    pub strategies : pf.orm.rows w'.strategies ≡ kept (strategy_gone c) (pf.orm.rows w.strategies)
    pub evaluations :
        pf.orm.rows w'.evaluations ≡ kept (evaluation_gone c w) (pf.orm.rows w.evaluations)
    pub signals : pf.orm.rows w'.signals ≡ kept (signal_gone c w) (pf.orm.rows w.signals)
    pub recipients : pf.orm.rows w'.recipients ≡ kept (recipient_gone c) (pf.orm.rows w.recipients)
    pub deliveries : pf.orm.rows w'.deliveries ≡ kept (delivery_gone c w) (pf.orm.rows w.deliveries)
    pub backtests : pf.orm.rows w'.backtests ≡ kept (backtest_gone c w) (pf.orm.rows w.backtests)
    pub published : w'.published ≡ w.published

  -- the users that are left, of those there were
  abbrev pub users_left : Chosen → (ℕ → Bool) → ℕ → Bool
  users_left c users i = users i && not (c.user i)

  -- Every foreign key has its row. The users' table is given by its primary keys.
  pub record Linked (users : ℕ → Bool) (w : World pf) : Type 0 where
    pub owners : All (λ x. users x.row.user ≡ true) (pf.orm.rows w.strategies)
    pub addressees : All (λ x. users x.row.user ≡ true) (pf.orm.rows w.recipients)
    pub candles :
        All
          (λ x. any (has_id x.row.currency) (pf.orm.rows w.currencies) ≡ true)
          (pf.orm.rows w.candles)
    pub strategies :
        All
          (λ x. any (has_id x.row.currency) (pf.orm.rows w.currencies) ≡ true)
          (pf.orm.rows w.strategies)
    pub evaluations :
        All
          (λ x. any (has_id x.row.strategy) (pf.orm.rows w.strategies) ≡ true)
          (pf.orm.rows w.evaluations)
    pub backtests :
        All
          (λ x. any (has_id x.row.strategy) (pf.orm.rows w.strategies) ≡ true)
          (pf.orm.rows w.backtests)
    pub signals :
        All
          (λ x. any (has_id x.row.evaluation) (pf.orm.rows w.evaluations) ≡ true)
          (pf.orm.rows w.signals)
    pub delivered_signals :
        All
          (λ x. any (has_id x.row.signal) (pf.orm.rows w.signals) ≡ true)
          (pf.orm.rows w.deliveries)
    pub delivered_recipients :
        All
          (λ x. any (has_id x.row.recipient) (pf.orm.rows w.recipients) ≡ true)
          (pf.orm.rows w.deliveries)
