-- ===== src/Admin.antt =====
-- The admin.py files of accounts, market, strategy, signals and backtesting: which pages of the admin site let
-- a user write. The site itself, which asks the pages, and what Django grants a user are parameters.
pub mod Audit
use cryptovira.Prelude.{
  ℕ, ◌≡◌, Bool, true, false, Option, none, some, List, [], ◌∷◌, leb, if◌then◌else◌,
}
use cryptovira.Exec.{Result}
use cryptovira.Orm.{Stored}
use cryptovira.Python.{Python}
use cryptovira.Market.Models.{Currency, Candle, same_symbol, same_bar}
use cryptovira.Strategy.Models.{Strategy, StrategyEvaluation, same_candle}
use cryptovira.Strategy.Tasks.{save_strategy, change_strategy}
use cryptovira.Signals.Models.{
  Signal, NotificationRecipient, NotificationDelivery, same_evaluation, same_channel, same_delivery,
}
use cryptovira.Backtesting.Models.{Backtest, BacktestStatus, no_constraint}
use cryptovira.World.{Platform, World}

pub data Deed : Type 0 where
  add change delete : Deed

-- a deed that is no deletion; where Django may grant one, Deletion says what it does
pub data Edit : Type 0 where
  adding changing : Edit

abbrev deed_of : Edit → Deed
deed_of adding = add
deed_of changing = change

-- the models that have a page
pub data Page : Type 0 where
  users currencies candles strategies evaluations signals recipients deliveries backtests : Page

-- `CandleAdmin.has_..._permission`
unfoldable pub candle_permission : Deed → Bool
candle_permission add = false
candle_permission change = false
candle_permission delete = false

-- `StrategyEvaluationAdmin.has_..._permission`
unfoldable pub evaluation_permission : Deed → Bool
evaluation_permission add = false
evaluation_permission change = false
evaluation_permission delete = false

-- `SignalAdmin.has_..._permission`
unfoldable pub signal_permission : Deed → Bool
signal_permission add = false
signal_permission change = false
signal_permission delete = false

-- `NotificationDeliveryAdmin.has_..._permission`
unfoldable pub delivery_permission : Deed → Bool
delivery_permission add = false
delivery_permission change = false
delivery_permission delete = false

-- A page without permissions of its own asks Django.
unfoldable pub has_permission : (Deed → Page → Bool) → Deed → Page → Bool
unfolding candle_permission evaluation_permission signal_permission delivery_permission
has_permission granted deed candles = candle_permission deed
has_permission granted deed evaluations = evaluation_permission deed
has_permission granted deed signals = signal_permission deed
has_permission granted deed deliveries = delivery_permission deed
has_permission granted deed page = granted deed page

-- What a form of `BacktestAdmin` asks for: the columns that are not in `readonly_fields`.
pub record BacktestForm : Type 0 where
  pub strategy : ℕ
  pub start_time : ℕ
  pub end_time : ℕ
  pub horizon_candles : ℕ

-- `MinValueValidator(1)` of `horizon_candles`, which the form runs
abbrev pub is_accepted : BacktestForm → Bool
is_accepted f = leb 1 f.horizon_candles

module _ {p : Python} where
  -- a row as the form makes it, with the other columns' defaults
  abbrev pub new_backtest : BacktestForm → Backtest p
  new_backtest f = record {
    strategy = f.strategy;
    start_time = f.start_time;
    end_time = f.end_time;
    horizon_candles = f.horizon_candles;
    status = BacktestStatus.pending;
    progress = 0;
    error = "";
    trigger_count = none;
    scored_trigger_count = none;
    win_count = none;
    win_rate = none;
    total_forward_return = none;
  }

  -- what the form writes of a row that is there
  abbrev pub authored : BacktestForm → Backtest p → Backtest p
  authored f b = record b {
    strategy = f.strategy;
    start_time = f.start_time;
    end_time = f.end_time;
    horizon_candles = f.horizon_candles;
  }

module _ (pf : Platform) where
  abbrev pub with_backtest :
      Option (Stored (Backtest pf.python) × pf.orm.Table (Backtest pf.python) no_constraint)
      → World pf
      → World pf
  with_backtest none w = w
  with_backtest (some (_, t)) w = record w { backtests = t }

  -- A form that is posted to a page, with the table that saving it leaves. A strategy is saved by
  -- `Strategy.save`.
  pub data Form : Type 0 where
    -- a user's form: none of the tables of World is the users'
    write_user : Edit → Form
    write_currencies : Edit → pf.orm.Table Currency same_symbol → Form
    write_candles : Deed → pf.orm.Table (Candle pf.python) same_bar → Form
    write_evaluations : Deed → pf.orm.Table StrategyEvaluation same_candle → Form
    write_signals : Deed → pf.orm.Table Signal same_evaluation → Form
    write_recipients : Edit → pf.orm.Table NotificationRecipient same_channel → Form
    write_deliveries : Deed → pf.orm.Table NotificationDelivery same_delivery → Form
    add_backtest : BacktestForm → Form
    change_backtest : ℕ → BacktestForm → Form
    add_strategy : (Strategy → Result (Unit {0})) → Strategy → Form
    alter_strategy : (Strategy → Result (Unit {0})) → ℕ → Strategy → Form

  abbrev pub deed : Form → Deed
  deed (write_user e) = deed_of e
  deed (write_currencies e t) = deed_of e
  deed (write_candles d t) = d
  deed (write_evaluations d t) = d
  deed (write_signals d t) = d
  deed (write_recipients e t) = deed_of e
  deed (write_deliveries d t) = d
  deed (add_backtest b) = add
  deed (change_backtest i b) = change
  deed (add_strategy clean s) = add
  deed (alter_strategy clean i s) = change

  abbrev pub page : Form → Page
  page (write_user e) = users
  page (write_currencies e t) = currencies
  page (write_candles d t) = candles
  page (write_evaluations d t) = evaluations
  page (write_signals d t) = signals
  page (write_recipients e t) = recipients
  page (write_deliveries d t) = deliveries
  page (add_backtest b) = backtests
  page (change_backtest i b) = backtests
  page (add_strategy clean s) = strategies
  page (alter_strategy clean i s) = strategies

  -- what the model's form saves
  abbrev pub saved : Form → World pf → World pf
  saved (write_user e) w = w
  saved (write_currencies e t) w = record w { currencies = t }
  saved (write_candles d t) w = record w { candles = t }
  saved (write_evaluations d t) w = record w { evaluations = t }
  saved (write_signals d t) w = record w { signals = t }
  saved (write_recipients e t) w = record w { recipients = t }
  saved (write_deliveries d t) w = record w { deliveries = t }
  saved (add_backtest b) w =
      if is_accepted b then with_backtest (pf.orm.create (new_backtest b) w.backtests) w else w
  saved (change_backtest i b) w =
      if is_accepted b then record w { backtests = pf.orm.save i (authored b) w.backtests } else w
  saved (add_strategy clean s) w = (save_strategy pf clean s w).1
  saved (alter_strategy clean i s) w = (change_strategy pf clean i s w).1

  -- Django's admin site, as documented: it saves a form exactly if the page has the permission.
  pub record AdminSite : Type 0 where
    pub granted : Deed → Page → Bool
    pub post : Form → World pf → World pf
    pub denied :
        (f : Form) (w : World pf) → has_permission granted (deed f) (page f) ≡ false → post f w ≡ w
    pub permitted :
        (f : Form) (w : World pf)
        → has_permission granted (deed f) (page f) ≡ true
        → post f w ≡ saved f w

  -- forms, one after another
  abbrev pub post_all : AdminSite → List Form → World pf → World pf
  post_all site [] w = w
  post_all site (f ∷ fs) w = post_all site fs (site.post f w)
