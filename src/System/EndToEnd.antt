-- ===== src/System/EndToEnd.antt =====
-- From an evaluation that triggers to the messages that the owner's recipients receive.
use cryptovira.Prelude.{
  ℕ, String, ◌≡◌, refl, sym, ◌∙◌, ap, subst, Bool, true, false, ◌&&◌, Option, some, List, [], ◌∷◌,
  ◌++◌, select, any, any_none, All, All-imply, All-pair, All-of_select, str_eq, eq_iff, ◌==◌,
  ==_refl, eq_of_==, Bool-cases, inl, inr, arith,
}
use cryptovira.Exec.{ok}
use cryptovira.Orm.{Stored}
use cryptovira.Market.Models.{Currency, Candle, same_bar}
use cryptovira.Strategy.Models.{Strategy, StrategyEvaluation}
use cryptovira.Strategy.Tasks.{of_candle, is_bar_of, evaluate_strategy}
use cryptovira.Strategy.Tasks.Evaluate.{Ready}
use cryptovira.Signals.Messages.{SignalMessageContext}
use cryptovira.Orm.Merge.{IsUnique}
use cryptovira.Signals.Models.{same_delivery, Signal, NotificationRecipient, Channel, channel_of}
use cryptovira.Signals.Services.{build_message_context}
use cryptovira.Signals.Channels.{Post}
use cryptovira.Signals.Channels
use cryptovira.Signals.Tasks.{is_recipient, dispatch_notifications}
use cryptovira.Signals.Tasks.Dispatch.{dispatch_notifications-published}
use cryptovira.World.{Platform, World, Message}
use cryptovira.World.Matches.{contents}
use cryptovira.World.Queries.{get, has_id, get-ok, get_unique}
use cryptovira.World.Keys.{get_self}
use cryptovira.System.Invariant.{Sound}
use cryptovira.System.Arrival.{Deliverable, deliver_all}
use cryptovira.System.FirstDispatch.{Received, first_dispatch-Received}
use cryptovira.System.NewSignal.{
  judged, left, changed, triggered, signal, signal_law, belongs, evaluation_found, strategy_stored,
  owned, none_yet, latest_law, same_time,
}

-- the query for the candle that `build_message_context` names
abbrev is_bar_at : (pf : Platform) → ℕ → String → ℕ → Stored (Candle pf.python) → Bool
is_bar_at pf currency interval time c =
    c.row.currency == currency && (str_eq c.row.interval interval && c.row.open_time == time)

same_bar_at :
    (pf : Platform) (currency : ℕ) (interval : String) (time : ℕ) (a b : Stored (Candle pf.python))
    → is_bar_at pf currency interval time a ≡ true
    → is_bar_at pf currency interval time b ≡ true
    → same_bar b.row a.row ≡ true
same_bar_at pf currency interval time a b h k =
    let same : b.row.interval ≡ a.row.interval =
      (eq_iff b.row.interval interval).0 (ground (arith, k))
      ∙ sym ((eq_iff a.row.interval interval).0 (ground (arith, h))) in
    let told : str_eq b.row.interval a.row.interval ≡ true =
      (eq_iff b.row.interval a.row.interval).1 same in
    ground (arith, told, h, k)

is_bar_of-at :
    (pf : Platform) (s : Strategy) (c : Stored (Candle pf.python))
    → is_bar_of pf s c ≡ true
    → is_bar_at pf s.currency s.interval c.row.open_time c ≡ true
is_bar_of-at pf s c h = ground (arith, h, ==_refl c.row.open_time)

-- A context can be written where the rows that it names are found.
context_found :
    (pf : Platform) (w : World pf) (x : Stored Signal) (evaluation : Stored StrategyEvaluation)
    (strategy : Stored Strategy) (currency : Stored Currency) (candle : Stored (Candle pf.python))
    → get pf.orm (has_id x.row.evaluation) w.evaluations ≡ ok evaluation
    → get pf.orm (has_id evaluation.row.strategy) w.strategies ≡ ok strategy
    → get pf.orm (has_id strategy.row.currency) w.currencies ≡ ok currency
    → get pf.orm
        (is_bar_at pf currency.id strategy.row.interval evaluation.row.candle_open_time)
        w.candles
      ≡ ok candle
    → (context : SignalMessageContext pf.python) × (build_message_context pf x w ≡ ok context)
unfolding build_message_context
context_found pf w x evaluation strategy currency candle a b c d = (
  record {
    strategy_name = strategy.row.name;
    symbol = currency.row.symbol;
    interval = strategy.row.interval;
    candle_open_time = candle.row.open_time;
    close_price = candle.row.close;
  },
  rw (a, b, c, d) refl,
)

-- The channel of the recipient takes every message.
pub record Accepting (token : Option String) (post : Post) (x : NotificationRecipient)
    : Type 0 where
  pub channel : Channel
  pub known : channel_of x.channel ≡ some channel
  pub takes : (message : String) → Channels.send token post channel x.destination message ≡ ok tt

module _ (pf : Platform) (strategy_id : ℕ) (w : World pf) (s : Sound pf w)
    (r : Ready pf strategy_id w) (currency : Stored Currency)
    (currency_found : get pf.orm (has_id r.strategy.row.currency) w.currencies ≡ ok currency)
    (fired : r.verdict.0 ≡ true)
    (fresh : any (of_candle r.strategy.id r.latest.row.open_time) (pf.orm.rows w.evaluations)
      ≡ false) where
  abbrev after : World pf
  after = judged pf strategy_id w s r fired fresh

  abbrev its_time : ℕ
  its_time = (left pf strategy_id w s r fired fresh).evaluation.row.candle_open_time

  abbrev query : Stored (Candle pf.python) → Bool
  query = is_bar_at pf currency.id r.strategy.row.interval its_time

  candle_stored : any query (pf.orm.rows w.candles) ≡ true
  candle_stored = elim (Bool-cases (any query (pf.orm.rows w.candles))) [
    | inl e ↦ e
    | inr e ↦
        let (bar, other) =
          latest_law pf strategy_id w s r (λ c. query c ≡ false)
            (any_none query (pf.orm.rows w.candles) e) in
        let here =
          (get-ok pf.orm (has_id r.strategy.row.currency) w.currencies currency currency_found).0 in
        let id : currency.id ≡ r.strategy.row.currency = eq_of_== _ _ here in
        let time = same_time pf strategy_id w s r fired fresh in
        let its = is_bar_of-at pf r.strategy.row r.latest bar in
        absurd (cc (its, rw (id, time) at other))
  ]

  in_context :
      (context : SignalMessageContext pf.python) × (build_message_context pf
          (signal pf strategy_id w s r fired fresh)
          after
        ≡ ok context)
  in_context =
      let (candle, found, _, _) =
        get_unique pf.orm query (same_bar_at pf currency.id r.strategy.row.interval its_time)
          w.candles s.candles_unique candle_stored in
      let same = (changed pf strategy_id w s r fired fresh).world in
      context_found pf after (signal pf strategy_id w s r fired fresh)
        (left pf strategy_id w s r fired fresh).evaluation r.strategy currency candle
        (ap (λ k. get pf.orm (has_id k) after.evaluations)
            (belongs pf strategy_id w s r fired fresh)
          ∙ evaluation_found pf strategy_id w s r fired fresh)
        (strategy_stored pf strategy_id w s r fired fresh)
        (ap (λ v. get pf.orm (has_id r.strategy.row.currency) v.currencies) same ∙ currency_found)
        (ap (λ v. get pf.orm query v.candles) same ∙ found)

  module _ (token : Option String) (post : Post) where
    deliverable :
        (x : Stored NotificationRecipient)
        → get pf.orm (has_id x.id) w.recipients ≡ ok x
        → Accepting token post x.row
        → Deliverable pf token post (signal pf strategy_id w s r fired fresh).id x.id after
    deliverable x found accepting = record {
      recipient = x;
      signal = signal pf strategy_id w s r fired fresh;
      context = in_context.0;
      channel = accepting.channel;
      recipient_found =
          ap (λ v. get pf.orm (has_id x.id) v.recipients)
            (changed pf strategy_id w s r fired fresh).world
          ∙ found;
      signal_found = (signal_law pf strategy_id w s r fired fresh).0;
      in_context = in_context.1;
      known = accepting.known;
      accepted = accepting.takes _;
    }

    -- From a `Sound` state: a strategy is stored with its currency, candles in its history and a
    -- valid configuration, its evaluation returns that it triggers, its latest candle has not been
    -- evaluated, and the channel of every active recipient of its owner is known and takes every
    -- message. Then `evaluate_strategy` publishes the dispatch of one signal,
    -- `dispatch_notifications` of that signal publishes messages, and after the runs of
    -- `send_notification` that they ask for every one of those recipients has a delivery of the
    -- signal that was sent.
    pub evaluate_strategy-Received :
        let recipients = select (is_recipient r.strategy.row.user) (pf.orm.rows w.recipients) in
        let evaluated = (evaluate_strategy pf strategy_id w).1 in
        All (λ x. Accepting token post x.row) recipients
        → (x : Stored Signal) × (messages : List Message) × (evaluated.published
            ≡ w.published ++ Message.dispatch_notifications x.id ∷ [])
          × (let dispatched = (dispatch_notifications pf x.id evaluated).1 in
              (dispatched.published ≡ evaluated.published ++ messages)
              × All
                  (λ y. Received pf x.id y.id (deliver_all pf token post messages dispatched))
                  recipients)
    evaluate_strategy-Received accepting =
        let mine = is_recipient r.strategy.row.user in
        let x = signal pf strategy_id w s r fired fresh in
        let o = owned pf strategy_id w s r fired fresh in
        let same = (changed pf strategy_id w s r fired fresh).world in
        let (messages, published, _) = dispatch_notifications-published pf x.id after o in
        let stored = All-of_select _ mine _ (get_self pf.orm w.recipients) in
        let reach =
          first_dispatch-Received pf x.id after o token post
            (subst (λ v. IsUnique same_delivery (contents (pf.orm.rows v.deliveries))) (sym same)
              s.deliveries_unique)
            (none_yet pf strategy_id w s r fired fresh)
            (subst
              (λ v.
                All (λ y. Deliverable pf token post x.id y.id after)
                  (select mine (pf.orm.rows v.recipients)))
              (sym same)
              (All-imply _ _ (λ y (found, takes). deliverable y found takes) _
                (All-pair _ _ _ stored accepting)))
            messages published in
        (
          x,
          messages,
          ((left pf strategy_id w s r fired fresh).signalled
              (triggered pf strategy_id w s r fired fresh)).2,
          (
            published,
            subst
                (λ v.
                  All
                    (λ y.
                      Received pf x.id y.id (
                        deliver_all pf token post messages
                          (dispatch_notifications pf x.id after).1))
                    (select mine (pf.orm.rows v.recipients)))
                same reach,
          ),
        )
