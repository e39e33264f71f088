-- ===== src/Concurrent/Done/Lasts.antt =====
-- Other tasks leave what a task has done.
use mathlib.Core.List.Memᴰ
use cryptovira.Prelude.{ℕ, ◌≡◌, ◌∙◌, true, inl, inr, List, any, All, All-imply}
use cryptovira.Orm.{Stored}
use cryptovira.Market.Models.{same_bar}
use cryptovira.Signals.Models.{NotificationRecipient, new_delivery, same_delivery}
use cryptovira.World.{Platform, World, Message}
use cryptovira.Concurrent.Growth.{
  Grows, Grows-trans, Tracks, Continues-any, Continues-matches, Continues-Memᴰ, Memᴰ-later,
}
use cryptovira.Concurrent.Tasks.{
  Task, ingest, ask_ingest, ask_evaluate, assess, dispatch, backtest, deliver, send_again,
  ask_backtest, save, change, edit,
}
use cryptovira.Concurrent.Done.{Sent, Announced, Recorded, Closed, Reading, Spread, Asked, Done}

module _ (pf : Platform) where
  pub Sent-later :
      (ms : List Message) (w w' : World pf) → Grows pf w w' → Sent pf ms w → Sent pf ms w'
  Sent-later ms w w' g h = All-imply _ _ (λ m is. rw g.published (Memᴰ.append_left g.new is)) ms h

  -- A delivery for each recipient, which later worlds keep.
  pub reached-later :
      (signal : ℕ) (recipients : List (Stored NotificationRecipient)) (w w' : World pf)
      → Grows pf w w'
      → All
          (λ r.
            any (λ d. same_delivery (new_delivery signal r.id) d.row) (pf.orm.rows w.deliveries)
            ≡ true)
          recipients
      → All
          (λ r.
            any (λ d. same_delivery (new_delivery signal r.id) d.row) (pf.orm.rows w'.deliveries)
            ≡ true)
          recipients
  reached-later signal recipients w w' g h =
      All-imply _ _
        (λ r is.
          Continues-matches Tracks (λ d. same_delivery (new_delivery signal r.id) d.row)
            (λ x y t e. rw (t.same_signal, t.same_recipient) e) _ _ g.deliveries is)
        recipients h

  module _ (w w' : World pf) (g : Grows pf w w') where
    Announced-later : (i : ℕ) → Announced pf i w → Announced pf i w'
    Announced-later i a = record {
      signal = a.signal;
      of = a.of;
      kept = Memᴰ-later _ _ _ g.signals a.kept;
      published = rw g.published (Memᴰ.append_left g.new a.published);
    }

    Recorded-later : (i t : ℕ) → Recorded pf i t w → Recorded pf i t w'
    Recorded-later i t h = record {
      evaluation = h.evaluation;
      of = h.of;
      at = h.at;
      kept = Memᴰ-later _ _ _ g.evaluations h.kept;
      fired = λ is. Announced-later h.evaluation.id (h.fired is);
    }

    pub Closed-later : (i : ℕ) → Closed pf i w → Closed pf i w'
    Closed-later i h =
        let (d, t, k) = Continues-Memᴰ Tracks h.delivery _ _ g.deliveries h.kept in
        record { delivery = d; of = t.same_row ∙ h.of; kept = k; closed = t.closed h.closed }

    module _ (V : World pf → Type 0) where
      abbrev reading_later : (i : ℕ) → Reading pf V i w → Reading pf V i w'
      reading_later i h = record {
        earlier = h.earlier;
        seen = h.seen;
        strategy = h.strategy;
        found = h.found;
        looked = h.looked;
        seen_later = h.seen_later;
        followed = h.followed;
        since = Grows-trans pf h.looked w w' h.since g;
      }

      Spread-later : (i : ℕ) → Spread pf V i w → Spread pf V i w'
      Spread-later i h = record {
        signal = h.signal;
        of = h.of;
        kept = Memᴰ-later _ _ _ g.signals h.kept;
        evaluation = h.evaluation;
        evaluated = h.evaluated;
        evaluation_kept = Memᴰ-later _ _ _ g.evaluations h.evaluation_kept;
        owned = h.owned;
        seen = h.seen;
        strategy = h.strategy;
        found = h.found;
        earlier = h.earlier;
        seen_later = h.seen_later;
        followed = h.followed;
        reached = reached-later h.signal.id _ w w' g h.reached;
        written = h.written;
        seen_last = h.seen_last;
        after = h.after;
        since = Grows-trans pf h.written w w' h.since g;
        published = Sent-later _ w w' g h.published;
      }

      Asked-later : (ms : World pf → List Message) → Asked pf V ms w → Asked pf V ms w'
      Asked-later ms h = record {
        earlier = h.earlier;
        seen = h.seen;
        since = Grows-trans pf h.earlier w w' h.since g;
        published = Sent-later (ms h.earlier) w w' g h.published;
      }

  module _ (V : World pf → Type 0) where
    pub Done-lasts :
        (t : Task pf) (w w' : World pf) → Grows pf w w' → Done pf V t w → Done pf V t w'
    unfolding Done
    Done-lasts (ingest source now symbol interval) w w' g h = record {
      earlier = h.earlier;
      seen = h.seen;
      currency = h.currency;
      found = h.found;
      known = h.known;
      klines = h.klines;
      valid = h.valid;
      answered = h.answered;
      kept =
          All-imply _ _ (λ c is. Continues-any (λ s. same_bar c s.row) _ _ g.candles is) _ h.kept;
    }
    Done-lasts (ask_ingest interval) w w' g h = Asked-later w w' g V _ h
    Done-lasts (ask_evaluate interval) w w' g h = Asked-later w w' g V _ h
    Done-lasts (assess i) w w' g (inl h) =
        inl (record { reading = reading_later w w' g V i h.reading; empty = h.empty })
    Done-lasts (assess i) w w' g (inr h) = inr (record {
      reading = reading_later w w' g V i h.reading;
      latest = h.latest;
      last = h.last;
      recorded = Recorded-later w w' g i h.latest.row.open_time h.recorded;
    })
    Done-lasts (dispatch i) w w' g h = Spread-later w w' g V i h
    Done-lasts (backtest i) w w' g h = tt
    Done-lasts (deliver token post retries i) w w' g h = Closed-later w w' g i h
    Done-lasts (send_again ids) w w' g h = Sent-later _ w w' g h
    Done-lasts (ask_backtest ids) w w' g h = Sent-later _ w w' g h
    Done-lasts (save clean_fields s) w w' g h = tt
    Done-lasts (change clean_fields i s) w w' g h = tt
    Done-lasts (edit currencies recipients backtests) w w' g h = tt
