-- ===== src/Signals/Messages.antt =====
-- apps/signals/messages.py.
use Prim.Native.String.{◌++◌ as text_append}
use cryptovira.Prelude.{ℕ, String}
use cryptovira.Python.{Python}

pub record SignalMessageContext (p : Python) : Type 0 where
  pub strategy_name : String
  pub symbol : String
  pub interval : String
  pub candle_open_time : ℕ
  pub close_price : p.Decimal

infixr 65 ◌&◌
abbrev ◌&◌ : String → String → String
a & b = text_append a b

unfoldable pub render_signal_message : (p : Python) → SignalMessageContext p → String
render_signal_message p c =
    "Signal: "
    & c.strategy_name
    & "\n"
    & c.symbol
    & " ("
    & c.interval
    & ")\n"
    & "Candle "
    & p.isoformat c.candle_open_time
    & " closed at "
    & p.show_decimal c.close_price
