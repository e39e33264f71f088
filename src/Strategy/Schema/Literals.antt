-- ===== src/Strategy/Schema/Literals.antt =====
-- The `Literal` types of schema.py: the texts that validation reads, and what it reads them as.
use cryptovira.Prelude.{
  String, ◌≡◌, refl, ap, ◌∙◌, Option, some, str_eq, eq_iff, if◌then◌else◌, Bool-cases, inl, inr,
}
use cryptovira.Strategy.Schema.{
  IndicatorName, sma, ema, rsi, macd, macd_signal, macd_hist, OperatorName, gt, lt, eq,
  crosses_above, crosses_below, Json, null, boolean, integer, real, text, array, object,
  indicator_text, operator_text, indicator_of, operator_of,
}

pub indicator_of-text : (i : IndicatorName) → indicator_of (text (indicator_text i)) ≡ some i
unfolding indicator_of
indicator_of-text sma = refl
indicator_of-text ema = refl
indicator_of-text rsi = refl
indicator_of-text macd = refl
indicator_of-text macd_signal = refl
indicator_of-text macd_hist = refl

pub operator_of-text : (o : OperatorName) → operator_of (text (operator_text o)) ≡ some o
unfolding operator_of
operator_of-text gt = refl
operator_of-text lt = refl
operator_of-text eq = refl
operator_of-text crosses_above = refl
operator_of-text crosses_below = refl

-- One literal of a `Literal` type, and then the others.
literal :
    {A : Type 0} (word : A → String) (s : String) (k i : A) (rest : Option A)
    → (rest ≡ some i → s ≡ word i)
    → (if str_eq s (word k) then some k else rest) ≡ some i
    → s ≡ word i
literal word s k i rest other h = elim (Bool-cases (str_eq s (word k))) [
  | inl e ↦ let same : k ≡ i = cc (rw e at h) in (eq_iff s (word k)).0 e ∙ ap word same
  | inr e ↦ other (rw e at h)
]

pub indicator_of-some :
    (j : Json) (i : IndicatorName) → indicator_of j ≡ some i → j ≡ text (indicator_text i)
unfolding indicator_of
indicator_of-some (text s) i h =
    let word = indicator_text in
    ap text (
      literal word s sma i _
        (literal word s ema i _ (
          literal word s rsi i _ (
            literal word s macd i _ (
              literal word s macd_signal i _ (literal word s macd_hist i _ (λ e. absurd (cc e)))))))
        h)
indicator_of-some null i h = cc h
indicator_of-some (boolean b) i h = cc h
indicator_of-some (integer n) i h = cc h
indicator_of-some (real n) i h = cc h
indicator_of-some (array js) i h = cc h
indicator_of-some (object fs) i h = cc h

pub operator_of-some :
    (j : Json) (o : OperatorName) → operator_of j ≡ some o → j ≡ text (operator_text o)
unfolding operator_of
operator_of-some (text s) o h =
    let word = operator_text in
    ap text (
      literal word s gt o _
        (literal word s lt o _ (
          literal word s eq o _ (
            literal word s crosses_above o _
              (literal word s crosses_below o _ (λ e. absurd (cc e))))))
        h)
operator_of-some null o h = cc h
operator_of-some (boolean b) o h = cc h
operator_of-some (integer n) o h = cc h
operator_of-some (real n) o h = cc h
operator_of-some (array js) o h = cc h
operator_of-some (object fs) o h = cc h
