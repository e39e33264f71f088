-- ===== src/Strategy/Tasks/Save.antt =====
-- The gate that `Strategy.save` keeps.
use cryptovira.Prelude.{
  ◌≡◌, ◌≢◌, refl, false, ◌⊎◌, inl, inr, none, some, List, [], ◌∷◌, ◌++◌, any, Option-cases,
}
use cryptovira.Exec.{Result, ok, err, Error, Result-cases}
use cryptovira.Orm.{Stored}
use cryptovira.Strategy.Schema.{StrategyConfig, model_validate}
use cryptovira.Strategy.Schema.Validate.{model_validate-ne-nil}
use cryptovira.Strategy.Models.{Strategy}
use cryptovira.Strategy.Tasks.{save_strategy}
use cryptovira.World.{Platform, World, no_clash}

pub any-false : {A : Type 0} (l : List A) → any (λ x. false) l ≡ false
any-false [] = refl
any-false (x ∷ l) = any-false l

module _ (pf : Platform) where
  -- The strategy was stored as it is, and its configuration is valid and has a condition.
  pub record Saved (s : Strategy) (w : World pf) (out : Result (Unit {0}) × World pf) : Type 0 where
    pub config : StrategyConfig pf.python
    pub valid : model_validate pf.python pf.pydantic s.config ≡ some config
    pub has_condition : config.conditions ≢ []
    pub strategy : Stored Strategy
    pub same : strategy.row ≡ s
    pub appended : pf.orm.rows out.1.strategies ≡ pf.orm.rows w.strategies ++ strategy ∷ []
    pub finished : out.0 ≡ ok tt
    -- no other table changed
    pub table : pf.orm.Table Strategy no_clash
    pub world : out.1 ≡ record w { strategies = table }

  -- Saving a new strategy either raises and changes nothing, which it does only if the fields are
  -- not clean or the configuration is not valid, or it stores the strategy as it is, and then the
  -- configuration is valid and has a condition.
  pub save_strategy_cases :
      (clean_fields : Strategy → Result (Unit {0})) (s : Strategy) (w : World pf)
      → ((e : Error) × (save_strategy pf clean_fields s w ≡ (err e, w))
          × ((clean_fields s ≢ ok tt) ⊎ (model_validate pf.python pf.pydantic s.config ≡ none)))
        ⊎ Saved s w (save_strategy pf clean_fields s w)
  unfolding save_strategy
  save_strategy_cases clean_fields s w = elim (Result-cases (clean_fields s)) [
    | inr (e, h) ↦ rw h (inl (e, refl, inl (λ k. cc k)))
    | inl (_, h) ↦ elim (Option-cases (model_validate pf.python pf.pydantic s.config)) [
      | inl k ↦ rw (h, k) (inl (_, refl, inr refl))
      | inr (c, k) ↦
          let (i, t, made, at) =
            pf.orm.create_free_law s w.strategies (any-false (pf.orm.rows w.strategies)) in
          rw (h, k, made)
            (inr (record {
              config = c;
              valid = k;
              has_condition = model_validate-ne-nil pf.python pf.pydantic s.config c k;
              strategy = record { id = i; row = s };
              same = refl;
              appended = at;
              finished = refl;
              table = t;
              world = refl;
            }))
    ]
  ]
