-- ===== src/Trading/Risk.antt =====
-- trading/risk_manager.go: the actor that approves signals.
pub mod Rate
use distributed_framework.Common.Dict.{Dict, insert}
use distributed_framework.Actor.Pid.{Pid}
use distributed_framework.Trading.Float.{Float}
use distributed_framework.Trading.Messages.{
  Signal, RiskResult, Position, TradingMessage, TradingEffect, send, respond, risk_check,
  risk_result, signal, position,
}
use distributed_framework.Common.{
  ℕ, ◌+◌, String, true, false, List, [], ◌∷◌, ◌++◌, ltb, leb, if◌then◌else◌, length, nat_keys,
  string_keys,
}

pub record RiskConfig (F : Type 0) : Type 0 where
  pub max_position_pct : F
  pub max_daily_loss : F
  pub max_orders_per_min : ℕ
  pub max_position_value : F
  pub total_capital : F

pub record RiskManager (F : Type 0) : Type 0 where
  pub config : RiskConfig F
  pub order_manager : Pid
  pub daily_pnl : F
  pub positions : Dict String (Position F)
  pub order_times : List ℕ

-- One minute in nanoseconds.
abbrev pub minute : ℕ
minute = 60000000000

-- The texts of the reasons, which `fmt.Sprintf` makes.
pub record Reasons (F : Type 0) : Type 0 where
  pub daily_loss : F → String
  pub too_many : ℕ → String
  pub too_big : F → F → String
  pub too_large_share : F → F → String

module _ {F : Type 0} (fl : Float F) (texts : Reasons F) where
  unfoldable pub default_risk_config : RiskConfig F
  default_risk_config = record {
    max_position_pct = fl.over (fl.of_nat 1) (fl.of_nat 10);
    max_daily_loss = fl.of_nat 1000;
    max_orders_per_min = 10;
    max_position_value = fl.of_nat 10000;
    total_capital = fl.of_nat 100000;
  }

  unfoldable pub new_risk_manager : RiskConfig F → Pid → RiskManager F
  new_risk_manager config pid = record {
    config = config;
    order_manager = pid;
    daily_pnl = fl.of_nat 0;
    positions = [];
    order_times = [];
  }

  unfoldable pub reject : Signal F → String → RiskResult F
  reject s why = record { approved = false; reason = why; signal = s }

  unfoldable pub approve : Signal F → RiskResult F
  approve s = record { approved = true; reason = ""; signal = s }

-- The times that `cleanOldOrders` keeps: those after one minute before `now`.
unfoldable pub recent : ℕ → List ℕ → List ℕ
recent now [] = []
recent now (t ∷ ts) = if ltb now (t + minute) then t ∷ recent now ts else recent now ts

unfoldable pub clean_old_orders : {F : Type 0} → RiskManager F → ℕ → RiskManager F
unfolding recent
clean_old_orders r now = record r { order_times = recent now r.order_times }

module _ {F : Type 0} (fl : Float F) (texts : Reasons F) where
  -- The checks of a position's size, when the others have passed.
  unfoldable pub check_size : RiskManager F → ℕ → Signal F → RiskManager F × RiskResult F
  unfolding reject approve
  check_size r now s =
      let value : F = fl.times s.price s.quantity in
      let pct : F = fl.over value r.config.total_capital in
      if fl.less r.config.max_position_value value
      then (r, reject fl texts s (texts.too_big value r.config.max_position_value))
      else (if fl.less r.config.max_position_pct pct
          then (
            r,
            reject fl texts s (
                texts.too_large_share (fl.times pct (fl.of_nat 100))
                  (fl.times r.config.max_position_pct (fl.of_nat 100))),
          )
          else (record r { order_times = r.order_times ++ now ∷ [] }, approve fl texts s))

  -- `now` is the time that `checkRisk` reads.
  unfoldable pub check_risk : RiskManager F → ℕ → Signal F → RiskManager F × RiskResult F
  unfolding reject clean_old_orders check_size
  check_risk r now s =
      let r' : RiskManager F = clean_old_orders r now in
      if fl.at_most r.daily_pnl (fl.negate r.config.max_daily_loss)
      then (r, reject fl texts s (texts.daily_loss r.daily_pnl))
      else (if leb r'.config.max_orders_per_min (length r'.order_times)
          then (r', reject fl texts s (texts.too_many (length r'.order_times)))
          else check_size r' now s)

  unfoldable pub receive :
      RiskManager F → ℕ → TradingMessage F → RiskManager F × List (TradingEffect F)
  unfolding check_risk
  receive r now (risk_check s) =
      let (r', result) = check_risk r now s in
      (
        r',
        respond (risk_result result)
            ∷ (if result.approved then send r.order_manager (signal s) ∷ [] else []),
      )
  receive r now (position p) = (record r { positions = insert p.symbol p r.positions }, [])
  receive r now other = (r, [])
