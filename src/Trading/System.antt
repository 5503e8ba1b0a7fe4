-- ===== src/Trading/System.antt =====
-- trading/engine.go: the actors of a trading engine. A PID that `Spawn` returns is an argument.
use distributed_framework.Common.Dict.{Dict, lookup, insert, values}
use distributed_framework.Actor.Pid.{Pid}
use distributed_framework.Trading.Float.{Float}
use distributed_framework.Trading.Messages.{
  TradingMessage, register_executor, register_strategy, subscribe_with_strategy, subscribe_ticker,
  unsubscribe_ticker,
}
use distributed_framework.Trading.Risk.{RiskConfig, Reasons, default_risk_config}
use Prim.Native.String.{◌++◌ as str_append}
use distributed_framework.Common.{
  String, Bool, true, Option, List, [], ◌∷◌, ◌++◌, map, nat_keys, string_keys,
}

pub record TradingConfig (F : Type 0) : Type 0 where
  pub test_mode : Bool
  pub risk_config : RiskConfig F
  pub symbols : List String

unfoldable pub default_trading_config : {F : Type 0} → Float F → Reasons F → TradingConfig F
unfolding default_risk_config
default_trading_config fl texts = record {
  test_mode = true;
  risk_config = default_risk_config fl texts;
  symbols = "BTC/USDT" ∷ [];
}

pub record TradingEngine (F : Type 0) : Type 0 where
  pub market_data : Pid
  pub order_manager : Pid
  pub risk_manager : Pid
  pub monitor : Pid
  pub strategies : Dict String Pid
  pub executors : Dict String Pid
  pub config : TradingConfig F

pub data SystemEffect (F : Type 0) : Type 0 where
  spawn : String → SystemEffect F
  subscribe : Pid → SystemEffect F
  send : Pid → TradingMessage F → SystemEffect F
  poison : Pid → SystemEffect F

module _ {F : Type 0} where
  unfoldable pub init_components :
      Pid → Pid → Pid → Pid → TradingConfig F → TradingEngine F × List (SystemEffect F)
  init_components monitor orders risk market config = (
    record {
      market_data = market;
      order_manager = orders;
      risk_manager = risk;
      monitor = monitor;
      strategies = [];
      executors = [];
      config = config;
    },
    spawn "monitor"
        ∷ subscribe monitor
        ∷ spawn "order-manager"
        ∷ spawn "risk-manager"
        ∷ spawn "market-data"
        ∷ [],
  )

  unfoldable pub add_executor :
      TradingEngine F → String → Pid → TradingEngine F × List (SystemEffect F)
  add_executor te exchange pid = (
    record te { executors = insert exchange pid te.executors },
    spawn (str_append "executor-" exchange)
        ∷ send te.order_manager (register_executor exchange pid)
        ∷ [],
  )

  unfoldable pub add_strategy :
      TradingEngine F → String → List String → Pid → TradingEngine F × List (SystemEffect F)
  add_strategy te name symbols pid = (
    record te { strategies = insert name pid te.strategies },
    spawn (str_append "strategy-" name)
        ∷ send te.order_manager (register_strategy pid symbols)
        ∷ map (λ symbol. send te.market_data (subscribe_with_strategy symbol pid)) symbols,
  )

  unfoldable pub subscribe_symbol : TradingEngine F → String → List (SystemEffect F)
  subscribe_symbol te symbol = send te.market_data (subscribe_ticker symbol) ∷ []

  unfoldable pub unsubscribe_symbol : TradingEngine F → String → List (SystemEffect F)
  unsubscribe_symbol te symbol = send te.market_data (unsubscribe_ticker symbol) ∷ []

  unfoldable pub stop : TradingEngine F → List (SystemEffect F)
  stop te =
      map poison (values te.strategies)
      ++ (map poison (values te.executors)
          ++ poison te.market_data
            ∷ poison te.risk_manager
            ∷ poison te.order_manager
            ∷ poison te.monitor
            ∷ [])

  unfoldable pub get_strategy : TradingEngine F → String → Option Pid
  get_strategy te name = lookup name te.strategies

  unfoldable pub get_executor : TradingEngine F → String → Option Pid
  get_executor te exchange = lookup exchange te.executors
