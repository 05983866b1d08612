-- ===== src/Samples.antt =====
-- Data that the tests of several modules share: fills, orders and prices at twelve decimals.
use octopush.Prelude.{ℕ, ◌*◌, ◌/◌, String, none, some}
use octopush.Prelude.Int.{ℤ, pos, negsuc}
use octopush.Prelude.Float.{unit_scale}
use octopush.Order.{Side, buy, sell, limit, gtc, taker, FillEvent}
use octopush.Settings.{RiskLimits}
use octopush.Oms.{NewOrder}

abbrev pub units : ℕ → ℤ
units n = pos (n * unit_scale)

-- A fill of order "o1" or another, at venue "A".
abbrev pub fill_of : String → String → ℕ → Side → ℤ → ℤ → ℤ → FillEvent ℤ
fill_of id order at side quantity price fee = record {
  fill_id = id;
  client_order_id = order;
  created_at = at;
  venue = "A";
  symbol = "BTC-USD";
  side = side;
  quantity = quantity;
  price = price;
  fee = fee;
  liquidity = taker;
  slippage_bps = units 0;
  strategy = none;
}

abbrev pub first_fill : FillEvent ℤ
first_fill = fill_of "f1" "o1" 10 buy (units 2) (units 100) (units 1)

abbrev pub second_fill : FillEvent ℤ
second_fill = fill_of "f2" "o1" 20 sell (units 3) (units 110) (units 1)

-- A maker fill with a rebate, which is a negative fee.
abbrev pub rebate_fill : FillEvent ℤ
rebate_fill = fill_of "f3" "o1" 10 buy (units 1) (units 100) (negsuc 9_999_999_999)

abbrev pub buy_five : NewOrder ℤ
buy_five = record {
  venue = "A";
  symbol = "BTC-USD";
  side = buy;
  quantity = units 5;
  order_type = limit;
  time_in_force = gtc;
  expected_price = units 100;
  limit_price = some (units 101);
  plan_id = some "p1";
  intent_id = some "i1";
  strategy = some "cross_venue";
  client_order_id = some "o1";
  ttl_ms = some 5000;
}

-- The defaults of core/config/settings.py.
abbrev pub limits : RiskLimits ℤ
limits = record {
  max_position_notional = units 50_000;
  max_gross_exposure = units 150_000;
  max_net_exposure = units 25_000;
  max_leverage = units 2;
  max_daily_loss = units 2_500;
  max_drawdown = units 5_000;
  max_venue_exposure = units 75_000;
  max_strategy_exposure = units 100_000;
  max_order_notional = units 25_000;
  min_trade_notional = units 250;
  max_unhedged_notional = units 10_000;
  max_data_age_ms = 2_000;
  min_expected_edge_bps = units 2;
  max_error_rate = pos (unit_scale / 4);
  max_open_orders = 20;
}
