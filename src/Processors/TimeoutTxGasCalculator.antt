-- ===== src/Processors/TimeoutTxGasCalculator.antt =====
-- relayer/ibcv2/timeout_tx_gas_calculator.go. The cost is written to the table alone, not to the transfer.
use platform_relayer.Common.{ℕ, String, Bool, false, is_some, if◌then◌else◌}
use platform_relayer.Errors.{wrap}
use platform_relayer.Db.{
  Status, calculating_timeout_tx_gas_cost, update_transfer_timeout_tx_gas_cost_usd,
}
use platform_relayer.Transfer.{Transfer, transfer_key}
use platform_relayer.Bridge.{
  Environment, M, ◌>>=◌, ◌>>◌, return, or_fail, ask, context, get_client, exec,
}

unfoldable pub should_process : Transfer → Bool
should_process t = if is_some t.timeout_tx_gas_cost_usd then false else is_some t.timeout_tx_hash

abbrev pub state : Status
state = calculating_timeout_tx_gas_cost

unfoldable pub process : String → ℕ → Environment → Transfer → M Transfer
process coingecko_id decimals env t = do
  client ← ask (
      wrap "getting ibcv2 bridge client for transfer source chain"
        (get_client env t.source_chain_id))
  timeout_tx_hash ←
      or_fail "this is a bug! transfer does not have a recv tx, violating should process"
        t.timeout_tx_hash
  gas_cost_in_gas_token ←
      ask (wrap "getting gas cost of timeout tx" (client.tx_fee timeout_tx_hash))
  gas_cost_usd ← ask (
      wrap "getting usd value of timeout tx gas cost"
        (env.get_coin_usd_value coingecko_id decimals gas_cost_in_gas_token))
  context "updating transfer timeout tx gas cost usd value"
      (exec env (update_transfer_timeout_tx_gas_cost_usd gas_cost_usd (transfer_key t)))
  return t
