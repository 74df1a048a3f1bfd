-- ===== src/Clients/Evm/Submit.antt =====
-- How `EVMBridgeClient` makes and sends a tx: `newTx`, `adjustGasFeeCap`, `adjustGasTipCap` and
-- `signAndSubmitData` of shared/bridges/ibcv2/evm_bridge_client.go.
pub mod Fees
use platform_relayer.Common.{ℕ, ◌+◌, ◌*◌, String, List, [], ◌∷◌, Option, none, some}
use platform_relayer.Errors.{Result, ok, err, message, wrap}
use platform_relayer.Clients.Answers.{◌>>=◌}
use platform_relayer.Clients.Evm.{Header, EvmBridgeClient}

-- `types.DynamicFeeTx`
pub record DynamicFeeTx : Type 0 where
  pub to : String
  pub nonce : ℕ  -- uint64
  pub gas_fee_cap : ℕ
  pub gas_tip_cap : ℕ
  pub gas : ℕ  -- uint64
  pub payload : List ℕ

-- The txs that the node took, the latest first.
abbrev pub History : Type 0
History = List DynamicFeeTx

-- What the node answers after a history, and what the signer answers. The latest block has a base
-- fee, as every block has since the London fork.
pub record Chain : Type 0 where
  pub latest_header : History → Result Header
  pub suggest_gas_tip_cap : History → Result ℕ
  pub pending_code_at : History → String → Result (List ℕ)
  pub estimate_gas : History → String → List ℕ → Result ℕ
  pub pending_nonce_at : History → String → Result ℕ
  pub sign : String → DynamicFeeTx → Result DynamicFeeTx
  pub send_transaction : History → DynamicFeeTx → Result (Unit {0})
  pub hash : DynamicFeeTx → String

-- `adjustGasFeeCap` and `adjustGasTipCap` for the multiplier of each.
abbrev pub adjust_cap : Option (ℕ → ℕ) → ℕ → ℕ
adjust_cap none cap = cap
adjust_cap (some multiply) cap = multiply cap

-- `if len(code) == 0 { ... }`
abbrev pub has_code : List ℕ → Result (Unit {0})
has_code [] = err (message "code no length response when getting pending code for address")
has_code (b ∷ code) = ok tt

-- `newTx`
unfoldable pub new_tx : EvmBridgeClient → Chain → History → List ℕ → String → Result DynamicFeeTx
new_tx client chain history bz to = do
  head ← wrap "getting latest block header" (chain.latest_header history)
  tip ← wrap "getting suggested gas price for chain" (chain.suggest_gas_tip_cap history)
  code ← wrap "getting pending code at for address" (chain.pending_code_at history to)
  there ← has_code code
  gas ← wrap "estimating gas to deliver msg" (chain.estimate_gas history to bz)
  nonce ←
      wrap "getting pending nonce for address"
        (chain.pending_nonce_at history client.signer_address)
  ok (record {
    to = to;
    nonce = nonce;
    gas_fee_cap = adjust_cap client.gas_fee_cap_multiplier (tip + head.base_fee * 2);
    gas_tip_cap = adjust_cap client.gas_tip_cap_multiplier tip;
    gas = gas;
    payload = bz;
  })

-- The tx that is to be sent.
unfoldable pub signed_tx : EvmBridgeClient → Chain → History → List ℕ → String → Result DynamicFeeTx
unfolding new_tx
signed_tx client chain history bz to = do
  tx ← wrap "creating tx to sign and submit" (new_tx client chain history bz to)
  wrap "signing tx with address" (chain.sign client.chain_id tx)

abbrev pub after_send : Chain → DynamicFeeTx → History → Result (Unit {0}) → History × Result String
after_send chain tx history (ok u) = (tx ∷ history, ok (chain.hash tx))
after_send chain tx history (err e) = (history, wrap "sending signed transaction" (err e))

abbrev pub send : Chain → History → Result DynamicFeeTx → History × Result String
send chain history (ok tx) = after_send chain tx history (chain.send_transaction history tx)
send chain history (err e) = (history, err e)

-- `signAndSubmitData`
unfoldable pub sign_and_submit_data :
    EvmBridgeClient → Chain → List ℕ → String → History → History × Result String
unfolding signed_tx
sign_and_submit_data client chain bz to history =
    send chain history (signed_tx client chain history bz to)
