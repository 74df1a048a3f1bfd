-- ===== src/Clients/State.antt =====
-- `SignerGasTokenBalance` and `ClientState` of both bridge clients, in
-- shared/bridges/ibcv2/cosmos_bridge_client.go and evm_bridge_client.go.
use platform_relayer.Common.{ℕ, ◌*◌, String, List, Option, none, some, ◌==◌, str_eq, if◌then◌else◌}
use platform_relayer.Db.{Time, ℤ}
use platform_relayer.Errors.{Result, ok, err, message, wrap}
use platform_relayer.Clients.Answers.{◌>>=◌}
use platform_relayer.Clients.Cosmos.{CosmosBridgeClient}

pub record WasmClientState : Type 0 where
  pub latest_execution_block_number : ℕ  -- uint64

pub record TendermintClientState : Type 0 where
  pub trusting_period : Time
  pub latest_height : ℕ  -- uint64

pub record ClientState : Type 0 where
  pub wasm_client_state : Option WasmClientState
  pub tendermint_client_state : Option TendermintClientState

-- A client state as the chain of a Cosmos client has it; its bytes may be missing.
pub record AnyState : Type 0 where
  pub type_url : String
  pub value : Option (List ℕ)

-- What the node of a Cosmos chain, the signer and the codecs answer.
pub record CosmosStates : Type 0 where
  pub signer_address : List ℕ
  pub convert_and_encode : String → List ℕ → Result String
  pub balance : String → String → Result (Option ℤ)
  pub client_state : String → Result (Option AnyState)
  pub unmarshal_wasm : List ℕ → Result (List ℕ)
  pub unmarshal_json : List ℕ → Result WasmClientState

abbrev pub not_nil : {A : Type 0} → String → Option A → Result A
not_nil text none = err (message text)
not_nil text (some a) = ok a

-- `SignerGasTokenBalance` of the Cosmos client.
unfoldable pub cosmos_signer_balance : CosmosBridgeClient → CosmosStates → Result ℤ
cosmos_signer_balance client node = do
  address ←
      wrap "converting and encoding signer address"
        (node.convert_and_encode client.prefix node.signer_address)
  balance ← wrap "getting balance for signer on chain" (node.balance address client.fee_denom)
  not_nil "got nil balance for signer on chain" balance

-- `ClientState` of the Cosmos client, for the bytes of a state by their type.
unfoldable pub decoded_state : CosmosStates → String → List ℕ → Result ClientState
decoded_state node url bytes =
    if str_eq url "/ibc.lightclients.wasm.v1.ClientState"
    then (do
      full ← wrap "proto decoding full wasm client state" (node.unmarshal_wasm bytes)
      state ← wrap "json decoding wasm client state data" (node.unmarshal_json full)
      ok (record { wasm_client_state = some state; tendermint_client_state = none }))
    else err (message "unsupported client state type url")

unfoldable pub cosmos_client_state : CosmosStates → String → Result ClientState
unfolding decoded_state
cosmos_client_state node id = do
  answer ← wrap "querying for state of client" (node.client_state id)
  state ← not_nil "got nil client state" answer
  bytes ← not_nil "got nil client state value" (AnyState.value state)
  decoded_state node state.type_url bytes

-- What an EVM node and the bindings answer. An address is a number; a contract has its trusting period,
-- a uint32 of seconds, and its latest height, a uint64.
pub record EvmStates : Type 0 where
  pub balance_at : Result ℤ
  pub get_client : String → Result ℕ
  pub new_contract : ℕ → Result (Unit {0})
  pub contract_state : ℕ → Result (ℕ × ℕ)

-- `SignerGasTokenBalance` of the EVM client.
unfoldable pub evm_signer_balance : EvmStates → Result ℤ
evm_signer_balance node = node.balance_at

abbrev pub found_address : ℕ → Result ℕ
found_address address = if address == 0 then err (message "could not find client") else ok address

-- `ClientState` of the EVM client.
unfoldable pub evm_client_state : EvmStates → String → Result ClientState
evm_client_state node id = do
  answer ← wrap "getting client" (node.get_client id)
  address ← found_address answer
  contract ←
      wrap "creating new instance of sp1 ics07 tendermint contract at address"
        (node.new_contract address)
  state ← wrap "getting tendermint client state at address" (node.contract_state address)
  ok (record {
    wasm_client_state = none;
    tendermint_client_state =
        some (record { trusting_period = state.0 * 1000000000; latest_height = state.1 });
  })
