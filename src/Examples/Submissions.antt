-- ===== src/Examples/Submissions.antt =====
-- Concrete submissions to a Cosmos chain and to an EVM chain.
use platform_relayer.Common.{
  ℕ, ◌≡◌, refl, ◌≤◌, ◌+◌, ◌*◌, ◌↔◌, Bool, true, false, List, [], ◌∷◌, none, some, arith, length,
}
use platform_relayer.Errors.{Result, ok, err, message}
use platform_relayer.Clients.Cosmos.{CosmosBridgeClient, new_cosmos_bridge_client}
use platform_relayer.Clients.Cosmos.Submit
use platform_relayer.Clients.Cosmos.Submit.Planned as Planned
use platform_relayer.Clients.Evm.{Header, EvmBridgeClient, new_evm_bridge_client}
use platform_relayer.Clients.Evm.Submit as EvmSubmit
use platform_relayer.Clients.Evm.Submit.Fees as Fees
use platform_relayer.Clients.Delivery.{
  cosmos_deliver_tx, evm_deliver_tx, submission_end, submission_start,
}
use platform_relayer.Clients.Delivery.Spaced as Spaced

abbrev client : CosmosBridgeClient
client = new_cosmos_bridge_client "chain-a" "cosmos" "stake" 250

abbrev update : List ℕ → Submit.SdkMsg
update raw = record { type_url = Submit.update_client_url; raw = raw }

abbrev recv : Submit.SdkMsg
recv = record { type_url = "/ibc.core.channel.v2.MsgRecvPacket"; raw = 3 ∷ [] }

abbrev unpack_any : List ℕ → Result Submit.SdkMsg
unpack_any [] = err (message "empty")
unpack_any (b ∷ []) = ok (update (b ∷ []))
unpack_any (b ∷ c ∷ bytes) = ok recv

-- A node that takes every tx; the body has two updates and a packet.
abbrev chain : Submit.Chain
chain = record {
  unmarshal_body = λ bz. ok ((1 ∷ []) ∷ (3 ∷ 3 ∷ []) ∷ (2 ∷ []) ∷ []);
  unpack_any = unpack_any;
  address = λ prefix. ok "cosmos1relayer";
  account_info = λ history address. ok (some (record { number = 1; sequence = length history }));
  set_msgs = λ msgs. ok tt;
  sign = λ chain tx. ok (1 ∷ []);
  encode = λ tx. ok tx;
  simulate = λ history tx. ok (some 100);
  broadcast_tx_sync = λ history tx. ok (record { code = 0; hash = "CD" });
  has_gas_price = false;
  gas_price_times = λ gas. gas;
}

abbrev msgs : List Submit.SdkMsg
msgs = update (1 ∷ []) ∷ recv ∷ update (2 ∷ []) ∷ []

unpacked : Submit.unpack_body chain (chain.unmarshal_body []) ≡ ok msgs
unfolding Submit.unpack_body Submit.unpack
unpacked = refl

sign_and_submit-planned_example :
    Planned.Follows (Planned.plan msgs) [] (Submit.sign_and_submit client chain [] [])
    × ((test : Submit.SdkMsg → Bool)
        → Planned.count_txs test (Planned.plan msgs) ≡ Planned.count_msgs test msgs)
sign_and_submit-planned_example = Planned.sign_and_submit-planned client chain [] [] msgs unpacked

-- Each update in its own tx, then the packet.
plan_test : Planned.plan msgs ≡ (update (1 ∷ []) ∷ []) ∷ (update (2 ∷ []) ∷ []) ∷ (recv ∷ []) ∷ []
unfolding Planned.plan Planned.updates Planned.others Submit.client_updates
plan_test = refl

abbrev evm : EvmBridgeClient
evm = new_evm_bridge_client "1" "0xrelayer" none none

abbrev head : Header
head = record { number = 9; time = 108; base_fee = 7 }

abbrev evm_chain : EvmSubmit.Chain
evm_chain = record {
  latest_header = λ history. ok head;
  suggest_gas_tip_cap = λ history. ok 2;
  pending_code_at = λ history to. ok (96 ∷ []);
  estimate_gas = λ history to bz. ok 21000;
  pending_nonce_at = λ history address. ok (length history);
  sign = λ chain tx. ok tx;
  send_transaction = λ history tx. ok tt;
  hash = λ tx. "0xcd";
}

abbrev made : EvmSubmit.DynamicFeeTx
made = record {
  to = "0xrouter";
  nonce = 0;
  gas_fee_cap = 16;
  gas_tip_cap = 2;
  gas = 21000;
  payload = [];
}

made_lem : EvmSubmit.new_tx evm evm_chain [] [] "0xrouter" ≡ ok made
unfolding EvmSubmit.new_tx
made_lem = refl

new_tx-pays_example :
    (head' : Header) × (evm_chain.latest_header [] ≡ ok head')
    × (evm_chain.suggest_gas_tip_cap [] ≡ ok 2)
    × ((base_fee : ℕ) → (base_fee ≤ head'.base_fee * 2) ↔ (base_fee + 2 ≤ 16))
new_tx-pays_example = Fees.new_tx-pays evm evm_chain [] [] "0xrouter" made refl refl made_lem

abbrev job : ℕ → Bool → Spaced.Job
job time cancels = record {
  call = record { locked = time; cancels = cancels; took = 1 };
  bz = [];
  address = "0xrouter";
}

abbrev jobs : List Spaced.Job
jobs = job 10000000000 false ∷ job 90000000000 true ∷ []

cosmos_order : Spaced.CosmosOrder chain client [] jobs
unfolding Spaced.CosmosOrder cosmos_deliver_tx submission_end submission_start
    Submit.sign_and_submit Submit.submit_all Submit.submit_updates Submit.client_updates
    Submit.unpack_body Submit.unpack Submit.sign_and_submit_messages Submit.prepare
    Submit.get_estimated_gas_limit Submit.set_fee Submit.signed_bytes Submit.get_tx_fee
cosmos_order = (omega arith, (omega arith, tt))

evm_order : Spaced.EvmOrder evm_chain evm [] jobs
unfolding Spaced.EvmOrder evm_deliver_tx submission_end submission_start
    EvmSubmit.sign_and_submit_data EvmSubmit.signed_tx EvmSubmit.new_tx
evm_order = (omega arith, (omega arith, tt))

deliver_tx-Spaced_example :
    Spaced.Spaced 8000000000 0 (Spaced.cosmos_slots chain client [] jobs)
    × Spaced.Spaced 2000000000 0 (Spaced.evm_slots evm_chain evm [] jobs)
deliver_tx-Spaced_example =
    Spaced.deliver_tx-Spaced chain client [] evm_chain evm [] jobs cosmos_order evm_order
