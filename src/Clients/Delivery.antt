-- ===== src/Clients/Delivery.antt =====
-- `DeliverTx` of both bridge clients (shared/bridges/ibcv2/cosmos_bridge_client.go and
-- evm_bridge_client.go): one submission at a time, with a delay between two of them.
pub mod Spaced
use platform_relayer.Common.{ℕ, ◌+◌, String, Bool, List, ltb, if◌then◌else◌}
use platform_relayer.Db.{Time}
use platform_relayer.Errors.{Error, Result, ok, err, sentinel, wrap, canceled}
use platform_relayer.Bridge.{BridgeTx}
use platform_relayer.Clients.Cosmos.{CosmosBridgeClient}
use platform_relayer.Clients.Cosmos.Submit
use platform_relayer.Clients.Evm.{EvmBridgeClient}
use platform_relayer.Clients.Evm.Submit as EvmSubmit

-- One call: when it gets the lock, whether the select takes the end of its context, how long the
-- submission takes and, for a call that is cancelled, how long it waited.
pub record Call : Type 0 where
  pub locked : Time
  pub cancels : Bool
  pub took : Time

-- When the wait for the delay ends.
unfoldable pub submission_start : Time → Time → Time → Time
submission_start last delay locked = if ltb locked (last + delay) then last + delay else locked

-- The end of a call.
unfoldable pub submission_end : Time → Time → Call → Time
unfolding submission_start
submission_end last delay call =
    if call.cancels
    then call.locked + call.took
    else submission_start last delay call.locked + call.took

-- The deferred function: it looks at `err`, which is nil also where `ctx.Err()` is returned.
abbrev pub cosmos_done : CosmosBridgeClient → Time → Result BridgeTx → CosmosBridgeClient
cosmos_done client end (ok sent) = record client { last_submission_time = end }
cosmos_done client end (err e) = client

abbrev pub evm_done : EvmBridgeClient → Time → Result BridgeTx → EvmBridgeClient
evm_done client end (ok sent) = record client { last_submission_time = end }
evm_done client end (err e) = client

abbrev pub sent_tx : String → String → Time → Result String → Result BridgeTx
sent_tx text address end (ok hash) =
    ok (record { hash = hash; timestamp = end; relayer_address = address })
sent_tx text address end (err e) = wrap text (err e)

-- The outcome of a call: the client, the history and the answer.
pub record Outcome (C H : Type 0) : Type 0 where
  pub client : C
  pub history : H
  pub result : Result BridgeTx

abbrev pub cosmos_outcome :
    CosmosBridgeClient
    → Time
    → Submit.History
    → Result BridgeTx
    → Outcome CosmosBridgeClient Submit.History
cosmos_outcome client end history r = record {
  client = cosmos_done client end r;
  history = history;
  result = r;
}

abbrev pub cosmos_submit :
    CosmosBridgeClient
    → Submit.Chain
    → List ℕ
    → Submit.History
    → Time
    → Result String
    → Outcome CosmosBridgeClient Submit.History
cosmos_submit client chain bz history end (err e) =
    cosmos_outcome client end history
      (wrap "converting and encoding signer address to bech32" (err e))
cosmos_submit client chain bz history end (ok address) =
    let sent = Submit.sign_and_submit client chain bz history in
    cosmos_outcome client end sent.0 (sent_tx "signing and submitting recv tx" address end sent.1)

-- `DeliverTx` of the Cosmos client.
unfoldable pub cosmos_deliver_tx :
    CosmosBridgeClient
    → Submit.Chain
    → Call
    → List ℕ
    → Submit.History
    → Outcome CosmosBridgeClient Submit.History
unfolding submission_end
cosmos_deliver_tx client chain call bz history =
    let end = submission_end client.last_submission_time client.tx_submission_delay call in
    if call.cancels
    then record {
      client = record client { last_submission_time = end };
      history = history;
      result = err (sentinel canceled);
    }
    else cosmos_submit client chain bz history end (chain.address client.prefix)

abbrev pub evm_outcome :
    EvmBridgeClient
    → Time
    → EvmSubmit.History × Result String
    → Outcome EvmBridgeClient EvmSubmit.History
evm_outcome client end (history, r) =
    let answer = sent_tx "signing and submitting data" client.signer_address end r in
    record { client = evm_done client end answer; history = history; result = answer }

-- `DeliverTx` of the EVM client.
unfoldable pub evm_deliver_tx :
    EvmBridgeClient
    → EvmSubmit.Chain
    → Call
    → List ℕ
    → String
    → EvmSubmit.History
    → Outcome EvmBridgeClient EvmSubmit.History
unfolding submission_end
evm_deliver_tx client chain call bz address history =
    let end = submission_end client.last_submission_time client.tx_submission_delay call in
    if call.cancels
    then record {
      client = record client { last_submission_time = end };
      history = history;
      result = err (sentinel canceled);
    }
    else evm_outcome client end (EvmSubmit.sign_and_submit_data client chain bz address history)
