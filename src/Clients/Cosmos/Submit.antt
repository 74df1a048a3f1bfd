-- ===== src/Clients/Cosmos/Submit.antt =====
-- How `CosmosBridgeClient` puts the messages of a tx on the chain: `DeliverTx`, `signAndSubmit`,
-- `signAndSubmitMessages`, `getEstimatedGasLimit` and `getTxFee` of
-- shared/bridges/ibcv2/cosmos_bridge_client.go.
pub mod Planned
use platform_relayer.Common.{
  ℕ, ◌+◌, ◌*◌, ◌/◌, String, Bool, true, false, not, ◌&&◌, List, [], ◌∷◌, Option, none, some, ltb,
  ◌==◌, str_eq, if◌then◌else◌,
}
use platform_relayer.Db.{Time}
use platform_relayer.Errors.{Error, Result, ok, err, message, wrap, sentinel, canceled}
use platform_relayer.Bridge.{BridgeTx}
use platform_relayer.Clients.Answers.{◌>>=◌}
use platform_relayer.Clients.Cosmos.{CosmosBridgeClient}

-- An `sdk.Msg`, by its type URL and its bytes.
pub record SdkMsg : Type 0 where
  pub type_url : String
  pub raw : List ℕ

pub record Account : Type 0 where
  pub number : ℕ
  pub sequence : ℕ

pub record Coin : Type 0 where
  pub denom : String
  pub amount : ℕ

pub record UnsignedTx : Type 0 where
  pub msgs : List SdkMsg
  pub gas_limit : ℕ
  pub fee : Option Coin
  pub account : Account

pub record BroadcastResult : Type 0 where
  pub code : ℕ  -- uint32
  pub hash : String

-- The txs that the node took, the latest first.
abbrev pub History : Type 0
History = List (List SdkMsg)

-- What the node answers after a history, and what the signer and the codecs answer. The gas price is
-- a float: whether it is above 0, and its product with a gas limit, cut to a whole number.
pub record Chain : Type 0 where
  pub unmarshal_body : List ℕ → Result (List (List ℕ))
  pub unpack_any : List ℕ → Result SdkMsg
  pub address : String → Result String
  pub account_info : History → String → Result (Option Account)
  pub set_msgs : List SdkMsg → Result (Unit {0})
  pub sign : String → UnsignedTx → Result (List ℕ)
  pub encode : List ℕ → Result (List ℕ)
  pub simulate : History → List ℕ → Result (Option ℕ)
  pub broadcast_tx_sync : History → List ℕ → Result BroadcastResult
  pub has_gas_price : Bool
  pub gas_price_times : ℕ → ℕ

abbrev pub update_client_url : String
update_client_url = "/ibc.core.client.v1.MsgUpdateClient"

abbrev pub is_update : SdkMsg → Bool
is_update m = str_eq m.type_url update_client_url

-- `getTxFee`
unfoldable pub get_tx_fee : CosmosBridgeClient → Chain → ℕ → Result Coin
get_tx_fee client chain gas_limit =
    if str_eq client.fee_denom ""
    then err (message "fee denom not set")
    else if chain.has_gas_price && ltb 0 client.fee_amount
    then err (message "gas price and fee amount cannot both be set")
    else if chain.has_gas_price
    then ok (record { denom = client.fee_denom; amount = chain.gas_price_times gas_limit + 1 })
    else ok (record { denom = client.fee_denom; amount = client.fee_amount })

-- `account.GetInfo()`
abbrev pub some_or : {A : Type 0} → String → Option A → Result A
some_or text none = err (message text)
some_or text (some a) = ok a

-- `signer.Sign` and `TxEncoder`
unfoldable pub signed_bytes : CosmosBridgeClient → Chain → UnsignedTx → Result (List ℕ)
signed_bytes client chain tx = do
  signed ← wrap "signing tx" (chain.sign client.chain_id tx)
  wrap "encoding signed tx" (chain.encode signed)

-- `getEstimatedGasLimit`: one and a half times the gas used, rounded up, which the float64 of the
-- source gives exactly below 2 ^ 51.
unfoldable pub get_estimated_gas_limit :
    CosmosBridgeClient → Chain → History → List SdkMsg → Account → Result ℕ
unfolding signed_bytes
get_estimated_gas_limit client chain history msgs account = do
  bytes ←
      signed_bytes client chain
        (record { msgs = msgs; gas_limit = 0; fee = none; account = account })
  info ← wrap "simulating tx to get estimated gas usage" (chain.simulate history bytes)
  gas ← some_or "got nil gas info after simulating tx" info
  ok ((gas * 3 + 1) / 2)

-- `if client.feeDenom != "" { ... }`
unfoldable pub set_fee : CosmosBridgeClient → Chain → ℕ → Result (Option Coin)
unfolding get_tx_fee
set_fee client chain gas_limit =
    if str_eq client.fee_denom ""
    then ok none
    else (do fee ← wrap "getting tx fee" (get_tx_fee client chain gas_limit); ok (some fee))

-- `signAndSubmitMessages` up to the broadcast: the bytes of the signed tx.
unfoldable pub prepare : CosmosBridgeClient → Chain → History → List SdkMsg → Result (List ℕ)
unfolding get_estimated_gas_limit set_fee signed_bytes
prepare client chain history msgs = do
  address ← wrap "converting and encoding signer address to bech32" (chain.address client.prefix)
  info ← wrap "getting account info" (chain.account_info history address)
  account ← some_or "got no info for cosmos signer account" info
  set ← wrap "setting message in tx" (chain.set_msgs msgs)
  gas_limit ←
      wrap "getting estimated gas limit for tx"
        (get_estimated_gas_limit client chain history msgs account)
  fee ← set_fee client chain gas_limit
  signed_bytes client chain
      (record { msgs = msgs; gas_limit = gas_limit; fee = fee; account = account })

-- The answer to the broadcast.
abbrev pub after_broadcast :
    List SdkMsg → History → Result BroadcastResult → History × Result String
after_broadcast msgs history (err e) = (history, wrap "broadcasting tx synchronously" (err e))
after_broadcast msgs history (ok result) =
    if result.code == 0
    then (msgs ∷ history, ok result.hash)
    else (history, err (message "broadcasting cosmos tx returned error code"))

abbrev pub broadcast : Chain → List SdkMsg → History → Result (List ℕ) → History × Result String
broadcast chain msgs history (err e) = (history, err e)
broadcast chain msgs history (ok bytes) =
    after_broadcast msgs history (chain.broadcast_tx_sync history bytes)

-- `signAndSubmitMessages`
unfoldable pub sign_and_submit_messages :
    CosmosBridgeClient → Chain → List SdkMsg → History → History × Result String
unfolding prepare
sign_and_submit_messages client chain msgs history =
    broadcast chain msgs history (prepare client chain history msgs)

-- The loop that unpacks the messages of the body.
unfoldable pub unpack : Chain → List (List ℕ) → Result (List SdkMsg)
unpack chain [] = ok []
unpack chain (any ∷ body) = do
  msg ← wrap "unpacking msg into sdk.Msg" (chain.unpack_any any)
  msgs ← unpack chain body
  ok (msg ∷ msgs)

-- `numClientUpdates`
unfoldable pub client_updates : List SdkMsg → ℕ
client_updates [] = 0
client_updates (m ∷ msgs) = (if is_update m then 1 else 0) + client_updates msgs

-- After the submission of one update: the loop goes on, or ends with the error.
abbrev pub after_update :
    {A : Type 0} → (History → History × Result A) → History × Result String → History × Result A
after_update next (history, ok hash) = next history
after_update next (history, err e) =
    (history, wrap "submitting individual update client message" (err e))

abbrev pub keep : SdkMsg → History × Result (List SdkMsg) → History × Result (List SdkMsg)
keep m (history, ok msgs) = (history, ok (m ∷ msgs))
keep m (history, err e) = (history, err e)

-- The loop that submits each update by itself; it gives the other messages.
unfoldable pub submit_updates :
    CosmosBridgeClient → Chain → List SdkMsg → History → History × Result (List SdkMsg)
unfolding sign_and_submit_messages
submit_updates client chain [] history = (history, ok [])
submit_updates client chain (m ∷ msgs) history = elim (is_update m) [
  | true ↦
      after_update (submit_updates client chain msgs)
        (sign_and_submit_messages client chain (m ∷ []) history)
  | false ↦ keep m (submit_updates client chain msgs history)
]

abbrev pub submit_rest :
    (List SdkMsg → History → History × Result String)
    → History × Result (List SdkMsg)
    → History × Result String
submit_rest submit (history, ok msgs) = submit msgs history
submit_rest submit (history, err e) = (history, err e)

-- The part of `signAndSubmit` after the messages are unpacked.
unfoldable pub submit_all :
    CosmosBridgeClient → Chain → List SdkMsg → History → History × Result String
unfolding submit_updates sign_and_submit_messages client_updates
submit_all client chain msgs history =
    if ltb 1 (client_updates msgs)
    then submit_rest (sign_and_submit_messages client chain)
        (submit_updates client chain msgs history)
    else sign_and_submit_messages client chain msgs history

-- The messages of a tx's bytes; a tx without any is an error.
unfoldable pub unpack_body : Chain → Result (List (List ℕ)) → Result (List SdkMsg)
unfolding unpack
unpack_body chain (err e) = wrap "unmarshaling tx bytes" (err e)
unpack_body chain (ok []) = err (message "no messages to relay")
unpack_body chain (ok (any ∷ body)) = unpack chain (any ∷ body)

abbrev pub submit_unpacked :
    (List SdkMsg → History → History × Result String)
    → History
    → Result (List SdkMsg)
    → History × Result String
submit_unpacked submit history (ok msgs) = submit msgs history
submit_unpacked submit history (err e) = (history, err e)

-- `signAndSubmit`
unfoldable pub sign_and_submit :
    CosmosBridgeClient → Chain → List ℕ → History → History × Result String
unfolding submit_all unpack_body
sign_and_submit client chain bz history =
    submit_unpacked (submit_all client chain) history (unpack_body chain (chain.unmarshal_body bz))
