-- ===== src/Examples/Chains.antt =====
-- Concrete nodes of a Cosmos chain and of an EVM chain, and what the bridge clients make of them.
use platform_relayer.Common.{
  ℕ, ◌≡◌, refl, ◌+◌, ◌*◌, String, true, false, [], ◌∷◌, none, some, arith, ◌↔◌, inl, inr,
}
use platform_relayer.Db.{pos}
use platform_relayer.Errors.{ok, err, external, message}
use platform_relayer.Bridge.{PacketInfo}
use platform_relayer.Batch.Hex.{decode_string}
use platform_relayer.Clients.Answers.{unix, error_acknowledgement, says_not_found}
use platform_relayer.Clients.Number.{itoa}
use platform_relayer.Clients.Once.{
  do_once, enter, runs, lookup, insert, is_timed_out, new_once_with_key,
}
use platform_relayer.Clients.Once
use platform_relayer.Clients.Once.Laws as OnceLaws
use platform_relayer.Clients.Cosmos
use platform_relayer.Clients.Cosmos.Chain as CosmosChain
use platform_relayer.Clients.Cosmos.Packets as CosmosPackets
use platform_relayer.Clients.Cosmos.Packets.Laws as CosmosLaws
use platform_relayer.Clients.Cosmos.Packets.Sent as CosmosSent
use platform_relayer.Clients.Evm
use platform_relayer.Clients.Evm.Chain as EvmChain
use platform_relayer.Clients.Evm.Packets as EvmPackets
use platform_relayer.Clients.Evm.Commitment.Distinct as Distinct
use platform_relayer.Clients.Evm.Chain.Finality as Finality
use platform_relayer.Clients.Acks.{WriteAck, Promised}
use platform_relayer.Clients.Cosmos.Packets.Attributes.{has_key, Each}
use platform_relayer.Clients.Acks.Agree as Agree
use platform_relayer.Clients.Retry as Retry
use platform_relayer.Clients.Waiting.{wait_for_chain, wait_for_tx, cosmos_tx_round, evm_tx_round}
use platform_relayer.Clients.Waiting.Loops as Loops

-- A packet's ack is the universal error.
abbrev refused : WriteAck
refused = record {
  sequence = 7;
  source_client = "client-a";
  dest_client = "client-b";
  acknowledgements = error_acknowledgement ∷ [];
}

abbrev acked : Cosmos.Event
acked = record {
  kind = "write_acknowledgement";
  attributes =
      CosmosLaws.attribute "packet_source_client" "client-a"
      ∷ CosmosLaws.attribute "packet_dest_client" "client-b"
      ∷ CosmosLaws.attribute "packet_sequence" "7"
      ∷ CosmosLaws.attribute "packet_timeout_timestamp" "1700000000"
      ∷ CosmosLaws.attribute "encoded_packet_hex" "0AFF"
      ∷ CosmosLaws.attribute "encoded_acknowledgement_hex" "0A20"
      ∷ CosmosLaws.attribute "msg_index" "0"
      ∷ [];
}

abbrev sent : Cosmos.Event
sent = record {
  kind = "send_packet";
  attributes =
      CosmosLaws.attribute "packet_source_client" "client-a"
      ∷ CosmosLaws.attribute "packet_dest_client" "client-b"
      ∷ CosmosLaws.attribute "packet_sequence" "7"
      ∷ CosmosLaws.attribute "packet_timeout_timestamp" "1700000000"
      ∷ CosmosLaws.attribute "encoded_packet_hex" "0AFF"
      ∷ CosmosLaws.attribute "msg_index" "0"
      ∷ [];
}

abbrev sent_v1 : Cosmos.Event
sent_v1 = record {
  kind = "send_packet";
  attributes =
      CosmosLaws.attribute "packet_sequence" "3"
      ∷ CosmosLaws.attribute "packet_timeout_timestamp" "1700000000"
      ∷ CosmosLaws.attribute "packet_src_port" "transfer"
      ∷ [];
}

abbrev moved : Cosmos.Event
moved = record { kind = "transfer"; attributes = [] }

abbrev result : Cosmos.ResultTx
result = record {
  hash = "AB";
  height = 5;
  code = 0;
  events = moved ∷ sent_v1 ∷ sent ∷ acked ∷ [];
  tx = [];
}

abbrev cosmos_node : Cosmos.Node
cosmos_node = record {
  now = 100;
  tx = λ bytes. ok result;
  tx_search = λ query. ok (result ∷ []);
  latest_header = ok (some 500);
  header = λ height. ok (some 400);
  packet_receipt = λ client n. ok true;
  packet_commitment = λ client n. ok tt;
  is_not_found_code = λ e. false;
  unmarshal_ack = λ bytes. ok (error_acknowledgement ∷ []);
  decode_tx = λ bytes. ok [];
  fee_of = λ bytes denom. ok (some 0);
}

abbrev cosmos : Cosmos.CosmosBridgeClient
cosmos = Cosmos.new_cosmos_bridge_client "chain-a" "cosmos" "stake" 0

abbrev log : Evm.Log
log = record { topics = 1 ∷ []; payload = []; block_number = 3; tx_hash = "0xab" }

abbrev receipt : Evm.Receipt
receipt = record {
  status = 1;
  logs = none ∷ some log ∷ [];
  block_number = 3;
  effective_gas_price = 2;
  gas_used = 10;
}

-- A chain of ten blocks, twelve seconds apart; the eighth is finalized.
abbrev block : ℕ → Evm.Header
block n = record { number = n; time = n * 12; base_fee = 5 }

abbrev header_of : Evm.Block → Evm.Header
header_of Evm.latest = block 10
header_of Evm.finalized = block 8
header_of (Evm.at_height n) = block n

abbrev evm_node : Evm.Node
evm_node = record {
  now = 100;
  router_abi = ok tt;
  event_id = λ event. 1;
  receipt = λ hash. ok receipt;
  header = λ b. ok (header_of b);
  make_topics = λ id client n. ok (id ∷ []);
  filter_logs = λ topics. ok (log ∷ []);
  parse_write_acknowledgement = λ l. ok (Agree.evm_ack refused);
  parse_send_packet = λ l. err (message "no");
  parses = λ event l. ok tt;
  transaction_by_hash = λ hash. ok [];
  sender = λ chain tx. ok "0xsender";
  keccak256 = λ path. 1;
  get_commitment = λ path. ok 0;
}

abbrev evm : Evm.EvmBridgeClient
evm = Evm.new_evm_bridge_client "1" "0xrelayer" none none

found : Cosmos.tx_result cosmos cosmos_node "AB" (171 ∷ []) ≡ ok result
unfolding Cosmos.tx_result do_once enter lookup insert is_timed_out
found = refl

seen : Evm.tx_receipt evm evm_node "0xab" ≡ ok receipt
unfolding Evm.tx_receipt do_once enter lookup insert is_timed_out
seen = refl

decodes : decode_string "AB" ≡ some (171 ∷ [])
unfolding decode_string
decodes = refl

seven-Prints : CosmosSent.Prints "7" 7
unfolding itoa
seven-Prints = record { fits = omega arith; printed = refl }

writes : CosmosLaws.Writes cosmos_node acked refused
unfolding decode_string has_key Each
writes = record {
  sequence = "7";
  encoded = "0A20";
  bytes = 10 ∷ 32 ∷ [];
  kind = refl;
  says_sequence = (
    refl,
    (inl refl, (inl refl, (inr refl, (inl refl, (inl refl, (inl refl, (inl refl, tt))))))),
  );
  says_source = (
    refl,
    (inr refl, (inl refl, (inl refl, (inl refl, (inl refl, (inl refl, (inl refl, tt))))))),
  );
  says_dest = (
    refl,
    (inl refl, (inr refl, (inl refl, (inl refl, (inl refl, (inl refl, (inl refl, tt))))))),
  );
  says_ack = (
    refl,
    (inl refl, (inl refl, (inl refl, (inl refl, (inl refl, (inr refl, (inl refl, tt))))))),
  );
  fits = omega arith;
  printed = seven-Prints.printed;
  decodes = refl;
  unmarshals = refl;
}

written : CosmosLaws.Written cosmos_node result.events (refused ∷ [])
written = CosmosLaws.Written.other moved refl (
    CosmosLaws.Written.other sent_v1 refl (
      CosmosLaws.Written.other sent refl
        (CosmosLaws.Written.write writes CosmosLaws.Written.none_left)))

written_logs : Agree.WrittenLogs evm_node receipt.logs (refused ∷ [])
written_logs =
    Agree.WrittenLogs.other none tt
      (Agree.WrittenLogs.write log [] refused refl refl Agree.WrittenLogs.none_left)

packet_write_ack_status-promised_example :
    Promised 7 "client-a" "client-b"
      (refused ∷ [])
      (CosmosPackets.packet_write_ack_status cosmos cosmos_node "AB" 7 "client-a" "client-b")
    × Promised 7 "client-a" "client-b"
        (refused ∷ [])
        (EvmPackets.packet_write_ack_status evm evm_node "0xab" 7 "client-a" "client-b")
packet_write_ack_status-promised_example =
    Agree.packet_write_ack_status-promised cosmos evm cosmos_node evm_node "AB" "0xab" (171 ∷ [])
      result receipt (refused ∷ []) 7 "client-a" "client-b" (omega arith) decodes found written refl
      seen written_logs

abbrev packet : PacketInfo
packet = record {
  sequence = 7;
  source_client = "client-a";
  destination_client = "client-b";
  timeout_timestamp = 63835596800000000000;
  timestamp = 0;
}

commitment_path-inj_example :
    (◌≡◌ {A = String} "client-a" "client-a") × (◌≡◌ {A = ℕ} 2 2) × (◌≡◌ {A = ℕ} 7 7)
commitment_path-inj_example =
    Distinct.commitment_path-inj "client-a" "client-a" 2 2 7 7 (omega arith) (omega arith) refl

has_blocks : Finality.HasBlocks evm_node block 10 8
has_blocks = record {
  numbered = λ n h. refl;
  ordered = λ m n h bound. omega (arith, h);
  at_height_lem = λ n h. refl;
  latest_lem = refl;
  finalized_lem = refl;
  bounded = omega arith;
}

is_timestamp_finalized-is_tx_finalized_example :
    EvmChain.is_timestamp_finalized evm_node (unix (pos (block 3).time)) (some 4)
    ≡ EvmChain.is_tx_finalized evm_node "AB" (some 4)
is_timestamp_finalized-is_tx_finalized_example =
    Finality.is_timestamp_finalized-is_tx_finalized evm_node block 10 8 "AB" receipt (some 4)
      has_blocks refl (λ n h. omega (arith, h))

should_retry_tx_iff_example :
    ((CosmosChain.should_retry_tx cosmos cosmos_node "AB" 10 20 ≡ ok true)
      ↔ Retry.DueAgain Retry.CosmosFailed
          (Cosmos.tx_result cosmos cosmos_node "AB" (171 ∷ []))
          (CosmosPackets.header_time "getting latest block header" cosmos_node.latest_header)
          30)
    × ((EvmChain.should_retry_tx evm evm_node "0xab" 10 20 ≡ ok true)
        ↔ Retry.DueAgain Retry.EvmFailed
            (Evm.tx_receipt evm evm_node "0xab")
            (EvmChain.header_time "getting latest block header" (evm_node.header Evm.latest))
            30)
should_retry_tx_iff_example =
    Retry.should_retry_tx_iff cosmos evm cosmos_node evm_node "AB" "0xab" (171 ∷ []) 10 20 decodes

wait_for_chain-returns_example :
    wait_for_chain 7 (λ i. false) (λ i. ok (10 + 2 * i)) 15 ≡ some (ok tt)
wait_for_chain-returns_example =
    Loops.wait_for_chain-returns (λ i. false) (λ i. 10 + 2 * i) 15 6 (λ i. refl) (λ i. omega arith)
      (omega arith)

wait_for_tx-waits_example :
    (wait_for_tx cosmos_tx_round 100
        (λ i. false)
        (λ i. i * 3000000000)
        (λ i. err (external "tx not found"))
      ≡ none)
    × (wait_for_tx evm_tx_round 100
          (λ i. false)
          (λ i. i * 3000000000)
          (λ i. err (external "tx not found"))
        ≡ none)
unfolding says_not_found
wait_for_tx-waits_example =
    Loops.wait_for_tx-waits (λ i. false) (λ i. i * 3000000000) (λ i. external "tx not found") 100
      (λ i. refl) (λ i. refl)

abbrev call : String → ℕ → ℕ → OnceLaws.Call ℕ
call key time answer = record { time = time; key = key; answer = ok answer }

abbrev once_served : Once.OnceWithKey ℕ
once_served = OnceLaws.serve (call "CD" 10 0 ∷ []) (new_once_with_key 100 5)

first_runs : runs 50 "AB" once_served ≡ true
unfolding runs enter lookup insert is_timed_out do_once OnceLaws.serve
first_runs = refl

serve-shared_example :
    (runs 149 "AB" (
        OnceLaws.serve
          (call "AB" 60 2 ∷ call "CD" 120 3 ∷ [])
          (do_once 50 "AB" (ok 1) once_served).0)
      ≡ false)
    × ((do_once 149 "AB" (ok 9) (
          OnceLaws.serve
            (call "AB" 60 2 ∷ call "CD" 120 3 ∷ [])
            (do_once 50 "AB" (ok 1) once_served).0)).1
        ≡ ok 1)
serve-shared_example =
    OnceLaws.serve-shared 100 5 (call "CD" 10 0 ∷ []) (call "AB" 60 2 ∷ call "CD" 120 3 ∷ []) 50 149
      "AB" (ok 1) (ok 9) first_runs (omega arith, (omega arith, tt))
