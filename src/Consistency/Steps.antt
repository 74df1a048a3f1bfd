-- ===== src/Consistency/Steps.antt =====
-- Each step of a pipeline that succeeds leaves the transfer as the table has it.
use platform_relayer.Common.{ℕ, String, ◌≡◌, refl, ◌≢◌, ap, Option, none, some}
use platform_relayer.Errors.{Result, ok, err}
use platform_relayer.Db.{
  WriteAckStatus, PacketKey, Query, query_key, execute, update_transfer_recv_tx,
  update_transfer_ack_tx, update_transfer_timeout_tx, update_transfer_source_tx_finalized_time,
  update_transfer_write_ack_tx_finalized_time, update_transfer_write_ack_tx,
  update_transfer_recv_tx_gas_cost_usd, update_transfer_ack_tx_gas_cost_usd,
  update_transfer_timeout_tx_gas_cost_usd,
}
use platform_relayer.Transfer.{Transfer, transfer_key}
use platform_relayer.Bridge.{BridgeTx, World, Environment, M}
use platform_relayer.Processors.CheckRecvPacketDelivery
use platform_relayer.Processors.CheckPacketCommitment
use platform_relayer.Processors.CheckSendFinality
use platform_relayer.Processors.CheckTimeoutFinality
use platform_relayer.Processors.RetryTimeoutPacket
use platform_relayer.Processors.TimeoutTxGasCalculator
use platform_relayer.Processors.RetryRecvPacket
use platform_relayer.Processors.RecvTxGasCalculator
use platform_relayer.Processors.WaitForWriteAck
use platform_relayer.Processors.CheckWriteAckFinality
use platform_relayer.Processors.RetryAckPacket
use platform_relayer.Processors.AckTxGasCalculator
use platform_relayer.Consistency.{
  Synced, stored_progress, progress, follow, transfer_key-follow, Synced-execute, Synced-execute_ne,
}
use platform_relayer.Consistency.Outcomes.{
  Outcome, returned, failed, ask_rule, or_fail_rule, exec_rule, branch_rule,
}

-- What a successful step keeps, from the world and the transfer before to those after it.
pub record Kept (w : World) (t : Transfer) (w' : World) (t' : Transfer) : Type 0 where
  pub synced : Synced w'.rows t'
  pub same_key : transfer_key t' ≡ transfer_key t
  pub same_state : t'.state ≡ t.state

abbrev pub KeepsSync : (Environment → Transfer → M Transfer) → Type 0
KeepsSync process =
    (env : Environment) (t : Transfer) (w : World)
    → t.source_chain_id ≢ ""
    → Synced w.rows t
    → Outcome (Kept w t) (process env t w)

unchanged : {t : Transfer} {w : World} → Synced w.rows t → Kept w t w t
unchanged s = record { synced = s; same_key = refl; same_state = refl }

-- After an update of the transfer's own row, the transfer that follows it is kept.
written :
    {t : Transfer} {w : World} (q : Query)
    → query_key q ≡ transfer_key t
    → (follow q t).state ≡ t.state
    → Synced w.rows t
    → Kept w t (record w { rows = execute q w.rows }) (follow q t)
written {t} {w} q e f s = record {
  synced = Synced-execute q w.rows t e s;
  same_key = transfer_key-follow q t;
  same_state = f;
}

-- The step that looks for the packet's delivery keeps a transfer of a named chain as the table has it:
-- if it returns, with its key and state unchanged, and if it fails, with an error that has a text.
pub check_recv-KeepsSync :
    (env : Environment) (t : Transfer) (w : World)
    → t.source_chain_id ≢ ""
    → Synced w.rows t
    → Outcome (Kept w t) (CheckRecvPacketDelivery.process env t w)
unfolding CheckRecvPacketDelivery.process query_key follow
check_recv-KeepsSync env t w named s = ask_rule w _ _ _ λ client _. ask_rule w _ _ _ λ received _.
    branch_rule w _ _ _ (λ _. returned (unchanged s))
      (λ _. ask_rule w _ _ _ λ (tx : BridgeTx) _. exec_rule w env _ _ _ (
        returned (
          written (update_transfer_recv_tx tx.hash tx.timestamp tx.relayer_address (transfer_key t))
            refl refl s)))

pub record_found-KeepsSync :
    (o p : Option BridgeTx) → KeepsSync (λ env t. CheckPacketCommitment.record_found env t o p)
unfolding CheckPacketCommitment.record_found query_key follow
record_found-KeepsSync (some a) (some b) env t w named s = failed refl
record_found-KeepsSync (some a) none env t w named s = exec_rule w env _ _ _ (
    returned (
      written (update_transfer_ack_tx a.hash a.timestamp a.relayer_address (transfer_key t)) refl
        refl s))
record_found-KeepsSync none (some b) env t w named s = exec_rule w env _ _ _ (
    returned (
      written (update_transfer_timeout_tx b.hash b.timestamp b.relayer_address (transfer_key t))
        refl refl s))
record_found-KeepsSync none none env t w named s = failed refl

-- The step that looks for the packet's commitment, and records an ack or a timeout that another
-- relayer delivered, keeps a transfer of a named chain as the table has it: if it returns, with its
-- key and state unchanged, and if it fails, with an error that has a text.
pub check_commitment-KeepsSync :
    (env : Environment) (t : Transfer) (w : World)
    → t.source_chain_id ≢ ""
    → Synced w.rows t
    → Outcome (Kept w t) (CheckPacketCommitment.process env t w)
unfolding CheckPacketCommitment.process
check_commitment-KeepsSync env t w named s = ask_rule w _ _ _ λ client _.
    ask_rule w _ _ _ λ committed _.
      branch_rule w _ _ _ (λ _. returned (unchanged s))
        (λ _. record_found-KeepsSync _ _ env t w named s)

pub check_send_finality-KeepsSync :
    (offset : Option ℕ) → KeepsSync (CheckSendFinality.process offset)
unfolding CheckSendFinality.process query_key follow
check_send_finality-KeepsSync offset env t w named s = ask_rule w _ _ _ λ client _.
    ask_rule w _ _ _ λ finalized _.
      branch_rule w _ _ _ (λ _. failed refl)
        (λ _.
          branch_rule w _ _ _ (λ _. returned (unchanged s))
            (λ _. exec_rule w env _ _ _ (
              returned (
                written (update_transfer_source_tx_finalized_time env.now (transfer_key t)) refl
                  refl s))))

pub check_timeout_finality-KeepsSync :
    (offset : Option ℕ) → KeepsSync (CheckTimeoutFinality.process offset)
unfolding CheckTimeoutFinality.process
check_timeout_finality-KeepsSync offset env t w named s = ask_rule w _ _ _ λ client _.
    ask_rule w _ _ _
      λ finalized _. branch_rule w _ _ _ (λ _. failed refl) (λ _. returned (unchanged s))

pub retry_recv-KeepsSync : (chain : String) → KeepsSync (RetryRecvPacket.process chain)
unfolding RetryRecvPacket.process
retry_recv-KeepsSync chain env t w named s = ask_rule w _ _ _ λ client _.
    or_fail_rule w _ _ _ λ hash _. or_fail_rule w _ _ _ λ time _. ask_rule w _ _ _ λ retry _.
      branch_rule w _ _ _ (λ _. returned (unchanged s)) (λ _. exec_rule w env _ _ _ (failed refl))

pub retry_ack-KeepsSync : (chain : String) → KeepsSync (RetryAckPacket.process chain)
unfolding RetryAckPacket.process
retry_ack-KeepsSync chain env t w named s = ask_rule w _ _ _ λ client _.
    or_fail_rule w _ _ _ λ hash _. or_fail_rule w _ _ _ λ time _. ask_rule w _ _ _ λ retry _.
      branch_rule w _ _ _ (λ _. returned (unchanged s)) (λ _. exec_rule w env _ _ _ (failed refl))

pub retry_timeout-KeepsSync : (chain : String) → KeepsSync (RetryTimeoutPacket.process chain)
unfolding RetryTimeoutPacket.process
retry_timeout-KeepsSync chain env t w named s = ask_rule w _ _ _ λ client _.
    or_fail_rule w _ _ _ λ hash _. or_fail_rule w _ _ _ λ time _. ask_rule w _ _ _ λ retry _.
      branch_rule w _ _ _ (λ _. returned (unchanged s)) (λ _. exec_rule w env _ _ _ (failed refl))

pub recv_gas-KeepsSync :
    (id : String) (decimals : ℕ) → KeepsSync (RecvTxGasCalculator.process id decimals)
unfolding RecvTxGasCalculator.process query_key follow
recv_gas-KeepsSync id decimals env t w named s = ask_rule w _ _ _ λ client _.
    or_fail_rule w _ _ _ λ hash _. ask_rule w _ _ _ λ cost _. ask_rule w _ _ _ λ usd _.
      exec_rule w env _ _ _
        (returned (written (update_transfer_recv_tx_gas_cost_usd usd (transfer_key t)) refl refl s))

pub ack_gas-KeepsSync :
    (id : String) (decimals : ℕ) → KeepsSync (AckTxGasCalculator.process id decimals)
unfolding AckTxGasCalculator.process query_key follow
ack_gas-KeepsSync id decimals env t w named s = ask_rule w _ _ _ λ client _.
    or_fail_rule w _ _ _ λ hash _. ask_rule w _ _ _ λ cost _. ask_rule w _ _ _ λ usd _.
      exec_rule w env _ _ _
        (returned (written (update_transfer_ack_tx_gas_cost_usd usd (transfer_key t)) refl refl s))

pub timeout_gas-KeepsSync :
    (id : String) (decimals : ℕ) → KeepsSync (TimeoutTxGasCalculator.process id decimals)
unfolding TimeoutTxGasCalculator.process query_key follow
timeout_gas-KeepsSync id decimals env t w named s = ask_rule w _ _ _ λ client _.
    or_fail_rule w _ _ _ λ hash _. ask_rule w _ _ _ λ cost _. ask_rule w _ _ _ λ usd _.
      exec_rule w env _ _ _ (
        returned
          (written (update_transfer_timeout_tx_gas_cost_usd usd (transfer_key t)) refl refl s))

record_write_ack-KeepsSync :
    (hash : String) (status : WriteAckStatus)
    → KeepsSync (λ env t. WaitForWriteAck.record_write_ack env t hash status)
unfolding WaitForWriteAck.record_write_ack query_key follow
record_write_ack-KeepsSync hash status env t w named s = exec_rule w env _ _ _ (
    returned (
      written
        (update_transfer_write_ack_tx hash (WaitForWriteAck.time_or_zero t.recv_tx_time) status
          (transfer_key t))
        refl refl s))

settle-KeepsSync :
    (hash : String) (r : Result WriteAckStatus)
    → KeepsSync (λ env t. WaitForWriteAck.settle env t hash r)
unfolding WaitForWriteAck.settle
settle-KeepsSync hash (ok status) env t w named s =
    record_write_ack-KeepsSync hash status env t w named s
settle-KeepsSync hash (err e) env t w named s =
    branch_rule w _ _ _ (λ _. exec_rule w env _ _ _ (failed refl))
      (λ _.
        branch_rule w _ _ _ (λ _. failed refl)
          (λ _. record_write_ack-KeepsSync hash _ env t w named s))

-- The step that waits for the write ack keeps a transfer of a named chain as the table has it: if it
-- returns, with its key and state unchanged, and if it fails, with an error that has a text.
pub wait_for_write_ack-KeepsSync :
    (env : Environment) (t : Transfer) (w : World)
    → t.source_chain_id ≢ ""
    → Synced w.rows t
    → Outcome (Kept w t) (WaitForWriteAck.process env t w)
unfolding WaitForWriteAck.process
wait_for_write_ack-KeepsSync env t w named s =
    ask_rule w _ _ _
      λ client _. or_fail_rule w _ _ _ λ hash _. settle-KeepsSync hash _ env t w named s

-- The update of this step selects the empty key, so it leaves the rows of named chains alone.
pub check_write_ack_finality-KeepsSync :
    (offset : Option ℕ) → KeepsSync (CheckWriteAckFinality.process offset)
unfolding CheckWriteAckFinality.process query_key stored_progress progress
check_write_ack_finality-KeepsSync offset env t w named s = ask_rule w _ _ _ λ client _.
    or_fail_rule w _ _ _ λ hash _. ask_rule w _ _ _ λ finalized _.
      branch_rule w _ _ _ (λ _. failed refl)
        (λ _.
          branch_rule w _ _ _ (λ _. returned (unchanged s))
            (λ _. exec_rule w env _ _ _ (
              returned (record {
                synced =
                    Synced-execute_ne
                      (update_transfer_write_ack_tx_finalized_time env.now
                        CheckWriteAckFinality.zero_key)
                      w.rows t (λ e. named (ap (λ (k : PacketKey). k.chain) e)) s;
                same_key = refl;
                same_state = refl;
              }))))
