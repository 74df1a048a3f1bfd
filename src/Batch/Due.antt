-- ===== src/Batch/Due.antt =====
-- When the batch steps are due for one transfer.
use platform_relayer.Common.{◌≡◌, ◌≤◌, Bool, true, false, arith}
use platform_relayer.Db.{Time}
use platform_relayer.Transfer.{Transfer, is_timed_out, is_complete}
use platform_relayer.Batch.Recv
use platform_relayer.Batch.Ack
use platform_relayer.Batch.Timeout

-- For one transfer as it stands, the delivery of its packet and the delivery of its timeout are
-- never both due, also where the clock moves on between a test for the timeout and a later one
-- for the packet.
pub recv_timeout-exclusive :
    (now later : Time) (t : Transfer)
    → now ≤ later
    → Timeout.should_process now t ≡ true
    → Recv.should_process later t ≡ false
unfolding Timeout.should_process Recv.should_process is_timed_out
recv_timeout-exclusive now later t h due = ground arith

-- No delivery is due for a complete transfer whose write ack is at most submitted, timed out or
-- not: neither its packet nor, where it is received, its timeout, nor its ack.
pub complete-none_due :
    (success_acks error_acks : Bool) (now : Time) (t : Transfer)
    → is_complete success_acks error_acks t ≡ true
    → (Timeout.should_process now t ≡ false)
      × (Ack.should_process success_acks error_acks t ≡ false)
unfolding Timeout.should_process Ack.should_process is_complete
complete-none_due success_acks error_acks now t done = (ground arith, ground arith)
