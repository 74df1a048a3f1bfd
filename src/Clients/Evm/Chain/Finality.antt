-- ===== src/Clients/Evm/Chain/Finality.antt =====
-- The two tests for finality of shared/bridges/ibcv2/evm_bridge_client.go against each other.
use platform_relayer.Common.{ℕ, ◌≡◌, refl, ◌-◌, ◌<◌, ◌≤◌, String, Option, none, some, leb, arith}
use platform_relayer.Db.{pos}
use platform_relayer.Errors.{ok}
use platform_relayer.Clients.Answers.{unix, map_not_found}
use platform_relayer.Clients.Evm.{Receipt, Header, latest, finalized, at_height, Node}
use platform_relayer.Clients.Evm.Chain.{
  reached, reached_before, is_block_finalized, is_tx_finalized, is_timestamp_finalized,
}

-- A node that has all blocks up to the latest one, numbered, none earlier than the one before; it has no
-- later block.
pub record HasBlocks (node : Node) (block : ℕ → Header) (last final : ℕ) : Type 0 where
  pub numbered : (n : ℕ) → n ≤ last → (block n).number ≡ n
  pub ordered : (m n : ℕ) → m ≤ n → n ≤ last → (block m).time ≤ (block n).time
  pub at_height_lem : (n : ℕ) → n ≤ last → node.header (at_height n) ≡ ok (block n)
  pub latest_lem : node.header latest ≡ ok (block last)
  pub finalized_lem : node.header finalized ≡ ok (block final)
  pub bounded : final ≤ last

-- No block before this one has its time.
abbrev pub IsFirstOfTime : (ℕ → Header) → ℕ → Type 0
IsFirstOfTime block m = (n : ℕ) → n < m → (block n).time < (block m).time

reached-leb :
    {node : Node} {block : ℕ → Header} {last final : ℕ}
    → HasBlocks node block last final
    → (m n : ℕ) → IsFirstOfTime block m
    → n ≤ last
    → reached (unix (pos (block m).time)) (block n) ≡ leb m n
unfolding reached unix
reached-leb {block} h m n first there = ground (arith, h.ordered m n, first n, there)

-- Where the times of a node's blocks never decrease, for a tx in the first block of its time, which may be
-- above the node's latest: that the tx is finalized and that the time of its block is are the same, by the finalized
-- block and by any offset.
pub is_timestamp_finalized-is_tx_finalized :
    (node : Node) (block : ℕ → Header) (last final : ℕ) (hash : String) (receipt : Receipt)
    (offset : Option ℕ)
    → HasBlocks node block last final
    → node.receipt hash ≡ ok receipt
    → IsFirstOfTime block receipt.block_number
    → is_timestamp_finalized node (unix (pos (block receipt.block_number).time)) offset
      ≡ is_tx_finalized node hash offset
unfolding is_timestamp_finalized is_tx_finalized is_block_finalized map_not_found reached_before
is_timestamp_finalized-is_tx_finalized node block last final hash receipt none h found first =
    rw
      (
        found,
        h.finalized_lem,
        reached-leb h receipt.block_number final first h.bounded,
        h.numbered final h.bounded,
      )
      refl
is_timestamp_finalized-is_tx_finalized node block last final hash receipt (some offset) h found
      first =
    rw
      (
        found,
        h.latest_lem,
        h.numbered last (omega arith),
        h.at_height_lem (last - offset) (omega arith),
        reached-leb h receipt.block_number (last - offset) first (omega arith),
      )
      (ground arith)
