-- ===== src/AckSync.antt =====
-- pkg/server/ack_synchronization.go: a channel of capacity 1 for each write that waits for its
-- acknowledgment. A channel is the list of what it holds; a call that cannot go on yet is `blocks`.
pub mod Handshake
use razpravljalnica.Base.{nat_eq, List, Option, [], none, some, ◌∷◌}
use razpravljalnica.Int64.{Int64}
use razpravljalnica.Dict.{Dict, lookup, insert, erase}
use razpravljalnica.Outcome.{Outcome, returns, blocks, panics}
use razpravljalnica.Storage.Types.{Message, User, Topic, StorageError}

-- `EventApplicationResult` of pkg/server/server.go
pub record EventApplicationResult : Type 0 where
  pub message : Option Message
  pub user : Option User
  pub topic : Option Topic
  pub err : Option StorageError

pub record AckSynchronization : Type 0 where
  pub ack_channels : Dict Int64 (List EventApplicationResult)

unfoldable pub new_ack_synchronization : AckSynchronization
new_ack_synchronization = record { ack_channels = [] }

unfoldable pub open_ack_channel : Int64 → AckSynchronization → AckSynchronization
open_ack_channel n as_state = record { ack_channels = insert n [] as_state.ack_channels }

-- A send into a channel that is full waits.
unfoldable pub signal_ack_if_waiting :
    Int64 → EventApplicationResult → AckSynchronization → Outcome AckSynchronization
signal_ack_if_waiting n result as_state = elim (lookup n as_state.ack_channels) [
  | none ↦ returns as_state
  | some [] ↦ returns (record { ack_channels = insert n (result ∷ []) as_state.ack_channels })
  | some (_ ∷ _) ↦ blocks
]

unfoldable pub close_ack_channel : Int64 → AckSynchronization → AckSynchronization
close_ack_channel n as_state = record { ack_channels = erase n as_state.ack_channels }

unfoldable pub wait_for_ack :
    Int64 → AckSynchronization → Outcome (AckSynchronization × EventApplicationResult)
wait_for_ack n as_state = elim (lookup n as_state.ack_channels) [
  | none ↦ panics
  | some [] ↦ blocks
  | some (result ∷ rest) ↦
      returns (record { ack_channels = insert n rest as_state.ack_channels }, result)
]
