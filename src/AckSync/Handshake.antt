-- ===== src/AckSync/Handshake.antt =====
-- pkg/server/ack_synchronization.go: one write's handshake, from the opening of its channel to the
-- close, whatever other writes do.
use razpravljalnica.Base.{nat_eq, none, ◌≡◌, ◌≢◌, List, [], arith, ◌∷◌}
use razpravljalnica.Int64.{Int64}
use razpravljalnica.Dict.{Dict, lookup, insert, lookup-insert, lookup-erase, lookup-insert_self}
use razpravljalnica.Outcome.{returns, blocks}
use razpravljalnica.AckSync.{
  EventApplicationResult, AckSynchronization, returns, blocks, open_ack_channel,
  signal_ack_if_waiting, close_ack_channel, wait_for_ack,
}

-- The channel of another write is as before.
abbrev pub SameElsewhere : Int64 → AckSynchronization → AckSynchronization → Type 0
SameElsewhere n a b = (k : Int64) → k ≢ n → lookup k b.ack_channels ≡ lookup k a.ack_channels

-- A write that has opened its channel waits until a result is signalled for its number and
-- receives the first one; after the close further signals are dropped, and the channels of other
-- writes are as they were.
pub ack_handshake :
    (n : Int64) (r late : EventApplicationResult) (a : AckSynchronization)
    → let opened = open_ack_channel n a in
      (wait_for_ack n opened ≡ blocks)
      × (signalled : AckSynchronization) × (received : AckSynchronization) × (signal_ack_if_waiting
            n r opened
          ≡ returns signalled)
      × (wait_for_ack n signalled ≡ returns (received, r))
      × (signal_ack_if_waiting n late (close_ack_channel n received)
          ≡ returns (close_ack_channel n received))
      × SameElsewhere n a (close_ack_channel n received)
unfolding open_ack_channel signal_ack_if_waiting close_ack_channel wait_for_ack
ack_handshake n r late a = (
  ground (arith, lookup-insert_self {V = List EventApplicationResult} n [] c),
  record { ack_channels = c' },
  record { ack_channels = insert n [] c' },
  ground (arith, lookup-insert_self {V = List EventApplicationResult} n [] c),
  ground (arith, lookup-insert_self n (r ∷ []) (insert n [] c)),
  ground (arith, lookup-erase n n (insert n [] c')),
  λ k ne. ground (
    arith,
    lookup-erase n k (insert n [] c'),
    lookup-insert {V = List EventApplicationResult} n k [] c',
    lookup-insert n k (r ∷ []) (insert n [] c),
    lookup-insert {V = List EventApplicationResult} n k [] c,
  ),
)
  where
    c : Dict Int64 (List EventApplicationResult)
    c = a.ack_channels

    c' : Dict Int64 (List EventApplicationResult)
    c' = insert n (r ∷ []) (insert n [] c)

-- Where a channel is open for a number and a signal for it has returned, a second signal before
-- the first is received waits.
pub signal_ack_twice :
    (n : Int64) (r late : EventApplicationResult) (a signalled : AckSynchronization)
    → lookup n a.ack_channels ≢ none
    → signal_ack_if_waiting n r a ≡ returns signalled
    → signal_ack_if_waiting n late signalled ≡ blocks
unfolding signal_ack_if_waiting
signal_ack_twice n r late a signalled open_channel h =
    ground (arith, lookup-insert_self n (r ∷ []) a.ack_channels)
