-- ===== src/Tests/Buffers.antt =====
-- pkg/server: the log, the acknowledgments that are waited for and the subscriptions.
use razpravljalnica.Base.{
  nat_eq, string_eq, ℕ, List, arith, refl, none, some, ◌≡◌, ◌∷◌, [], false, true, All, length,
}
use razpravljalnica.Outcome.{returns, blocks}
use razpravljalnica.Event.{Event, bare_event, op_create_user}
use razpravljalnica.EventBuffer.{EventBuffer, new_event_buffer, append}
use razpravljalnica.EventBuffer.Invariant.{IsLog, new_event_buffer-IsLog, append-IsLog}
use razpravljalnica.AckSync.{
  EventApplicationResult, AckSynchronization, new_ack_synchronization, open_ack_channel,
  signal_ack_if_waiting, close_ack_channel, wait_for_ack,
}
use razpravljalnica.AckSync.Handshake.{SameElsewhere, ack_handshake}
use razpravljalnica.Subscriptions.{
  SubscriptionManager, SubscribeTopicRequest, new_subscription_manager, add_event_if_not_nil,
  open_subscription_channel, clear_subscription, add_subscription_request,
  validate_subscription_token, generate_subscription_token, letter,
}
use razpravljalnica.Subscriptions.Tokens.{
  IsAlphanumeric, validate_subscription_token_once, generate_subscription_token_lem,
}
use razpravljalnica.Subscriptions.Open.{IsOpen, new_subscription_manager-IsOpen}
use razpravljalnica.Subscriptions.Open.Sends.{add_event_if_not_nil-IsOpen}
use razpravljalnica.Subscriptions.Open.Lists.{
  open_subscription_channel-IsOpen, clear_subscription-IsOpen,
}
use razpravljalnica.Tests.Data.{hello}

abbrev first : Event
first = bare_event 0 op_create_user 5

abbrev one_event : EventBuffer
one_event = append first new_event_buffer

one_event-IsLog : IsLog one_event
unfolding new_event_buffer
one_event-IsLog = append-IsLog first new_event_buffer new_event_buffer-IsLog refl (omega arith)

abbrev result : EventApplicationResult
result = record { message = some hello; user = none; topic = none; err = none }

abbrev failure : EventApplicationResult
failure = record { message = none; user = none; topic = none; err = none }

ack_handshake_example :
    (wait_for_ack 4 (open_ack_channel 4 new_ack_synchronization) ≡ blocks)
    × (signalled : AckSynchronization) × (received : AckSynchronization) × (signal_ack_if_waiting 4
          result
          (open_ack_channel 4 new_ack_synchronization)
        ≡ returns signalled)
    × (wait_for_ack 4 signalled ≡ returns (received, result))
    × (signal_ack_if_waiting 4 failure (close_ack_channel 4 received)
        ≡ returns (close_ack_channel 4 received))
    × SameElsewhere 4 new_ack_synchronization (close_ack_channel 4 received)
ack_handshake_example = ack_handshake 4 result failure new_ack_synchronization

abbrev open_4 : AckSynchronization
open_4 = record { ack_channels = (4, []) ∷ [] }

abbrev signalled_4 : AckSynchronization
signalled_4 = record { ack_channels = (4, result ∷ []) ∷ [] }

validate_subscription_token_once_example :
    let given =
      (add_subscription_request (record { user_id = 3 }) (some "t") new_subscription_manager).0 in
    let used = (validate_subscription_token "t" 3 given).0 in
    (validate_subscription_token "t" 8 given ≡ (given, false))
    × ((validate_subscription_token "t" 3 given).1 ≡ true)
    × (validate_subscription_token "t" 3 used ≡ (used, false))
validate_subscription_token_once_example =
    validate_subscription_token_once (record { user_id = 3 }) "t" 8 3 new_subscription_manager
      (λ e. absurd (omega arith))

abbrev token : List ℕ
token = b'c' ∷ b'9' ∷ []

generate_subscription_token_lem_example : (length token ≡ 2) × All IsAlphanumeric token
unfolding generate_subscription_token letter
generate_subscription_token_lem_example =
    generate_subscription_token_lem 2 (some (64 ∷ 61 ∷ [])) token refl

-- A subscription that names the topic 1 twice.
abbrev request : SubscribeTopicRequest
request = record {
  topic_id = 1 ∷ 2 ∷ 1 ∷ [];
  user_id = 3;
  from_message_id = 1;
  subscribe_token = "t";
}

abbrev subscribed : SubscriptionManager
subscribed = (open_subscription_channel request new_subscription_manager).0

subscribed-IsOpen : IsOpen subscribed
subscribed-IsOpen =
    open_subscription_channel-IsOpen request new_subscription_manager
      new_subscription_manager-IsOpen

clear_subscription-IsOpen_example :
    (sm' : SubscriptionManager) × (clear_subscription "t" subscribed ≡ some sm') × IsOpen sm'
clear_subscription-IsOpen_example = clear_subscription-IsOpen "t" subscribed subscribed-IsOpen

add_event_if_not_nil-IsOpen_example :
    (sm' : SubscriptionManager) × (add_event_if_not_nil (some first) (some hello) subscribed
      ≡ some sm')
    × IsOpen sm'
add_event_if_not_nil-IsOpen_example =
    add_event_if_not_nil-IsOpen (some first) (some hello) subscribed subscribed-IsOpen
