-- ===== src/EventBuffer.antt =====
-- pkg/server/event_buffer.go: the log of a node, indexed by sequence number. `none` for a call
-- that changes the buffer is a panic. The lock is held through each call, so a call is one step.
pub mod Invariant
use razpravljalnica.Base.{
  nat_eq, ℕ, Option, none, some, List, [], ◌∷◌, ◌++◌, get_elem?, if◌then◌else◌, length, not, ◌&&◌,
  ◌==◌, ◌||◌,
}
use razpravljalnica.Int64.{Int64, minus_one, inc, dec, slt, sle}
use razpravljalnica.Event.{
  op_post, op_like, op_delete, op_update, op_create_user, op_create_topic, Event, bare_event,
  PostMessageRequest, UpdateMessageRequest, DeleteMessageRequest, LikeMessageRequest,
  CreateUserRequest, CreateTopicRequest,
}

pub record EventBuffer : Type 0 where
  pub events : List Event
  pub last_confirmed : Int64
  pub next_event_seq : Int64

unfoldable pub new_event_buffer : EventBuffer
new_event_buffer = record { events = []; last_confirmed = minus_one; next_event_seq = 0 }

-- `eb.events = append(eb.events, event); eb.nextEventSeq++`
abbrev pub append : Event → EventBuffer → EventBuffer
append event eb = record eb {
  events = eb.events ++ event ∷ [];
  next_event_seq = inc eb.next_event_seq;
}

unfoldable pub create_message_event : PostMessageRequest → ℕ → EventBuffer → EventBuffer × Event
create_message_event message now eb =
    let event : Event = record (bare_event eb.next_event_seq op_post now) {
      post_message = some message;
    } in
    (append event eb, event)

unfoldable pub update_message_event : UpdateMessageRequest → ℕ → EventBuffer → EventBuffer × Event
update_message_event message now eb =
    let event : Event = record (bare_event eb.next_event_seq op_update now) {
      update_message = some message;
    } in
    (append event eb, event)

unfoldable pub delete_message_event : DeleteMessageRequest → ℕ → EventBuffer → EventBuffer × Event
delete_message_event message now eb =
    let event : Event = record (bare_event eb.next_event_seq op_delete now) {
      delete_message = some message;
    } in
    (append event eb, event)

unfoldable pub like_message_event : LikeMessageRequest → ℕ → EventBuffer → EventBuffer × Event
like_message_event like now eb =
    let event : Event = record (bare_event eb.next_event_seq op_like now) {
      like_message = some like;
    } in
    (append event eb, event)

unfoldable pub create_user_event : CreateUserRequest → ℕ → EventBuffer → EventBuffer × Event
create_user_event user now eb =
    let event : Event = record (bare_event eb.next_event_seq op_create_user now) {
      create_user = some user;
    } in
    (append event eb, event)

unfoldable pub create_topic_event : CreateTopicRequest → ℕ → EventBuffer → EventBuffer × Event
create_topic_event topic now eb =
    let event : Event = record (bare_event eb.next_event_seq op_create_topic now) {
      create_topic = some topic;
    } in
    (append event eb, event)

unfoldable pub add_event : Event → EventBuffer → Option EventBuffer
add_event event eb =
    if slt event.sequence_number eb.next_event_seq
    then some eb
    else if not (event.sequence_number == eb.next_event_seq)
    then none
    else some (append event eb)

-- `int64(len(eb.events))`
abbrev pub len : EventBuffer → Int64
len eb = length eb.events

-- `eb.events[i]` with a signed index that has been found not to be negative
abbrev pub event_at : Int64 → EventBuffer → Option Event
event_at i eb = get_elem? eb.events i

-- The inner `Option` is the pointer that is returned, nil for an event that is confirmed already.
unfoldable pub acknowledge_event : Int64 → EventBuffer → Option (EventBuffer × Option Event)
acknowledge_event n eb =
    if sle n eb.last_confirmed
    then some (eb, none)
    else if n == inc eb.last_confirmed && slt n (len eb)
    then elim (event_at n eb) [
      | none ↦ none
      | some event ↦ some (record eb { last_confirmed = inc eb.last_confirmed }, some event)
    ]
    else none

-- A read out of range is nil.
unfoldable pub get_event : Int64 → EventBuffer → Option Event
get_event n eb = if slt n 0 || sle (len eb) n then none else event_at n eb

unfoldable pub get_last_received_and_applied : EventBuffer → Int64 × Int64
get_last_received_and_applied eb = (dec eb.next_event_seq, eb.last_confirmed)

unfoldable pub get_last_applied : EventBuffer → Int64
get_last_applied eb = eb.last_confirmed

unfoldable pub get_last_received : EventBuffer → Int64
get_last_received eb = dec eb.next_event_seq

unfoldable pub get_next_event_seq : EventBuffer → Int64
get_next_event_seq eb = eb.next_event_seq
