-- ===== src/Node/Growth/Logs.antt =====
-- pkg/server, pkg/storage: a log of complete events is applied without a panic.
use razpravljalnica.Base.{
  nat_eq, All, List, Option, [], arith, none, refl, some, suc, subst, ◌+◌, ◌<◌, ◌∷◌, ◌≡◌, ◌≢◌, ℕ,
  length,
}
use razpravljalnica.Int64.{half}
use razpravljalnica.Dict.{lookup}
use razpravljalnica.Event.{
  Event, OpType, op_post, op_like, op_delete, op_update, op_create_user, op_create_topic,
}
use razpravljalnica.Storage.Types.{new_storage, Storage}
use razpravljalnica.Storage.Messages.{update_message, delete_message, like_message}
use razpravljalnica.Storage.Users.{create_user}
use razpravljalnica.Storage.Topics.{create_topic}
use razpravljalnica.Storage.Valid.Defs.{new_storage-IsValid}
use razpravljalnica.Storage.Valid.Writes.{
  update_message-IsValid, delete_message-IsValid, like_message-IsValid,
}
use razpravljalnica.Node.Replay.{transition, replay}
use razpravljalnica.Node.Growth.{Carries, IsComplete, IsWithin}
use razpravljalnica.Node.Growth.Steps.{
  post_message-IsWithin, same-IsWithin, update_message-counters, delete_message-counters,
  like_message-counters, create_user-IsWithin, create_topic-IsWithin,
}

from_request : {A : Type 0} (o : Option A) → o ≢ none → (a : A) × (o ≡ some a)
from_request none h = absurd (h refl)
from_request (some a) h = (a, refl)

-- An event that carries the request of its kind is applied to a valid storage without a panic, and
-- the storage that it leaves is valid; no counter moves by more than one.
pub transition-IsWithin :
    (event : Event) (k : ℕ) (s : Storage)
    → IsComplete event
    → IsWithin k s
    → k + 2 < half
    → (s' : Storage) × (transition event s ≡ some s') × IsWithin (k + 1) s'
unfolding transition
transition-IsWithin event k s complete w room = by_kind event.op refl complete
  where
    by_kind :
        (op : OpType)
        → event.op ≡ op
        → Carries op event
        → (s' : Storage) × (transition event s ≡ some s') × IsWithin (k + 1) s'
    by_kind op_post e carries =
        let (req, r) = from_request event.post_message carries in
        let (s', reply, did, after) =
          post_message-IsWithin req.topic_id req.user_id req.text event.event_at k s w room in
        (s', rw (transition, e, r, did) refl, after)
    by_kind op_update e carries =
        let (req, r) = from_request event.update_message carries in
        let (users, topics, messages) =
          update_message-counters req.topic_id req.user_id req.message_id req.text s in
        (
          (update_message req.topic_id req.user_id req.message_id req.text s).0,
          rw (transition, e, r) refl,
          same-IsWithin k s _ w
              (update_message-IsValid req.topic_id req.user_id req.message_id req.text s w.valid)
              users topics messages,
        )
    by_kind op_delete e carries =
        let (req, r) = from_request event.delete_message carries in
        let (users, topics, messages) =
          delete_message-counters req.topic_id req.user_id req.message_id s in
        (
          (delete_message req.topic_id req.user_id req.message_id s).0,
          rw (transition, e, r) refl,
          same-IsWithin k s _ w
              (delete_message-IsValid req.topic_id req.user_id req.message_id s w.valid) users
              topics messages,
        )
    by_kind op_like e carries =
        let (req, r) = from_request event.like_message carries in
        let (users, topics, messages) =
          like_message-counters req.topic_id req.user_id req.message_id s in
        (
          (like_message req.topic_id req.user_id req.message_id s).0,
          rw (transition, e, r) refl,
          same-IsWithin k s _ w
              (like_message-IsValid req.topic_id req.user_id req.message_id s w.valid) users topics
              messages,
        )
    by_kind op_create_user e carries =
        let (req, r) = from_request event.create_user carries in
        (
          (create_user req.name s).0,
          rw (transition, e, r) refl,
          create_user-IsWithin req.name k s w room,
        )
    by_kind op_create_topic e carries =
        let (req, r) = from_request event.create_topic carries in
        (
          (create_topic req.name s).0,
          rw (transition, e, r) refl,
          create_topic-IsWithin req.name k s w room,
        )

-- A log of such events is replayed without a panic, and the storage that it leaves is valid.
replay-IsWithin :
    (events : List Event) (k : ℕ) (s : Storage)
    → All IsComplete events
    → IsWithin k s
    → k + length events + 1 < half
    → (s' : Storage) × (replay events (some s) ≡ some s') × IsWithin (k + length events) s'
unfolding replay
replay-IsWithin [] k s complete w room = let same : k + 0 ≡ k = omega arith in (s, refl, rw same w)
replay-IsWithin (event ∷ events) k s complete w room =
    let (s1, one, w1) = transition-IsWithin event k s complete.0 w (omega arith) in
    let (s', rest, w') = replay-IsWithin events (k + 1) s1 complete.1 w1 (omega arith) in
    let same : k + 1 + length events ≡ k + suc (length events) = omega arith in
    (s', rw (replay, one) rest, subst (λ i. IsWithin i s') same w')

new_storage-IsWithin : IsWithin 0 new_storage
unfolding new_storage lookup
new_storage-IsWithin = record {
  valid = new_storage-IsValid;
  users = omega arith;
  topics = omega arith;
  messages = λ t. omega arith;
}

-- A log shorter than 2^63 - 1 of events that carry the request of their kind is applied to the
-- empty storage without a panic, and leaves a valid storage whose counters are at most one above
-- the length of the log.
pub replay-IsValid :
    (events : List Event)
    → All IsComplete events
    → length events + 1 < half
    → (s : Storage) × (replay events (some new_storage) ≡ some s) × IsWithin (length events) s
replay-IsValid events complete room =
    let (s, replayed, w) =
      replay-IsWithin events 0 new_storage complete new_storage-IsWithin (omega arith) in
    let same : 0 + length events ≡ length events = omega arith in
    (s, replayed, subst (λ i. IsWithin i s) same w)
