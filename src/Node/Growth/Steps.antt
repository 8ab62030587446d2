-- ===== src/Node/Growth/Steps.antt =====
-- pkg/storage: how far one operation takes the counters of the storage.
use razpravljalnica.Base.{nat_eq, arith, some, String, ◌+◌, ◌<◌, ◌≡◌, ◌≤◌, ℕ}
use razpravljalnica.Int64.{Int64, half, inc}
use razpravljalnica.Dict.{lookup-insert}
use razpravljalnica.Storage.Types.{Storage, Message, Reply}
use razpravljalnica.Storage.Messages.{
  counter, post_message, update_message, delete_message, like_message,
}
use razpravljalnica.Storage.Users.{create_user}
use razpravljalnica.Storage.Topics.{create_topic}
use razpravljalnica.Storage.Valid.Defs.{IsValid}
use razpravljalnica.Storage.Valid.Creates.{create_user-IsValid, create_topic-IsValid}
use razpravljalnica.Storage.Valid.Writes.{post_message-IsValid}
use razpravljalnica.Node.Growth.{IsWithin}

post_message-counters :
    (t u : Int64) (text : String) (at : ℕ) (s s' : Storage) (r : Reply Message)
    → post_message t u text at s ≡ some (s', r)
    → (s'.next_user_id ≡ s.next_user_id) × (s'.next_topic_id ≡ s.next_topic_id)
unfolding post_message
post_message-counters t u text at s s' r e = ground arith

post_message-counter :
    (t u : Int64) (text : String) (at : ℕ) (k : ℕ) (s s' : Storage) (r : Reply Message)
    → IsWithin k s
    → k + 2 < half
    → post_message t u text at s ≡ some (s', r)
    → (t' : Int64) → counter t' s'.next_message_id ≤ k + 1 + 1
unfolding post_message
post_message-counter t u text at k s s' r w room e t' = ground (
  arith,
  w.messages t,
  w.messages t',
  lookup-insert t t' (inc (counter t s.next_message_id)) s.next_message_id,
)

pub post_message-IsWithin :
    (t u : Int64) (text : String) (at : ℕ) (k : ℕ) (s : Storage)
    → IsWithin k s
    → k + 2 < half
    → (s' : Storage) × (r : Reply Message) × (post_message t u text at s ≡ some (s', r))
      × IsWithin (k + 1) s'
post_message-IsWithin t u text at k s w room =
    let (s', r, e, v) = post_message-IsValid t u text at s w.valid (omega (arith, w.messages t)) in
    let (users, topics) = post_message-counters t u text at s s' r e in
    (
      s',
      r,
      e,
      record {
        valid = v;
        users = omega (arith, w.users);
        topics = omega (arith, w.topics);
        messages = post_message-counter t u text at k s s' r w room e;
      },
    )

pub same-IsWithin :
    (k : ℕ) (s s' : Storage)
    → IsWithin k s
    → IsValid s'
    → s'.next_user_id ≡ s.next_user_id
    → s'.next_topic_id ≡ s.next_topic_id
    → s'.next_message_id ≡ s.next_message_id
    → IsWithin (k + 1) s'
same-IsWithin k s s' w v users topics messages = record {
  valid = v;
  users = omega (arith, w.users);
  topics = omega (arith, w.topics);
  messages = λ t. ground (arith, w.messages t);
}

pub update_message-counters :
    (t u m : Int64) (text : String) (s : Storage)
    → let s' = (update_message t u m text s).0 in
      (s'.next_user_id ≡ s.next_user_id)
      × (s'.next_topic_id ≡ s.next_topic_id)
      × (s'.next_message_id ≡ s.next_message_id)
unfolding update_message
update_message-counters t u m text s = ground arith

pub delete_message-counters :
    (t u m : Int64) (s : Storage)
    → let s' = (delete_message t u m s).0 in
      (s'.next_user_id ≡ s.next_user_id)
      × (s'.next_topic_id ≡ s.next_topic_id)
      × (s'.next_message_id ≡ s.next_message_id)
unfolding delete_message
delete_message-counters t u m s = ground arith

pub like_message-counters :
    (t u m : Int64) (s : Storage)
    → let s' = (like_message t u m s).0 in
      (s'.next_user_id ≡ s.next_user_id)
      × (s'.next_topic_id ≡ s.next_topic_id)
      × (s'.next_message_id ≡ s.next_message_id)
unfolding like_message
like_message-counters t u m s = ground arith

pub create_user-IsWithin :
    (name : String) (k : ℕ) (s : Storage)
    → IsWithin k s
    → k + 2 < half
    → IsWithin (k + 1) (create_user name s).0
unfolding create_user
create_user-IsWithin name k s w room = record {
  valid = create_user-IsValid name s w.valid (omega (arith, w.users));
  users = omega (arith, w.users);
  topics = omega (arith, w.topics);
  messages = λ t. omega (arith, w.messages t);
}

pub create_topic-IsWithin :
    (name : String) (k : ℕ) (s : Storage)
    → IsWithin k s
    → k + 2 < half
    → IsWithin (k + 1) (create_topic name s).0
unfolding create_topic
create_topic-IsWithin name k s w room = record {
  valid = create_topic-IsValid name s w.valid (omega (arith, w.topics));
  users = omega (arith, w.users);
  topics = omega (arith, w.topics);
  messages = λ t. ground (arith, w.messages t, lookup-insert s.next_topic_id t 1 s.next_message_id);
}
