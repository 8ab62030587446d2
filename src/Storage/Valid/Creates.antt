-- ===== src/Storage/Valid/Creates.antt =====
-- pkg/storage/storage_user.go, storage_topics.go: creating a user or a topic keeps the invariant.
use razpravljalnica.Base.{nat_eq, String, [], arith, ◌+◌, ◌<◌}
use razpravljalnica.Int64.{Int64, half}
use razpravljalnica.Dict.{Dict, lookup, lookup-insert}
use razpravljalnica.Storage.Types.{Topic, Message, Storage}
use razpravljalnica.Storage.Users.{create_user}
use razpravljalnica.Storage.Topics.{create_topic}
use razpravljalnica.Storage.Valid.Defs.{IsValid}

pub create_user-IsValid :
    (name : String) (s : Storage)
    → IsValid s
    → s.next_user_id + 1 < half
    → IsValid (create_user name s).0
unfolding create_user
create_user-IsValid name s v room = record {
  user_counter = omega (arith, v.user_counter);
  topic_counter = v.topic_counter;
  user_ids = λ k u h. ground (
    arith,
    v.user_ids k u,
    v.user_counter,
    lookup-insert s.next_user_id k (record { id = s.next_user_id; name = name }) s.users,
  );
  topic_ids = v.topic_ids;
  topic_ready = v.topic_ready;
  stored = λ t m msg h. ground (
    arith,
    v.stored t m msg h,
    lookup-insert s.next_user_id msg.user_id (record { id = s.next_user_id; name = name }) s.users,
  );
}

pub create_topic-IsValid :
    (name : String) (s : Storage)
    → IsValid s
    → s.next_topic_id + 1 < half
    → IsValid (create_topic name s).0
unfolding create_topic lookup
create_topic-IsValid name s v room = record {
  user_counter = v.user_counter;
  topic_counter = omega (arith, v.topic_counter);
  user_ids = v.user_ids;
  topic_ids = λ k t h.
      ground
        (arith, v.topic_ids k t, v.topic_counter, lookup-insert s.next_topic_id k topic s.topics);
  topic_ready = λ k h. ground (
    arith,
    v.topic_ready k,
    lookup-insert s.next_topic_id k topic s.topics,
    lookup-insert {V = Dict Int64 Message} s.next_topic_id k [] s.messages,
    lookup-insert {V = Int64} s.next_topic_id k 1 s.next_message_id,
  );
  stored = λ t m msg h. ground (
    arith,
    v.stored t m msg,
    lookup-insert s.next_topic_id t topic s.topics,
    lookup-insert {V = Dict Int64 Message} s.next_topic_id t [] s.messages,
    lookup-insert {V = Int64} s.next_topic_id t 1 s.next_message_id,
  );
}
  where
    topic : Topic
    topic = record { id = s.next_topic_id; name = name }
