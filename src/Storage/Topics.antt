-- ===== src/Storage/Topics.antt =====
-- pkg/storage/storage_topics.go
use razpravljalnica.Base.{nat_eq, String, List, [], map}
use razpravljalnica.Int64.{Int64, inc}
use razpravljalnica.Dict.{insert}
use razpravljalnica.Storage.Types.{Topic, Storage, Reply, done}

unfoldable pub create_topic : String → Storage → Storage × Reply Topic
create_topic name s = (
  record s {
    topics = insert topic_id topic s.topics;
    next_topic_id = inc s.next_topic_id;
    messages = insert topic_id [] s.messages;
    next_message_id = insert topic_id 1 s.next_message_id;
  },
  done topic,
)
  where
    topic_id : Int64
    topic_id = s.next_topic_id

    topic : Topic
    topic = record { id = topic_id; name = name }

unfoldable pub list_topics : Storage → Reply (List Topic)
list_topics s = done (map (λ entry. entry.1) s.topics)
