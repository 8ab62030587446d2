-- ===== src/Tests/Data.antt =====
-- A small storage: the user 1, the topics 1 and 2, and a message of that user in each.
use razpravljalnica.Base.{nat_eq, arith, refl}
use razpravljalnica.Dict.{lookup, insert}
use razpravljalnica.Storage.Types.{Message, Storage, new_storage}
use razpravljalnica.Storage.Messages.{like_message}
use razpravljalnica.Storage.Users.{create_user}
use razpravljalnica.Storage.Topics.{create_topic}
use razpravljalnica.Storage.Valid.Defs.{IsValid, new_storage-IsValid}
use razpravljalnica.Storage.Valid.Creates.{create_user-IsValid, create_topic-IsValid}
use razpravljalnica.Storage.Valid.Writes.{posted, posted-IsValid}

abbrev pub with_topics : Storage
with_topics = (create_topic "rust" (create_topic "go" (create_user "ana" new_storage).0).0).0

abbrev pub with_messages : Storage
with_messages = posted 2 1 "borrow" 20 (posted 1 1 "hello" 10 with_topics)

abbrev pub hello : Message
hello = record { id = 1; topic_id = 1; user_id = 1; text = "hello"; created_at = 10; likes = 0 }

-- after a like of the first message by its author
abbrev pub liked : Storage
liked = (like_message 1 1 1 with_messages).0

pub with_topics-IsValid : IsValid with_topics
unfolding create_user create_topic new_storage
with_topics-IsValid =
    create_topic-IsValid "rust" _
      (create_topic-IsValid "go" _ (create_user-IsValid "ana" _ new_storage-IsValid (omega arith))
        (omega arith))
      (omega arith)

pub with_messages-IsValid : IsValid with_messages
unfolding create_user create_topic new_storage lookup insert
with_messages-IsValid =
    posted-IsValid 2 1 "borrow" 20 _
      (posted-IsValid 1 1 "hello" 10 with_topics with_topics-IsValid (omega arith) refl)
      (omega arith) refl
