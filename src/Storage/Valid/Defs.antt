-- ===== src/Storage/Valid/Defs.antt =====
-- The invariant of the storage (pkg/storage/storage.go, `Storage`), field by field.
use razpravljalnica.Base.{nat_eq, arith, some, true, ◌<◌, ◌≡◌}
use razpravljalnica.Int64.{Int64, half}
use razpravljalnica.Dict.{lookup, contains}
use razpravljalnica.Storage.Types.{User, Topic, Message, Storage, new_storage}
use razpravljalnica.Storage.Messages.{counter, find_message}

-- `n` is a counter that has not wrapped; ids below it are in use.
abbrev pub IsCounter : Int64 → Type 0
IsCounter n = (0 < n) × (n < half)

-- A key in use, below its counter.
abbrev pub IsUsed : Int64 → Int64 → Type 0
IsUsed k n = (0 < k) × (k < n)

-- What a stored message says of its place, and of the storage around it.
pub record IsStored (s : Storage) (topic_id message_id : Int64) (msg : Message) : Type 0 where
  pub own_id : msg.id ≡ message_id
  pub own_topic : msg.topic_id ≡ topic_id
  pub used : IsUsed message_id (counter topic_id s.next_message_id)
  pub in_topic : contains topic_id s.topics ≡ true
  pub has_author : contains msg.user_id s.users ≡ true

pub record IsValid (s : Storage) : Type 0 where
  pub user_counter : IsCounter s.next_user_id
  pub topic_counter : IsCounter s.next_topic_id
  pub user_ids :
      (k : Int64) (u : User) → lookup k s.users ≡ some u → (u.id ≡ k) × IsUsed k s.next_user_id
  pub topic_ids :
      (k : Int64) (t : Topic) → lookup k s.topics ≡ some t → (t.id ≡ k) × IsUsed k s.next_topic_id
  pub topic_ready :
      (k : Int64)
      → contains k s.topics ≡ true
      → (contains k s.messages ≡ true) × IsCounter (counter k s.next_message_id)
  pub stored : (t m : Int64) (msg : Message) → find_message t m s ≡ some msg → IsStored s t m msg

pub new_storage-IsValid : IsValid new_storage
unfolding new_storage lookup
new_storage-IsValid = record {
  user_counter = omega arith;
  topic_counter = omega arith;
  user_ids = λ k u h. cc;
  topic_ids = λ k t h. cc;
  topic_ready = λ k h. cc;
  stored = λ t m msg h. cc;
}
