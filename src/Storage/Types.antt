-- ===== src/Storage/Types.antt =====
-- pkg/storage/storage.go: the state, its constructor and the counts; the protobuf types that it
-- stores. A call returns its pair `(value, error)` as a `Reply`; the outer `Option` of a call is
-- `none` where Go panics. The lock is held through each call, so a call is one step.
use razpravljalnica.Base.{ℕ, ◌+◌, String, Bool, Option, none, some, [], ◌∷◌, length}
use razpravljalnica.Int64.{Int64, Int32}
use razpravljalnica.Dict.{Dict}

pub record User : Type 0 where
  pub id : Int64
  pub name : String

pub record Topic : Type 0 where
  pub id : Int64
  pub name : String

-- A timestamp is the number of nanoseconds; the program only copies it.
pub record Message : Type 0 where
  pub id : Int64
  pub topic_id : Int64
  pub user_id : Int64
  pub text : String
  pub created_at : ℕ
  pub likes : Int32

pub data StorageError : Type 0 where
  topic_not_found user_not_found msg_not_found : StorageError
  user_not_author user_already_liked invalid_limit : StorageError

pub record Storage : Type 0 where
  pub users : Dict Int64 User
  pub topics : Dict Int64 Topic
  pub messages : Dict Int64 (Dict Int64 Message)
  pub likes : Dict Int64 (Dict Int64 Bool)
  pub next_message_id : Dict Int64 Int64
  pub next_user_id : Int64
  pub next_topic_id : Int64

pub record Reply {ℓ} (A : Type ℓ) : Type ℓ where
  pub value : Option A
  pub error : Option StorageError

abbrev pub done {ℓ} : {A : Type ℓ} → A → Reply A
done a = record { value = some a; error = none }

abbrev pub fail {ℓ} : {A : Type ℓ} → StorageError → Reply A
fail e = record { value = none; error = some e }

unfoldable pub new_storage : Storage
new_storage = record {
  users = [];
  topics = [];
  messages = [];
  likes = [];
  next_message_id = [];
  next_user_id = 1;
  next_topic_id = 1;
}

sum_lengths : Dict Int64 (Dict Int64 Message) → ℕ
sum_lengths [] = 0
sum_lengths ((t, ms) ∷ rest) = length ms + sum_lengths rest

unfoldable pub get_message_count : Storage → ℕ
unfolding sum_lengths
get_message_count s = sum_lengths s.messages

unfoldable pub get_topic_count : Storage → ℕ
get_topic_count s = length s.topics

unfoldable pub get_user_count : Storage → ℕ
get_user_count s = length s.users
