-- ===== src/Storage/Authors.antt =====
-- pkg/storage/storage_messages.go: who may post, update and delete, on every branch, and what the
-- writes leave alone.
use razpravljalnica.Base.{
  nat_eq, Bool, Option, String, arith, false, if◌then◌else◌, none, some, true, ◌&&◌, ◌==◌, ◌≡◌, ◌≢◌,
}
use razpravljalnica.Int64.{Int64}
use razpravljalnica.Dict.{insert, erase, contains, lookup-insert, lookup-erase}
use razpravljalnica.Storage.Types.{
  Message, Storage, StorageError, topic_not_found, user_not_found, msg_not_found, user_not_author,
}
use razpravljalnica.Storage.Messages.{
  inner, find_message, put_message, update_message, delete_message,
}
use razpravljalnica.Storage.Valid.Writes.{find_message-put_message}

-- The error that a writer of an existing message gets, told from what the storage holds.
abbrev pub verdict : Bool → Bool → Option Message → Int64 → Option StorageError
verdict false _ _ u = some topic_not_found
verdict true false _ u = some user_not_found
verdict true true none u = some msg_not_found
verdict true true (some msg) u = if msg.user_id == u then none else some user_not_author

-- The error of an update of message `m` of topic `t` by user `u`.
abbrev pub verdict_in : Int64 → Int64 → Int64 → Storage → Option StorageError
verdict_in t u m s = verdict (contains t s.topics) (contains u s.users) (find_message t m s) u

-- An update and a delete have the same error, which `verdict_in` tells from what the storage
-- holds.
pub update_delete_verdict :
    (t u m : Int64) (text : String) (s : Storage)
    → ((update_message t u m text s).1.error ≡ verdict_in t u m s)
      × ((delete_message t u m s).1.error ≡ verdict_in t u m s)
unfolding update_message delete_message
update_delete_verdict t u m text s = ground arith

-- An update or a delete that is refused changes nothing.
pub refused_write_lem :
    (t u m : Int64) (text : String) (s : Storage)
    → verdict_in t u m s ≢ none
    → ((update_message t u m text s).0 ≡ s) × ((delete_message t u m s).0 ≡ s)
unfolding update_message delete_message
refused_write_lem t u m text s refused = ground arith

update_accepted :
    (t u m : Int64) (text : String) (s : Storage)
    → (update_message t u m text s).1.error ≡ none
    → (msg : Message) × (find_message t m s ≡ some msg)
      × (msg.user_id ≡ u)
      × ((update_message t u m text s).0 ≡ put_message t m (record msg { text = text }) s)
unfolding update_message
update_accepted t u m text s h = ground arith

abbrev erased : Int64 → Int64 → Storage → Storage
erased t m s = record s { messages = insert t (erase m (inner t s.messages)) s.messages }

delete_accepted :
    (t u m : Int64) (s : Storage)
    → (delete_message t u m s).1.error ≡ none
    → (msg : Message) × ((delete_message t u m s).1.value ≡ some msg)
      × (find_message t m s ≡ some msg)
      × (msg.user_id ≡ u)
      × ((delete_message t u m s).0 ≡ erased t m s)
unfolding delete_message
delete_accepted t u m s h = ground arith

find_message-erase :
    (t m : Int64) (s : Storage) (t' m' : Int64)
    → find_message t' m' (erased t m s)
      ≡ (if t == t' && m == m' then none else find_message t' m' s)
find_message-erase t m s t' m' = ground (
  arith,
  lookup-insert t t' (erase m (inner t s.messages)) s.messages,
  lookup-erase m m' (inner t s.messages),
)

-- An accepted update replaces the text of a message of its author and leaves every other message
-- as it was.
pub update_message_lem :
    (t u m : Int64) (text : String) (s : Storage)
    → (update_message t u m text s).1.error ≡ none
    → (msg : Message) × (find_message t m s ≡ some msg)
      × (msg.user_id ≡ u)
      × ((t' m' : Int64)
          → find_message t' m' (update_message t u m text s).0 ≡ (
              if t == t' && m == m'
              then some (record msg { text = text })
              else find_message t' m' s))
update_message_lem t u m text s h =
    let (msg, found, author, after) = update_accepted t u m text s h in
    (
      msg,
      found,
      author,
      λ t' m'. rw after (find_message-put_message t m (record msg { text = text }) s t' m'),
    )

-- An accepted delete returns and removes a message of its author and no other.
pub delete_message_lem :
    (t u m : Int64) (s : Storage)
    → (delete_message t u m s).1.error ≡ none
    → (msg : Message) × ((delete_message t u m s).1.value ≡ some msg)
      × (find_message t m s ≡ some msg)
      × (msg.user_id ≡ u)
      × ((t' m' : Int64)
          → find_message t' m' (delete_message t u m s).0
            ≡ (if t == t' && m == m' then none else find_message t' m' s))
delete_message_lem t u m s h =
    let (msg, result, found, author, after) = delete_accepted t u m s h in
    (msg, result, found, author, λ t' m'. rw after (find_message-erase t m s t' m'))
