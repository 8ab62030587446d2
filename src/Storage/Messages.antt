-- ===== src/Storage/Messages.antt =====
-- pkg/storage/storage_messages.go, the writes. `none` is a panic: `post_message` writes into
-- `s.messages[topicId]`, which panics if that map is nil.
use razpravljalnica.Base.{
  nat_eq, ℕ, String, Bool, true, false, not, Option, none, some, [], ◌==◌, if◌then◌else◌,
}
use razpravljalnica.Int64.{Int64, inc, inc_32}
use razpravljalnica.Dict.{Dict, lookup, insert, erase, contains}
use razpravljalnica.Storage.Types.{
  Message, Storage, StorageError, Reply, done, fail, topic_not_found, user_not_found, msg_not_found,
  user_not_author, user_already_liked,
}

-- A read of a missing key of a map of maps gives the nil map, which reads as empty.
abbrev pub inner {ℓ} : {V : Type ℓ} → Int64 → Dict Int64 (Dict Int64 V) → Dict Int64 V
inner k m = elim (lookup k m) [ none ↦ [] | some d ↦ d ]

-- `m[k]` where a missing key reads as 0
abbrev pub counter : Int64 → Dict Int64 Int64 → Int64
counter k m = elim (lookup k m) [ none ↦ 0 | some n ↦ n ]

-- `m[k]` where a missing key reads as false
abbrev pub flag : Int64 → Dict Int64 Bool → Bool
flag k m = elim (lookup k m) [ none ↦ false | some b ↦ b ]

-- `s.messages[topicId][messageId]`
abbrev pub find_message : Int64 → Int64 → Storage → Option Message
find_message topic_id message_id s = lookup message_id (inner topic_id s.messages)

-- `s.messages[topicId][message.Id] = message`, into a map that is there
abbrev pub put_message : Int64 → Int64 → Message → Storage → Storage
put_message topic_id message_id message s = record s {
  messages = insert topic_id (insert message_id message (inner topic_id s.messages)) s.messages;
}

-- The first two checks of every write.
abbrev pub check_writer : Int64 → Int64 → Storage → Option StorageError
check_writer topic_id user_id s =
    if not (contains topic_id s.topics)
    then some topic_not_found
    else if not (contains user_id s.users)
    then some user_not_found
    else none

abbrev pub new_message : Int64 → Int64 → String → ℕ → Int64 → Message
new_message topic_id user_id text created_at message_id = record {
  id = message_id;
  topic_id = topic_id;
  user_id = user_id;
  text = text;
  created_at = created_at;
  likes = 0;
}

unfoldable pub post_message :
    Int64 → Int64 → String → ℕ → Storage → Option (Storage × Reply Message)
post_message topic_id user_id text created_at s = elim (check_writer topic_id user_id s) [
  | some e ↦ some (s, fail e)
  | none ↦
      let message_id = counter topic_id s.next_message_id in
      let message = new_message topic_id user_id text created_at message_id in
      elim (lookup topic_id s.messages) [
        | none ↦ none
        | some _ ↦ some (
          record (put_message topic_id message_id message s) {
            next_message_id = insert topic_id (inc message_id) s.next_message_id;
          },
          done message,
        )
      ]
]

unfoldable pub update_message : Int64 → Int64 → Int64 → String → Storage → Storage × Reply Message
update_message topic_id user_id message_id text s = elim (check_writer topic_id user_id s) [
  | some e ↦ (s, fail e)
  | none ↦ elim (find_message topic_id message_id s) [
    | none ↦ (s, fail msg_not_found)
    | some message ↦
        let updated : Message = record message { text = text } in
        if not (message.user_id == user_id)
        then (s, fail user_not_author)
        else (put_message topic_id message_id updated s, done updated)
  ]
]

unfoldable pub delete_message : Int64 → Int64 → Int64 → Storage → Storage × Reply Message
delete_message topic_id user_id message_id s = elim (check_writer topic_id user_id s) [
  | some e ↦ (s, fail e)
  | none ↦ elim (find_message topic_id message_id s) [
    | none ↦ (s, fail msg_not_found)
    | some message ↦ if not (message.user_id == user_id) then (s, fail user_not_author) else (
      record s {
        messages = insert topic_id (erase message_id (inner topic_id s.messages)) s.messages;
      },
      done message,
    )
  ]
]

-- The map of the message's likes is made before the check, also if the check then refuses.
abbrev pub with_likes_map : Int64 → Storage → Storage
with_likes_map message_id s = record s {
  likes = if contains message_id s.likes then s.likes else insert message_id [] s.likes;
}

abbrev pub set_like : Int64 → Int64 → Storage → Storage
set_like message_id user_id s = record s {
  likes = insert message_id (insert user_id true (inner message_id s.likes)) s.likes;
}

-- A second like returns the message with the error.
unfoldable pub like_message : Int64 → Int64 → Int64 → Storage → Storage × Reply Message
like_message topic_id user_id message_id s = elim (check_writer topic_id user_id s) [
  | some e ↦ (s, fail e)
  | none ↦ elim (find_message topic_id message_id s) [
    | none ↦ (s, fail msg_not_found)
    | some message ↦
        let s' = with_likes_map message_id s in
        let liked : Message = record message { likes = inc_32 message.likes } in
        if flag user_id (inner message_id s'.likes)
        then (s', record { value = some message; error = some user_already_liked })
        else (put_message topic_id message_id liked (set_like message_id user_id s'), done liked)
  ]
]
