-- ===== src/Tests/Storages.antt =====
-- pkg/storage on the small storage.
use razpravljalnica.Base.{
  nat_eq, arith, refl, none, some, ◌≡◌, ◌∷◌, [], ◌==◌, ◌&&◌, if◌then◌else◌, suc,
}
use razpravljalnica.Int64.{Int64}
use razpravljalnica.Dict.{lookup, insert}
use razpravljalnica.Storage.Types.{
  Message, Storage, new_storage, done, user_already_liked, msg_not_found,
}
use razpravljalnica.Storage.Users.{create_user}
use razpravljalnica.Storage.Topics.{create_topic}
use razpravljalnica.Storage.Messages.{
  post_message, update_message, delete_message, like_message, new_message, find_message, counter,
  inner,
}
use razpravljalnica.Storage.Reads.{get_messages_with_limit, get_messages_from_topics, scan_within}
use razpravljalnica.Storage.Likes.{like_message_blocks_other_topics}
use razpravljalnica.Storage.Posts.{post_message_lem, get-post}
use razpravljalnica.Storage.Authors.{
  update_message_lem, delete_message_lem, update_delete_verdict, refused_write_lem,
}
use razpravljalnica.Storage.Scan.{scan_within-fuel}
use razpravljalnica.Storage.Several.{get_messages_from_topics_lem}
use razpravljalnica.Tests.Data.{with_messages, with_messages-IsValid, hello}

get-post_example :
    (s' : Storage) × (post_message 1 1 "again" 30 with_messages
      ≡ some (s', done (new_message 1 1 "again" 30 2)))
    × (get_messages_with_limit 1 2 1 s' ≡ done (new_message 1 1 "again" 30 2 ∷ []))
unfolding create_user create_topic new_storage lookup insert
get-post_example =
    get-post 1 1 "again" 30 with_messages with_messages-IsValid refl refl (omega arith)

post_message_lem_example :
    (s' : Storage) × (post_message 2 1 "x" 40 with_messages
      ≡ some (s', done (new_message 2 1 "x" 40 2)))
    × (find_message 2 2 with_messages ≡ none)
    × (counter 2 s'.next_message_id ≡ 3)
    × ((t m : Int64)
        → find_message t m s' ≡ (
            if 2 == t && 2 == m
            then some (new_message 2 1 "x" 40 2)
            else find_message t m with_messages))
unfolding create_user create_topic new_storage lookup insert
post_message_lem_example = post_message_lem 2 1 "x" 40 with_messages with_messages-IsValid refl refl

get_messages_from_topics_lem_example :
    get_messages_from_topics (2 ∷ 1 ∷ []) 1 suc 0 with_messages
    ≡ (1, done (new_message 2 1 "borrow" 20 1 ∷ hello ∷ []))
unfolding create_user create_topic new_storage lookup insert
get_messages_from_topics_lem_example =
    get_messages_from_topics_lem (2 ∷ 1 ∷ []) 1 suc 0 with_messages with_messages-IsValid
      (omega arith)

scan_within-fuel_example :
    scan_within 9 1 6 2 (inner 1 with_messages.messages)
    ≡ scan_within 5 1 6 2 (inner 1 with_messages.messages)
scan_within-fuel_example =
    scan_within-fuel 9 5 1 6 2 (inner 1 with_messages.messages) (omega arith) (omega arith)
      (omega arith)

update_message_lem_example :
    (msg : Message) × (find_message 1 1 with_messages ≡ some msg)
    × (msg.user_id ≡ 1)
    × ((t m : Int64)
        → find_message t m (update_message 1 1 1 "bye" with_messages).0 ≡ (
            if 1 == t && 1 == m
            then some (record msg { text = "bye" })
            else find_message t m with_messages))
unfolding create_user create_topic new_storage lookup insert update_message
update_message_lem_example = update_message_lem 1 1 1 "bye" with_messages refl

delete_message_lem_example :
    (msg : Message) × ((delete_message 1 1 1 with_messages).1.value ≡ some msg)
    × (find_message 1 1 with_messages ≡ some msg)
    × (msg.user_id ≡ 1)
    × ((t m : Int64)
        → find_message t m (delete_message 1 1 1 with_messages).0
          ≡ (if 1 == t && 1 == m then none else find_message t m with_messages))
unfolding create_user create_topic new_storage lookup insert delete_message
delete_message_lem_example = delete_message_lem 1 1 1 with_messages refl

update_delete_verdict_example :
    ((update_message 1 1 7 "bye" with_messages).1.error ≡ some msg_not_found)
    × ((delete_message 1 1 7 with_messages).1.error ≡ some msg_not_found)
unfolding create_user create_topic new_storage lookup insert
update_delete_verdict_example = update_delete_verdict 1 1 7 "bye" with_messages

refused_write_lem_example :
    ((update_message 9 1 1 "bye" with_messages).0 ≡ with_messages)
    × ((delete_message 9 1 1 with_messages).0 ≡ with_messages)
unfolding create_user create_topic new_storage lookup insert
refused_write_lem_example = refused_write_lem 9 1 1 "bye" with_messages (λ e. cc)

like_message_blocks_other_topics_example :
    (like_message 2 1 1 (like_message 1 1 1 with_messages).0).1.error ≡ some user_already_liked
unfolding create_user create_topic new_storage lookup insert like_message
like_message_blocks_other_topics_example =
    like_message_blocks_other_topics 1 2 1 1 with_messages (new_message 2 1 "borrow" 20 1) refl refl
      refl
