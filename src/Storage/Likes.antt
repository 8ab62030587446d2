-- ===== src/Storage/Likes.antt =====
-- pkg/storage/storage_messages.go, `LikeMessage`: who can like what, and how often.
use razpravljalnica.Base.{nat_eq, arith, none, some, true, ◌≡◌, subst}
use razpravljalnica.Int64.{Int64, inc_32}
use razpravljalnica.Dict.{lookup, insert, contains, lookup-insert}
use razpravljalnica.Storage.Types.{Message, Storage, user_already_liked}
use razpravljalnica.Storage.Messages.{
  inner, flag, find_message, put_message, check_writer, like_message, with_likes_map, set_like,
}
use razpravljalnica.Storage.Valid.Writes.{find_message-put_message}

-- A like that is accepted: its checks have passed, and the storage that it leaves.
pub like_message_accepted :
    (t u m : Int64) (s : Storage)
    → (like_message t u m s).1.error ≡ none
    → (msg : Message) × (check_writer t u s ≡ none)
      × (find_message t m s ≡ some msg)
      × ((like_message t u m s).0
          ≡ put_message t m
              (record msg { likes = inc_32 msg.likes })
              (set_like m u (with_likes_map m s)))
unfolding like_message
like_message_accepted t u m s h = ground arith

-- After an accepted like the user is in the likes of that message id.
liked_flag :
    (t u m : Int64) (s : Storage)
    → (like_message t u m s).1.error ≡ none
    → flag u (inner m (like_message t u m s).0.likes) ≡ true
liked_flag t u m s h =
    let (msg, pass, found, after) = like_message_accepted t u m s h in
    rw after (
      ground (
        arith,
        lookup-insert m m (insert u true (inner m (with_likes_map m s).likes))
            (with_likes_map m s).likes,
        lookup-insert u u true (inner m (with_likes_map m s).likes),
      ))

pub like_message_again :
    (t u m : Int64) (s : Storage) (msg : Message)
    → check_writer t u s ≡ none
    → find_message t m s ≡ some msg
    → flag u (inner m s.likes) ≡ true
    → like_message t u m s ≡ (s, record { value = some msg; error = some user_already_liked })
unfolding like_message lookup
like_message_again t u m s msg pass found liked = ground arith

-- A message that is there is there, perhaps rewritten, after a write of a message.
still_there :
    (t m : Int64) (new : Message) (s : Storage) (t' : Int64) (msg : Message)
    → find_message t' m s ≡ some msg
    → (msg' : Message) × (find_message t' m (put_message t m new s) ≡ some msg')
still_there t m new s t' msg h = ground (arith, find_message-put_message t m new s t' m)

-- After an accepted like of a message, the same user's like of a message with the same id in any
-- topic that is there is refused: likes are kept by the id alone, and ids are counted per topic.
pub like_message_blocks_other_topics :
    (a b u m : Int64) (s : Storage) (msg : Message)
    → (like_message a u m s).1.error ≡ none
    → contains b s.topics ≡ true
    → find_message b m s ≡ some msg
    → (like_message b u m (like_message a u m s).0).1.error ≡ some user_already_liked
like_message_blocks_other_topics a b u m s msg first topic found =
    let (msg', pass, _, after) = like_message_accepted a u m s first in
    let s' : Storage =
      put_message a m (record msg' { likes = inc_32 msg'.likes })
        (set_like m u (with_likes_map m s)) in
    let (other, there) =
      still_there a m (record msg' { likes = inc_32 msg'.likes })
        (set_like m u (with_likes_map m s)) b msg found in
    let refused =
      like_message_again b u m s' other (ground arith) there
        (subst (λ z. flag u (inner m z.likes) ≡ true) after (liked_flag a u m s first)) in
    rw (after, refused)
