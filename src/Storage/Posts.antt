-- ===== src/Storage/Posts.antt =====
-- pkg/storage/storage_messages.go, `PostMessage`: its branches, and the round trip with a read.
use Prim.Native.Nat.{min}
use razpravljalnica.Base.{
  nat_eq, ℕ, Option-cases, String, [], arith, if◌then◌else◌, inl, inr, none, some, true, ◌&&◌, ◌+◌,
  ◌<◌, ◌==◌, ◌∷◌, ◌≡◌, ap, ◌-◌, ◌∙◌,
}
use razpravljalnica.Int64.{Int64, half, inc, inc-small}
use razpravljalnica.Dict.{contains, lookup-insert_self}
use razpravljalnica.Storage.Types.{Message, Storage, done}
use razpravljalnica.Storage.Messages.{
  inner, counter, find_message, check_writer, new_message, post_message,
}
use razpravljalnica.Storage.Reads.{get_messages_with_limit}
use razpravljalnica.Storage.Valid.Defs.{IsValid}
use razpravljalnica.Storage.Valid.Writes.{
  find_message-put_message, posted, topic_map, posted-IsValid,
}
use razpravljalnica.Storage.Scan.{ids_from, get_messages_with_limit_lem}

-- The id that a post takes is in use by no message of its topic.
fresh_id :
    (t : Int64) (s : Storage) → IsValid s → find_message t (counter t s.next_message_id) s ≡ none
fresh_id t s v = elim (Option-cases (find_message t (counter t s.next_message_id) s)) [
  | inl missing ↦ missing
  | inr (msg, e) ↦ absurd (omega (arith, (v.stored t (counter t s.next_message_id) msg e).used.1))
]

posted_lem :
    (t u : Int64) (text : String) (at : ℕ) (s : Storage)
    → IsValid s
    → contains t s.topics ≡ true
    → contains u s.users ≡ true
    → let n = counter t s.next_message_id in
      let s' = posted t u text at s in
      (post_message t u text at s ≡ some (s', done (new_message t u text at n)))
      × (counter t s'.next_message_id ≡ inc n)
      × ((t' m' : Int64)
          → find_message t' m' s' ≡ (
              if t == t' && n == m'
              then some (new_message t u text at n)
              else find_message t' m' s))
unfolding post_message
posted_lem t u text at s v topic user =
    let (ms, found) = topic_map t s v topic in
    (
      ground arith,
      ground (arith, lookup-insert_self t (inc (counter t s.next_message_id)) s.next_message_id),
      λ t' m'.
          find_message-put_message t (counter t s.next_message_id)
            (new_message t u text at (counter t s.next_message_id)) s t' m',
    )

-- On a valid storage whose topic and user are there, a post stores one message without likes
-- under the next id of the topic, which no message has, and leaves every other message as it was.
pub post_message_lem :
    (t u : Int64) (text : String) (at : ℕ) (s : Storage)
    → IsValid s
    → contains t s.topics ≡ true
    → contains u s.users ≡ true
    → let n = counter t s.next_message_id in
      (s' : Storage) × (post_message t u text at s ≡ some (s', done (new_message t u text at n)))
      × (find_message t n s ≡ none)
      × (counter t s'.next_message_id ≡ inc n)
      × ((t' m' : Int64)
          → find_message t' m' s' ≡ (
              if t == t' && n == m'
              then some (new_message t u text at n)
              else find_message t' m' s))
post_message_lem t u text at s v topic user =
    let (result, next, found) = posted_lem t u text at s v topic user in
    (posted t u text at s, result, fresh_id t s v, next, found)

-- A read of the newest id of a topic gives its message.
read_one :
    (t n : Int64) (msg : Message) (s : Storage)
    → IsValid s
    → contains t s.topics ≡ true
    → n + 1 < half
    → find_message t n s ≡ some msg
    → counter t s.next_message_id ≡ n + 1
    → get_messages_with_limit t n 1 s ≡ done (msg ∷ [])
read_one t n msg s v topic room found last =
    get_messages_with_limit_lem t n 1 s v topic (omega arith) (omega arith) room ∙ ap done one
  where
    width : min (n + 1) (counter t s.next_message_id) - n ≡ 1
    width = omega arith

    one : ids_from (min (n + 1) (counter t s.next_message_id) - n) n (inner t s.messages) ≡ msg ∷ []
    one = rw width (ground arith)

-- On a valid storage whose topic and user are there and whose counter has room, a read of one id
-- from the id of a message that was just posted gives just that message.
pub get-post :
    (t u : Int64) (text : String) (at : ℕ) (s : Storage)
    → IsValid s
    → contains t s.topics ≡ true
    → contains u s.users ≡ true
    → counter t s.next_message_id + 1 < half
    → let n = counter t s.next_message_id in
      (s' : Storage) × (post_message t u text at s ≡ some (s', done (new_message t u text at n)))
      × (get_messages_with_limit t n 1 s' ≡ done (new_message t u text at n ∷ []))
get-post t u text at s v topic user room =
    let n = counter t s.next_message_id in
    let (done_post, next, found) = posted_lem t u text at s v topic user in
    let pass : check_writer t u s ≡ none = ground arith in
    let v' = posted-IsValid t u text at s v room pass in
    (
      posted t u text at s,
      done_post,
      read_one t n (new_message t u text at n) (posted t u text at s) v' topic room
          (ground (arith, found t n)) (next ∙ inc-small n (omega arith)),
    )
