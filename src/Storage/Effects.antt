-- ===== src/Storage/Effects.antt =====
-- pkg/storage/storage_messages.go: the message that a write returns tells what it has done, also
-- where it was refused. A subscriber is told of that message only.
use razpravljalnica.Base.{
  nat_eq, ℕ, Option, String, arith, if◌then◌else◌, inl, inr, none, some, ◌&&◌, ◌==◌, ◌≡◌, refl,
  Option-cases,
}
use razpravljalnica.Int64.{Int64, inc_32}
use razpravljalnica.Dict.{insert, erase, lookup-insert, lookup-erase}
use razpravljalnica.Storage.Types.{Message, Storage, Reply}
use razpravljalnica.Storage.Messages.{
  inner, counter, check_writer, find_message, new_message, post_message, update_message,
  delete_message, like_message, with_likes_map, set_like,
}
use razpravljalnica.Storage.Valid.Defs.{IsValid, IsStored}
use razpravljalnica.Storage.Valid.Writes.{find_message-put_message}

-- What is stored after a message was told as written: only that message is another one. If nothing
-- was told, nothing is.
abbrev pub written : Option Message → Int64 → Int64 → Storage → Option Message
written none t m s = find_message t m s
written (some msg) t m s = if msg.topic_id == t && msg.id == m then some msg else find_message t m s

-- The same for a message that was told as deleted
abbrev pub erased : Option Message → Int64 → Int64 → Storage → Option Message
erased none t m s = find_message t m s
erased (some msg) t m s = if msg.topic_id == t && msg.id == m then none else find_message t m s

pub post_message-written :
    (t u : Int64) (text : String) (at : ℕ) (s : Storage) {s' : Storage} {r : Reply Message}
    → post_message t u text at s ≡ some (s', r)
    → (t' m' : Int64) → find_message t' m' s' ≡ written r.value t' m' s
unfolding post_message
post_message-written t u text at s h t' m' =
    let n : Int64 = counter t s.next_message_id in
    ground (
      arith,
      lookup-insert t t' (insert n (new_message t u text at n) (inner t s.messages)) s.messages,
      lookup-insert n m' (new_message t u text at n) (inner t s.messages),
    )

pub update_message-written :
    (t u m : Int64) (text : String) (s : Storage)
    → IsValid s
    → (t' m' : Int64)
    → find_message t' m' (update_message t u m text s).0
      ≡ written (update_message t u m text s).1.value t' m' s
unfolding update_message
update_message-written t u m text s v t' m' = elim (Option-cases (check_writer t u s)) [
  | inr (e, refused) ↦ rw (refused, update_message) refl
  | inl pass ↦ elim (Option-cases (find_message t m s)) [
    | inl missing ↦ rw (pass, missing, update_message) refl
    | inr (msg, found) ↦
        let own : IsStored s t m msg = v.stored t m msg found in
        ground (
          arith,
          find_message-put_message t m (record msg { text = text }) s t' m',
          own.own_id,
          own.own_topic,
        )
  ]
]

pub delete_message-erased :
    (t u m : Int64) (s : Storage)
    → IsValid s
    → (t' m' : Int64)
    → find_message t' m' (delete_message t u m s).0
      ≡ erased (delete_message t u m s).1.value t' m' s
unfolding delete_message
delete_message-erased t u m s v t' m' = elim (Option-cases (check_writer t u s)) [
  | inr (e, refused) ↦ rw (refused, delete_message) refl
  | inl pass ↦ elim (Option-cases (find_message t m s)) [
    | inl missing ↦ rw (pass, missing, delete_message) refl
    | inr (msg, found) ↦
        let own : IsStored s t m msg = v.stored t m msg found in
        ground (
          arith,
          lookup-insert t t' (erase m (inner t s.messages)) s.messages,
          lookup-erase m m' (inner t s.messages),
          own.own_id,
          own.own_topic,
        )
  ]
]

pub like_message-written :
    (t u m : Int64) (s : Storage)
    → IsValid s
    → (t' m' : Int64)
    → find_message t' m' (like_message t u m s).0 ≡ written (like_message t u m s).1.value t' m' s
unfolding like_message
like_message-written t u m s v t' m' = elim (Option-cases (check_writer t u s)) [
  | inr (e, refused) ↦ rw (refused, like_message) refl
  | inl pass ↦ elim (Option-cases (find_message t m s)) [
    | inl missing ↦ rw (pass, missing, like_message) refl
    | inr (msg, found) ↦
        let own : IsStored s t m msg = v.stored t m msg found in
        ground (
          arith,
          find_message-put_message t m (record msg { likes = inc_32 msg.likes })
              (set_like m u (with_likes_map m s)) t' m',
          own.own_id,
          own.own_topic,
        )
  ]
]
