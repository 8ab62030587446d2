-- ===== src/Storage/Valid/Writes.antt =====
-- pkg/storage/storage_messages.go: every write to the messages keeps the invariant, and none of
-- them panics on a storage that meets it.
use razpravljalnica.Base.{
  nat_eq, ℕ, Bool, String, arith, if◌then◌else◌, none, some, true, ◌&&◌, ◌+◌, ◌<◌, ◌==◌, ◌≡◌,
  Option-cases, inl, inr, refl, Bool-cases,
}
use razpravljalnica.Int64.{Int64, half, inc, inc_32}
use razpravljalnica.Dict.{Dict, insert, contains, lookup-insert, lookup, erase, lookup-erase}
use razpravljalnica.Storage.Types.{done, fail, Message, Storage, Reply}
use razpravljalnica.Storage.Messages.{
  inner, counter, find_message, put_message, check_writer, post_message, new_message,
  delete_message, like_message, update_message, flag, set_like, with_likes_map,
}
use razpravljalnica.Storage.Valid.Defs.{IsValid, IsStored}

-- A message that is written is found under its two ids, and no other message changes.
pub find_message-put_message :
    (t m : Int64) (msg : Message) (s : Storage) (t' m' : Int64)
    → find_message t' m' (put_message t m msg s)
      ≡ (if t == t' && m == m' then some msg else find_message t' m' s)
find_message-put_message t m msg s t' m' = ground (
  arith,
  lookup-insert t t' (insert m msg (inner t s.messages)) s.messages,
  lookup-insert m m' msg (inner t s.messages),
)

-- Where the topic's map is there, a write of a message leaves every topic's map in place.
contains-put_message :
    (t m : Int64) (msg : Message) (s : Storage) (k : Int64)
    → contains k s.messages ≡ true
    → contains k (put_message t m msg s).messages ≡ true
contains-put_message t m msg s k h =
    ground (arith, lookup-insert t k (insert m msg (inner t s.messages)) s.messages)

put_message-IsValid :
    (t m : Int64) (msg : Message) (s : Storage)
    → IsValid s
    → IsStored s t m msg
    → IsValid (put_message t m msg s)
put_message-IsValid t m msg s v new = record {
  user_counter = v.user_counter;
  topic_counter = v.topic_counter;
  user_ids = v.user_ids;
  topic_ids = v.topic_ids;
  topic_ready =
      λ k h. (contains-put_message t m msg s k (v.topic_ready k h).0, (v.topic_ready k h).1);
  stored = λ t' m' x h. stored_after t' m' x h;
}
  where
    stored_after :
        (t' m' : Int64) (x : Message)
        → find_message t' m' (put_message t m msg s) ≡ some x
        → IsStored (put_message t m msg s) t' m' x
    stored_after t' m' x h =
        ground (arith, find_message-put_message t m msg s t' m', v.stored t' m' x, new)

bump-IsValid :
    (t : Int64) (s : Storage)
    → IsValid s
    → counter t s.next_message_id + 1 < half
    → IsValid (record s {
      next_message_id = insert t (inc (counter t s.next_message_id)) s.next_message_id;
    })
bump-IsValid t s v room = record {
  user_counter = v.user_counter;
  topic_counter = v.topic_counter;
  user_ids = v.user_ids;
  topic_ids = v.topic_ids;
  topic_ready = λ k h. ground (
    arith,
    v.topic_ready k h,
    lookup-insert t k (inc (counter t s.next_message_id)) s.next_message_id,
  );
  stored = λ t' m' x h. ground (
    arith,
    v.stored t' m' x h,
    lookup-insert t t' (inc (counter t s.next_message_id)) s.next_message_id,
  );
}

likes-IsValid :
    (l : Dict Int64 (Dict Int64 Bool)) (s : Storage) → IsValid s → IsValid (record s { likes = l })
likes-IsValid l s v = record {
  user_counter = v.user_counter;
  topic_counter = v.topic_counter;
  user_ids = v.user_ids;
  topic_ids = v.topic_ids;
  topic_ready = v.topic_ready;
  stored = λ t m x h. ground (arith, v.stored t m x h);
}

-- The checks that precede a write: both keys are there.
pub check_writer-none :
    (t u : Int64) (s : Storage)
    → check_writer t u s ≡ none
    → (contains t s.topics ≡ true) × (contains u s.users ≡ true)
check_writer-none t u s h = ground arith

-- What a valid storage holds for a topic that is there.
pub topic_map :
    (t : Int64) (s : Storage)
    → IsValid s
    → contains t s.topics ≡ true
    → (ms : Dict Int64 Message) × (lookup t s.messages ≡ some ms)
topic_map t s v h = ground (arith, v.topic_ready t h)

-- The storage after a post that passes its checks.
abbrev pub posted : Int64 → Int64 → String → ℕ → Storage → Storage
posted t u text at s =
    let n = counter t s.next_message_id in
    put_message t n (new_message t u text at n)
      (record s { next_message_id = insert t (inc n) s.next_message_id })

pub posted-IsValid :
    (t u : Int64) (text : String) (at : ℕ) (s : Storage)
    → IsValid s
    → counter t s.next_message_id + 1 < half
    → check_writer t u s ≡ none
    → IsValid (posted t u text at s)
posted-IsValid t u text at s v room pass =
    put_message-IsValid t n (new_message t u text at n)
      (record s { next_message_id = insert t (inc n) s.next_message_id }) (bump-IsValid t s v room)
      record {
        own_id = refl;
        own_topic = refl;
        used = ground (arith, v.topic_ready t both.0, lookup-insert t t (inc n) s.next_message_id);
        in_topic = both.0;
        has_author = both.1;
      }
  where
    n : Int64
    n = counter t s.next_message_id

    both : (contains t s.topics ≡ true) × (contains u s.users ≡ true)
    both = check_writer-none t u s pass

-- On a valid storage a post does not panic, and keeps the storage valid.
pub post_message-IsValid :
    (t u : Int64) (text : String) (at : ℕ) (s : Storage)
    → IsValid s
    → counter t s.next_message_id + 1 < half
    → (s' : Storage) × (r : Reply Message) × (post_message t u text at s ≡ some (s', r))
      × IsValid s'
unfolding post_message
post_message-IsValid t u text at s v room = elim (Option-cases (check_writer t u s)) [
  | inr (e, refused) ↦ (s, fail e, rw (refused, post_message), v)
  | inl pass ↦
      let (ms, found) = topic_map t s v (check_writer-none t u s pass).0 in
      (
        posted t u text at s,
        done (new_message t u text at (counter t s.next_message_id)),
        ground (arith, pass, found),
        posted-IsValid t u text at s v room pass,
      )
]

-- The two ways in which an update, a delete or a like ends: the message is there, or nothing is
-- written.
module _ {ℓ} (P : Storage → Type ℓ) (t u m : Int64) (s : Storage) (same : P s) where
  update_message_cases :
      (text : String)
      → ((msg : Message)
          → find_message t m s ≡ some msg
          → P (put_message t m (record msg { text = text }) s))
      → P (update_message t u m text s).0
  unfolding update_message
  update_message_cases text found = elim (Option-cases (check_writer t u s)) [
    | inr (e, refused) ↦ rw (refused, update_message) same
    | inl pass ↦ elim (Option-cases (find_message t m s)) [
      | inl missing ↦ rw (pass, missing, update_message) same
      | inr (msg, e) ↦ rw (pass, e, update_message) (ground (arith, found msg e))
    ]
  ]

  delete_message_cases :
      ((msg : Message)
        → find_message t m s ≡ some msg
        → P (record s { messages = insert t (erase m (inner t s.messages)) s.messages }))
      → P (delete_message t u m s).0
  unfolding delete_message
  delete_message_cases found = elim (Option-cases (check_writer t u s)) [
    | inr (e, refused) ↦ rw (refused, delete_message) same
    | inl pass ↦ elim (Option-cases (find_message t m s)) [
      | inl missing ↦ rw (pass, missing, delete_message) same
      | inr (msg, e) ↦ rw (pass, e, delete_message) (ground (arith, found msg e))
    ]
  ]

  like_message_cases :
      ((l : Dict Int64 (Dict Int64 Bool)) → P (record s { likes = l }))
      → ((l : Dict Int64 (Dict Int64 Bool)) (msg : Message)
          → find_message t m s ≡ some msg
          → P (put_message t m (record msg { likes = inc_32 msg.likes }) (record s { likes = l })))
      → P (like_message t u m s).0
  unfolding like_message
  like_message_cases again found = elim (Option-cases (check_writer t u s)) [
    | inr (e, refused) ↦ rw (refused, like_message) same
    | inl pass ↦ elim (Option-cases (find_message t m s)) [
      | inl missing ↦ rw (pass, missing, like_message) same
      | inr (msg, e) ↦
          rw (pass, e, like_message)
            (elim (Bool-cases (flag u (inner m (with_likes_map m s).likes))) [
              | inl old ↦ rw old (again (with_likes_map m s).likes)
              | inr new ↦ rw new (found (set_like m u (with_likes_map m s)).likes msg e)
            ])
    ]
  ]

-- An update keeps the storage valid.
pub update_message-IsValid :
    (t u m : Int64) (text : String) (s : Storage)
    → IsValid s
    → IsValid (update_message t u m text s).0
update_message-IsValid t u m text s v = update_message_cases IsValid t u m s v text λ msg e.
    put_message-IsValid t m (record msg { text = text }) s v (ground (arith, v.stored t m msg e))

erased-IsValid :
    (t m : Int64) (s : Storage)
    → IsValid s
    → contains t s.messages ≡ true
    → IsValid (record s { messages = insert t (erase m (inner t s.messages)) s.messages })
erased-IsValid t m s v h = record {
  user_counter = v.user_counter;
  topic_counter = v.topic_counter;
  user_ids = v.user_ids;
  topic_ids = v.topic_ids;
  topic_ready = λ k c.
      ground
        (arith, v.topic_ready k c, lookup-insert t k (erase m (inner t s.messages)) s.messages);
  stored = λ t' m' x e. ground (
    arith,
    v.stored t' m' x,
    lookup-insert t t' (erase m (inner t s.messages)) s.messages,
    lookup-erase m m' (inner t s.messages),
  );
}

-- A delete keeps the storage valid.
pub delete_message-IsValid :
    (t u m : Int64) (s : Storage) → IsValid s → IsValid (delete_message t u m s).0
delete_message-IsValid t u m s v =
    delete_message_cases IsValid t u m s v
      λ msg e. erased-IsValid t m s v (v.topic_ready t (v.stored t m msg e).in_topic).0

-- A like keeps the storage valid.
pub like_message-IsValid :
    (t u m : Int64) (s : Storage) → IsValid s → IsValid (like_message t u m s).0
like_message-IsValid t u m s v =
    like_message_cases IsValid t u m s v (λ l. likes-IsValid l s v)
      λ l msg e.
        put_message-IsValid t m (record msg { likes = inc_32 msg.likes }) (record s { likes = l })
          (likes-IsValid l s v) (ground (arith, v.stored t m msg e))
