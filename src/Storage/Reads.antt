-- ===== src/Storage/Reads.antt =====
-- pkg/storage/storage_messages.go, the reads. A `for` loop over ids has fuel: as many rounds as
-- lie between the first id and the bound; `Reads`' children show that this is enough.
use razpravljalnica.Base.{
  nat_eq, ℕ, zero, suc, ◌-◌, ◌&&◌, not, Option, none, some, List, [], ◌∷◌, ◌++◌, if◌then◌else◌,
}
use razpravljalnica.Int64.{Int64, Int32, inc, add_64, bias, slt, not_positive_32, int64}
use razpravljalnica.Dict.{Dict, lookup, contains}
use razpravljalnica.Storage.Types.{
  Message, Storage, Reply, done, fail, topic_not_found, invalid_limit,
}
use razpravljalnica.Storage.Messages.{counter}

-- `if msg, exists := messagesMap[id]; exists { messages = append(messages, msg) }`
abbrev pub message_at : Int64 → Dict Int64 Message → List Message
message_at id ms = elim (lookup id ms) [ none ↦ [] | some message ↦ message ∷ [] ]

-- `for id < end && id < next { ...; id++ }`
unfoldable pub scan_within : ℕ → Int64 → Int64 → Int64 → Dict Int64 Message → List Message
scan_within zero id end next ms = []
scan_within (suc fuel) id end next ms =
    let rest = scan_within fuel (inc id) end next ms in
    if slt id end && slt id next then message_at id ms ++ rest else []

-- `for id < next { ...; id++ }`
unfoldable pub scan_from : ℕ → Int64 → Int64 → Dict Int64 Message → List Message
scan_from zero id next ms = []
scan_from (suc fuel) id next ms =
    let rest = scan_from fuel (inc id) next ms in
    if slt id next then message_at id ms ++ rest else []

-- The rounds from `id` up to `end`.
abbrev pub rounds : Int64 → Int64 → ℕ
rounds id end = bias end - bias id

unfoldable pub get_messages_with_limit : Int64 → Int64 → Int32 → Storage → Reply (List Message)
get_messages_with_limit topic_id from_message_id limit s =
    if not_positive_32 limit
    then fail invalid_limit
    else if not (contains topic_id s.topics)
    then fail topic_not_found
    else elim (lookup topic_id s.messages) [
      | none ↦ done []
      | some ms ↦
          let end = add_64 from_message_id (int64 limit) in
          done (
            scan_within (rounds from_message_id end) from_message_id end
              (counter topic_id s.next_message_id) ms)
    ]

-- The messages of one topic, if its map is there.
abbrev pub topic_messages : Int64 → Int64 → Storage → List Message
topic_messages topic_id from_message_id s = elim (lookup topic_id s.messages) [
  | none ↦ []
  | some ms ↦
      let next = counter topic_id s.next_message_id in
      scan_from (rounds from_message_id next) from_message_id next ms
]

-- The loop over `topicIds`; `none` is the return of `ErrTopicNotFound`.
unfoldable pub collect_topics : List Int64 → Int64 → Storage → List Message → Option (List Message)
collect_topics [] from_message_id s acc = some acc
collect_topics (topic_id ∷ rest) from_message_id s acc =
    let next =
      collect_topics rest from_message_id s (acc ++ topic_messages topic_id from_message_id s) in
    if not (contains topic_id s.topics) then none else next

-- The callback runs on the caller's state `C`, and only if no topic is missing.
unfoldable pub get_messages_from_topics {ℓ} :
    {C : Type ℓ} → List Int64 → Int64 → (C → C) → C → Storage → C × Reply (List Message)
get_messages_from_topics topic_ids from_message_id callback c s =
    elim (collect_topics topic_ids from_message_id s []) [
      | none ↦ (c, fail topic_not_found)
      | some messages ↦ (callback c, done messages)
    ]
