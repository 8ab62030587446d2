-- ===== src/Storage/Several.antt =====
-- pkg/storage/storage_messages.go, `GetMessagesFromTopics`: what a subscription reads of the past.
use mathlib.Core.List.{append_assoc, append-nil}
use razpravljalnica.Base.{
  nat_eq, Bool, Bool-cases, inl, inr, List, [], ◌∷◌, ◌++◌, ◌&&◌, arith, refl, none, some, true,
  if◌then◌else◌, ◌<◌, ◌-◌, ◌≡◌,
}
use razpravljalnica.Int64.{Int64, half}
use razpravljalnica.Dict.{contains}
use razpravljalnica.Storage.Types.{Message, Storage, done, fail, topic_not_found}
use razpravljalnica.Storage.Messages.{counter, inner}
use razpravljalnica.Storage.Reads.{rounds, topic_messages, collect_topics, get_messages_from_topics}
use razpravljalnica.Storage.Valid.Defs.{IsValid}
use razpravljalnica.Storage.Scan.{ids_from, scan_from-ids_from}

abbrev pub all_topics : List Int64 → Storage → Bool
all_topics [] s = true
all_topics (t ∷ ts) s = contains t s.topics && all_topics ts s

-- The messages of each topic in turn, of a topic those with the ids from `from` up to its counter.
abbrev pub all_from : List Int64 → Int64 → Storage → List Message
all_from [] from s = []
all_from (t ∷ ts) from s =
    ids_from (counter t s.next_message_id - from) from (inner t s.messages) ++ all_from ts from s

topic_messages_lem :
    (t from : Int64) (s : Storage)
    → IsValid s
    → contains t s.topics ≡ true
    → from < half
    → topic_messages t from s
      ≡ ids_from (counter t s.next_message_id - from) from (inner t s.messages)
topic_messages_lem t from s v topic small =
    let (ready, (_, fits)) = v.topic_ready t topic in
    ground (
      arith,
      scan_from-ids_from (rounds from (counter t s.next_message_id)) from
          (counter t s.next_message_id) (inner t s.messages),
    )

collect_topics_lem :
    (ts : List Int64) (from : Int64) (s : Storage) (acc : List Message)
    → IsValid s
    → from < half
    → collect_topics ts from s acc
      ≡ (if all_topics ts s then some (acc ++ all_from ts from s) else none)
unfolding collect_topics
collect_topics_lem [] from s acc v small = rw (append-nil acc) refl
collect_topics_lem (t ∷ ts) from s acc v small = ground (
  arith,
  topic_messages_lem t from s v,
  collect_topics_lem ts from s (acc ++ topic_messages t from s) v small,
  append_assoc acc (topic_messages t from s) (all_from ts from s),
)

-- On a valid storage a read of several topics from an id that is not negative returns the stored
-- messages of the topics in turn and runs the callback once; if a topic is missing it is refused
-- and the callback does not run.
pub get_messages_from_topics_lem {ℓ} :
    {C : Type ℓ} (ts : List Int64) (from : Int64) (callback : C → C) (c : C) (s : Storage)
    → IsValid s
    → from < half
    → get_messages_from_topics ts from callback c s ≡ (
        if all_topics ts s
        then (callback c, done (all_from ts from s))
        else (c, fail topic_not_found))
unfolding get_messages_from_topics
get_messages_from_topics_lem ts from callback c s v small = elim (Bool-cases (all_topics ts s)) [
  | inl there ↦ ground (arith, collect_topics_lem ts from s [] v small)
  | inr missing ↦ ground (arith, collect_topics_lem ts from s [] v small)
]
