-- ===== src/Gui/Topics.antt =====
-- pkg/client/gui/gui_handlers_topics.go: topics, and the subscription to one.
use razpravljalnica.Base.{
  nat_eq, string_eq, Bool, List, Option, String, [], false, if◌then◌else◌, inl, inr, none, some,
  true, ◌==◌, ◌∷◌, ◌⊎◌, get_elem?, length, ◌-◌, not,
}
use razpravljalnica.Int64.{Int64, inc, slt, minus_one}
use razpravljalnica.Dict.{Dict, lookup, insert}
use razpravljalnica.Event.{CreateTopicRequest}
use razpravljalnica.Status.{CallError}
use razpravljalnica.Storage.Types.{Topic}
use razpravljalnica.Subscriptions.{SubscribeTopicRequest}
use razpravljalnica.Gui.{GuiClient, is_subscribed}
use razpravljalnica.Gui.Messages.{Status, failed, succeeded}

-- Why no request is made
pub data Refusal : Type 0 where
  empty_name not_logged_in : Refusal

unfoldable pub handle_create_topic : String → GuiClient → Refusal ⊎ CreateTopicRequest
handle_create_topic topic_name gc =
    if topic_name == ""
    then inl empty_name
    else if gc.user_id == minus_one
    then inl not_logged_in
    else inr (record { name = topic_name })

-- The newest topic stands first.
unfoldable pub create_topic_done : CallError ⊎ Topic → GuiClient → GuiClient × Status
create_topic_done (inl e) gc = (gc, failed)
create_topic_done (inr topic) gc = (
  record gc { topics = insert topic.id topic gc.topics; topic_order = topic.id ∷ gc.topic_order },
  succeeded,
)

-- `sort.Slice` by falling id
sorted_in : Topic → List Topic → List Topic
sorted_in topic [] = topic ∷ []
sorted_in topic (x ∷ xs) = if slt topic.id x.id then x ∷ sorted_in topic xs else topic ∷ x ∷ xs

unfoldable pub by_falling_id : List Topic → List Topic
unfolding sorted_in
by_falling_id [] = []
by_falling_id (x ∷ xs) = sorted_in x (by_falling_id xs)

topics_map : Dict Int64 Topic → List Topic → Dict Int64 Topic
topics_map topics [] = topics
topics_map topics (topic ∷ rest) = topics_map (insert topic.id topic topics) rest

topics_ids : List Topic → List Int64
topics_ids [] = []
topics_ids (topic ∷ rest) = topic.id ∷ topics_ids rest

unfoldable pub refresh_topics_done : CallError ⊎ List Topic → GuiClient → GuiClient
unfolding by_falling_id topics_map topics_ids
refresh_topics_done (inl e) gc = gc
refresh_topics_done (inr topics) gc = record gc {
  topics = topics_map [] (by_falling_id topics);
  topic_order = topics_ids (by_falling_id topics);
}

pub record TopicItem : Type 0 where
  pub name : String
  pub subscribed : Bool
  pub unread : Bool

abbrev marked : Int64 → Dict Int64 Bool → Bool
marked topic_id marks = elim (lookup topic_id marks) [ none ↦ false | some mark ↦ mark ]

-- The items of the list; a topic of the order that is not in the map is a nil pointer.
unfoldable pub display_topics : List Int64 → GuiClient → Option (List TopicItem)
display_topics [] gc = some []
display_topics (topic_id ∷ rest) gc =
    let items = display_topics rest gc in
    elim (lookup topic_id gc.topics) [
      | none ↦ none
      | some topic ↦ elim items [
        | none ↦ none
        | some later ↦ some (
            record {
              name = topic.name;
              subscribed = marked topic_id gc.subscribed_topics;
              unread = marked topic_id gc.unread_topic;
            }
            ∷ later)
      ]
    ]

-- The messages of the topic are loaded then.
unfoldable pub handle_select_topic : Int64 → GuiClient → GuiClient
handle_select_topic topic_id gc = record gc {
  current_topic_id = topic_id;
  unread_topic = insert topic_id false gc.unread_topic;
}

-- The topic at an index of the list, if there is one; a negative index is beyond every list.
unfoldable pub handle_topic_subscription : Int64 → GuiClient → Option Int64
handle_topic_subscription index gc = get_elem? gc.topic_order index

-- A subscription begins behind the last id of the order.
abbrev pub from_message_id : Int64 → GuiClient → Int64
from_message_id topic_id gc = elim (lookup topic_id gc.message_cache) [
  | none ↦ 1
  | some entry ↦ elim (get_elem? entry.order (length entry.order - 1)) [
    | none ↦ 1
    | some last ↦ inc last
  ]
]

-- How `subscribeToTopic` ends, where it does not go on to read its stream
pub data Subscribed : Type 0 where
  already no_node no_connection not_authorized : Subscribed
  streams : GuiClient → Subscribed

-- `get_node` is the control plane's answer, the address and the token; `subscribe` is the answer of
-- the node to the request. The user is read before the calls, the first id between them.
unfoldable pub subscribe_to_topic :
    (String → Bool)
    → CallError ⊎ (String × String)
    → (SubscribeTopicRequest → Option CallError)
    → Int64
    → GuiClient
    → Subscribed
subscribe_to_topic dials get_node subscribe topic_id gc =
    if is_subscribed topic_id gc then already else elim get_node [
      | inl e ↦ no_node
      | inr (address, token) ↦
          let request : SubscribeTopicRequest = record {
            user_id = gc.user_id;
            topic_id = topic_id ∷ [];
            from_message_id = from_message_id topic_id gc;
            subscribe_token = token;
          } in
          if not (dials address) then no_connection else elim (subscribe request) [
            | some e ↦ not_authorized
            | none ↦ streams (record gc {
              subscribed_topics = insert topic_id true gc.subscribed_topics;
              streams_chans = topic_id ∷ gc.streams_chans;
            })
          ]
    ]
