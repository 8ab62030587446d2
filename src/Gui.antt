-- ===== src/Gui.antt =====
-- pkg/client/gui/gui.go: what the terminal client remembers. The widgets are left out; where a
-- handler reads one, what it shows is an argument, and a text is given with its outer spaces cut.
-- An asynchronous handler is split at its remote call: the request, and what is done on the answer.
pub mod Messages
pub mod Stream
pub mod Selection
pub mod Topics
pub mod Users
pub mod View
pub mod Follows
use razpravljalnica.Base.{nat_eq, Bool, List, [], false, none, some}
use razpravljalnica.Int64.{Int64}
use razpravljalnica.Dict.{Dict, lookup, insert}
use razpravljalnica.Storage.Types.{User, Topic, Message}

pub record MessageCacheEntry : Type 0 where
  pub messages : Dict Int64 Message
  pub order : List Int64

-- `streams_chans` has the topics whose stream can be told to stop.
pub record GuiClient : Type 0 where
  pub user_id : Int64
  pub users : Dict Int64 User
  pub current_topic_id : Int64
  pub topics : Dict Int64 Topic
  pub unread_topic : Dict Int64 Bool
  pub topic_order : List Int64
  pub streams_chans : List Int64
  pub subscribed_topics : Dict Int64 Bool
  pub selected_message_id : Int64
  pub last_selected_message_id : Int64
  pub message_cache : Dict Int64 MessageCacheEntry
  pub is_navigating : Bool

-- Nobody is logged in: the user is 0.
unfoldable pub new_gui_client : GuiClient
new_gui_client = record {
  user_id = 0;
  users = [];
  current_topic_id = 0;
  topics = [];
  unread_topic = [];
  topic_order = [];
  streams_chans = [];
  subscribed_topics = [];
  selected_message_id = 0;
  last_selected_message_id = 0;
  message_cache = [];
  is_navigating = false;
}

abbrev pub empty_entry : MessageCacheEntry
empty_entry = record { messages = []; order = [] }

-- `subscribed, exists := gc.subscribedTopics[topicId]; exists && subscribed`
abbrev pub is_subscribed : Int64 → GuiClient → Bool
is_subscribed topic_id gc = elim (lookup topic_id gc.subscribed_topics) [
  | none ↦ false
  | some subscribed ↦ subscribed
]

-- A change of the entry of a topic, if it has one.
abbrev pub in_entry : (MessageCacheEntry → MessageCacheEntry) → Int64 → GuiClient → GuiClient
in_entry change topic_id gc = elim (lookup topic_id gc.message_cache) [
  | none ↦ gc
  | some entry ↦ record gc { message_cache = insert topic_id (change entry) gc.message_cache }
]
