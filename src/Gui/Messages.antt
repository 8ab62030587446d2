-- ===== src/Gui/Messages.antt =====
-- pkg/client/gui/gui_handlers_messages.go: the handlers of messages, their requests and what they do
-- with the answers. A topic that is subscribed to is left to its stream.
use razpravljalnica.Base.{
  nat_eq, string_eq, false, true, Bool, List, Option, String, [], if◌then◌else◌, inl, inr, none,
  some, ◌++◌, ◌==◌, ◌∷◌, ◌⊎◌,
}
use razpravljalnica.Int64.{Int64, not_positive}
use razpravljalnica.Dict.{lookup, insert, erase, contains}
use razpravljalnica.Event.{
  PostMessageRequest, UpdateMessageRequest, DeleteMessageRequest, LikeMessageRequest,
}
use razpravljalnica.Status.{CallError}
use razpravljalnica.Storage.Types.{Message}
use razpravljalnica.Node.Reads.{GetMessagesRequest}
use razpravljalnica.Gui.{MessageCacheEntry, GuiClient, is_subscribed, in_entry, empty_entry}

-- The line of the status bar, by what it tells of.
pub data Status : Type 0 where
  succeeded failed empty_text : Status

unfoldable pub load_messages_begin : GuiClient → GetMessagesRequest
load_messages_begin gc = record { topic_id = gc.current_topic_id; from_message_id = 0; limit = 50 }

-- The loop over the answer
load_each : MessageCacheEntry → List Message → MessageCacheEntry
load_each entry [] = entry
load_each entry (message ∷ rest) =
    load_each
      (record {
        messages = insert message.id message entry.messages;
        order = entry.order ++ message.id ∷ [];
      })
      rest

-- A new entry takes the place of the old one; no answer changes nothing.
unfoldable pub load_messages_done : Int64 → CallError ⊎ List Message → GuiClient → GuiClient
unfolding load_each
load_messages_done topic_id (inl e) gc = gc
load_messages_done topic_id (inr messages) gc = record gc {
  message_cache = insert topic_id (load_each empty_entry messages) gc.message_cache;
}

unfoldable pub handle_post_message : String → GuiClient → Option PostMessageRequest
handle_post_message message gc =
    if message == ""
    then none
    else some (record { user_id = gc.user_id; topic_id = gc.current_topic_id; text = message })

-- An id that is not among the messages goes to the end of the order.
abbrev pub appended : Message → MessageCacheEntry → MessageCacheEntry
appended message entry = record {
  order =
      if contains message.id entry.messages then entry.order else entry.order ++ message.id ∷ [];
  messages = insert message.id message entry.messages;
}

-- A like or an update does not touch the order.
abbrev pub replaced : Message → MessageCacheEntry → MessageCacheEntry
replaced message entry = record entry { messages = insert message.id message entry.messages }

-- The id stays in the order.
abbrev pub removed : Int64 → MessageCacheEntry → MessageCacheEntry
removed message_id entry = record entry { messages = erase message_id entry.messages }

unfoldable pub post_message_done : Int64 → CallError ⊎ Message → GuiClient → GuiClient × Status
post_message_done topic_id (inl e) gc = (gc, failed)
post_message_done topic_id (inr message) gc =
    if is_subscribed topic_id gc
    then (gc, succeeded)
    else (in_entry (appended message) topic_id gc, succeeded)

unfoldable pub handle_delete_message : Int64 → GuiClient → DeleteMessageRequest
handle_delete_message message_id gc = record {
  user_id = gc.user_id;
  topic_id = gc.current_topic_id;
  message_id = message_id;
}

-- The flag says whether another message is selected then.
unfoldable pub delete_message_done :
    Int64 → Int64 → Option CallError → GuiClient → GuiClient × (Status × Bool)
delete_message_done topic_id message_id (some e) gc = (gc, (failed, false))
delete_message_done topic_id message_id none gc =
    if is_subscribed topic_id gc
    then (gc, (succeeded, false))
    else (in_entry (removed message_id) topic_id gc, (succeeded, true))

unfoldable pub handle_like_message : Int64 → GuiClient → LikeMessageRequest
handle_like_message message_id gc = record {
  user_id = gc.user_id;
  topic_id = gc.current_topic_id;
  message_id = message_id;
}

unfoldable pub like_message_done : Int64 → CallError ⊎ Message → GuiClient → GuiClient × Status
like_message_done topic_id (inl e) gc = (gc, failed)
like_message_done topic_id (inr message) gc =
    if is_subscribed topic_id gc
    then (gc, succeeded)
    else (in_entry (replaced message) topic_id gc, succeeded)

unfoldable pub handle_update_message : Int64 → String → GuiClient → Option UpdateMessageRequest
handle_update_message message_id message gc =
    if message == ""
    then none
    else some (record {
      topic_id = gc.current_topic_id;
      user_id = gc.user_id;
      message_id = message_id;
      text = message;
    })

unfoldable pub update_message_done : Int64 → CallError ⊎ Message → GuiClient → GuiClient × Status
update_message_done topic_id (inl e) gc = (gc, failed)
update_message_done topic_id (inr message) gc =
    if is_subscribed topic_id gc
    then (gc, succeeded)
    else (in_entry (replaced message) topic_id gc, succeeded)

-- What the dialog on a message offers: edit and delete, like, close; or why it does not open.
pub data MessageActions : Type 0 where
  no_message not_logged_in invalid_message : MessageActions
  actions : Bool → MessageActions

-- The author is 0 where the topic has no entry.
unfoldable pub show_message_actions_modal : Int64 → GuiClient → MessageActions
show_message_actions_modal message_id gc = elim (lookup gc.current_topic_id gc.message_cache) [
  | none ↦ offer 0
  | some entry ↦ elim (lookup message_id entry.messages) [
    | none ↦ no_message
    | some message ↦ offer message.user_id
  ]
]
  where
    offer : Int64 → MessageActions
    offer author =
        if not_positive gc.user_id
        then not_logged_in
        else if not_positive message_id
        then invalid_message
        else actions (gc.user_id == author)
