-- ===== src/Gui/Stream.antt =====
-- pkg/client/gui/gui_handlers_messages.go, `handleSubscriptionStream`: an event of a subscription,
-- and the end of its stream.
use razpravljalnica.Base.{
  nat_eq, Bool, Option, false, if◌then◌else◌, none, some, true, ◌&&◌, ◌==◌, not,
}
use razpravljalnica.Int64.{Int64, not_positive}
use razpravljalnica.Dict.{lookup, insert}
use razpravljalnica.Event.{
  OpType, op_post, op_like, op_delete, op_update, op_create_user, op_create_topic,
}
use razpravljalnica.Storage.Types.{Message}
use razpravljalnica.Subscriptions.{MessageEvent}
use razpravljalnica.Gui.{MessageCacheEntry, GuiClient, empty_entry}
use razpravljalnica.Gui.Messages.{appended, replaced, removed}

abbrev pub entry_of : Int64 → GuiClient → MessageCacheEntry
entry_of topic_id gc = elim (lookup topic_id gc.message_cache) [
  | none ↦ empty_entry
  | some entry ↦ entry
]

-- What an event does to the entry of its topic.
abbrev pub changed : OpType → Message → MessageCacheEntry → MessageCacheEntry
changed op_post msg entry = appended msg entry
changed op_delete msg entry = removed msg.id entry
changed op_update msg entry = replaced msg entry
changed op_like msg entry = replaced msg entry
changed op_create_user msg entry = entry
changed op_create_topic msg entry = entry

abbrev is_delete : OpType → Bool
is_delete op_delete = true
is_delete op_post = false
is_delete op_like = false
is_delete op_update = false
is_delete op_create_user = false
is_delete op_create_topic = false

-- One event. The second part is the message for which another one is selected. A message of another
-- topic than the current one marks its topic as unread.
unfoldable pub stream_event : MessageEvent → GuiClient → GuiClient × Option Int64
stream_event event gc =
    let msg = event.message in
    let gc' : GuiClient = record gc {
      message_cache =
          insert msg.topic_id (changed event.op msg (entry_of msg.topic_id gc)) gc.message_cache;
    } in
    if msg.topic_id == gc.current_topic_id
    then (
      gc',
      if is_delete event.op && gc.selected_message_id == msg.id && not (not_positive msg.id)
          then some msg.id
          else none,
    )
    else (record gc' { unread_topic = insert msg.topic_id true gc.unread_topic }, none)

-- `Recv` fails.
unfoldable pub stream_failed : Int64 → GuiClient → GuiClient
stream_failed topic_id gc = record gc {
  subscribed_topics = insert topic_id false gc.subscribed_topics;
}
