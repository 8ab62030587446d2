-- ===== src/Gui/Follows.antt =====
-- pkg/client/gui with pkg/server: the messages that the client keeps of a topic follow the storage of
-- the node that it is subscribed at.
use razpravljalnica.Base.{
  nat_eq, Option, arith, if◌then◌else◌, none, some, ◌==◌, ◌≡◌, ◌⊎◌, inl, inr, refl, ◌∙◌, sym,
}
use razpravljalnica.Int64.{Int64}
use razpravljalnica.Dict.{lookup, lookup-insert, lookup-erase}
use razpravljalnica.Outcome.{returns}
use razpravljalnica.Event.{
  Event, OpType, op_post, op_like, op_delete, op_update, op_create_user, op_create_topic,
}
use razpravljalnica.AckSync.{EventApplicationResult}
use razpravljalnica.Subscriptions.{MessageEvent, create_message_event}
use razpravljalnica.Storage.Types.{Message, Storage}
use razpravljalnica.Storage.Messages.{find_message}
use razpravljalnica.Storage.Effects.{written, erased}
use razpravljalnica.Storage.Valid.Defs.{IsValid}
use razpravljalnica.Node.State.{Node}
use razpravljalnica.Node.Apply.{apply_event}
use razpravljalnica.Node.Told.{applied_write, applied_delete, applied_create}
use razpravljalnica.Gui.{GuiClient}
use razpravljalnica.Gui.Stream.{entry_of, changed, stream_event}

-- The message that the client keeps under an id of a topic
abbrev pub kept : Int64 → Int64 → GuiClient → Option Message
kept t m gc = lookup m (entry_of t gc).messages

-- The client keeps what the node stores of a topic.
abbrev pub Follows : Int64 → GuiClient → Storage → Type 0
Follows t gc s = (m : Int64) → kept t m gc ≡ find_message t m s

-- The client after the node has told its subscribers of an event, which it does if there is a
-- message.
unfoldable pub told : Event → Option Message → GuiClient → GuiClient
told event none gc = gc
told event (some msg) gc =
    (stream_event (create_message_event msg event.sequence_number event.event_at event.op) gc).0

kept-stream_event :
    (event : MessageEvent) (t m : Int64) (gc : GuiClient)
    → let msg = event.message in
      kept t m (stream_event event gc).0 ≡ (
        if msg.topic_id == t
        then lookup m (changed event.op msg (entry_of t gc)).messages
        else kept t m gc)
unfolding stream_event
kept-stream_event event t m gc =
    let msg = event.message in
    ground (
      arith,
      lookup-insert msg.topic_id t (changed event.op msg (entry_of msg.topic_id gc))
          gc.message_cache,
    )

-- The client takes what it is told for a message that was written, at every kind of event but a
-- deletion, and at a deletion for one that was deleted.
told-written :
    (event : Event) (value : Option Message) (t m : Int64) (gc : GuiClient) (s : Storage)
    → (event.op ≡ op_post) ⊎ ((event.op ≡ op_update) ⊎ (event.op ≡ op_like))
    → Follows t gc s
    → kept t m (told event value gc) ≡ written value t m s
unfolding told create_message_event
told-written event none t m gc s op f = f m
told-written event (some msg) t m gc s op f = ground (
  arith,
  kept-stream_event (create_message_event msg event.sequence_number event.event_at event.op) t m gc,
  lookup-insert msg.id m msg (entry_of t gc).messages,
  f m,
)

told-erased :
    (event : Event) (value : Option Message) (t m : Int64) (gc : GuiClient) (s : Storage)
    → event.op ≡ op_delete
    → Follows t gc s
    → kept t m (told event value gc) ≡ erased value t m s
unfolding told create_message_event
told-erased event none t m gc s op f = f m
told-erased event (some msg) t m gc s op f = ground (
  arith,
  kept-stream_event (create_message_event msg event.sequence_number event.event_at event.op) t m gc,
  lookup-erase msg.id m (entry_of t gc).messages,
  f m,
)

-- Where the messages that a client keeps of a topic are those that a node with a valid storage
-- stores, and the node applies an event without a panic, they are so again after the client has
-- handled what the node tells its subscribers of that event, if it tells them anything.
pub told-Follows :
    (event : Event) (n n' : Node) (result : EventApplicationResult) (gc : GuiClient) (t : Int64)
    → IsValid n.storage
    → apply_event event n ≡ returns (n', result)
    → Follows t gc n.storage
    → Follows t (told event result.message gc) n'.storage
unfolding told
told-Follows event n n' result gc t v h f = by_op event.op refl
  where
    by_write :
        (event.op ≡ op_post) ⊎ ((event.op ≡ op_update) ⊎ (event.op ≡ op_like))
        → Follows t (told event result.message gc) n'.storage
    by_write op m =
        told-written event result.message t m gc n.storage op f
        ∙ sym (applied_write event n n' result v op h t m)

    by_create :
        (event.op ≡ op_create_user) ⊎ (event.op ≡ op_create_topic)
        → Follows t (told event result.message gc) n'.storage
    by_create op m =
        let (silent, same) = applied_create event n n' result v op h in rw (silent, same t m) (f m)

    by_op : (op : OpType) → event.op ≡ op → Follows t (told event result.message gc) n'.storage
    by_op op_post op = by_write (inl op)
    by_op op_update op = by_write (inr (inl op))
    by_op op_like op = by_write (inr (inr op))
    by_op op_create_user op = by_create (inl op)
    by_op op_create_topic op = by_create (inr op)
    by_op op_delete op = λ m.
        told-erased event result.message t m gc n.storage op f
        ∙ sym (applied_delete event n n' result v op h t m)
