-- ===== src/Tests/Guis.antt =====
-- pkg/client/gui: a client that keeps the messages of one topic.
use razpravljalnica.Base.{nat_eq, [], none, refl, some, ◌∷◌, ◌≡◌, arith}
use razpravljalnica.Int64.{Int64, minus_one}
use razpravljalnica.Dict.{lookup, insert}
use razpravljalnica.Outcome.{Outcome, returns, blocks, panics}
use razpravljalnica.Event.{Event, bare_event, op_post}
use razpravljalnica.AckSync.{EventApplicationResult}
use razpravljalnica.Storage.Types.{Message, new_storage}
use razpravljalnica.Storage.Users.{create_user}
use razpravljalnica.Storage.Topics.{create_topic}
use razpravljalnica.Storage.Messages.{post_message}
use razpravljalnica.Subscriptions.{
  new_subscription_manager, add_event_if_not_nil, add_message_event,
}
use razpravljalnica.Node.State.{Node, new_server}
use razpravljalnica.Node.Apply.{apply_event, message_result}
use razpravljalnica.Gui.{MessageCacheEntry, GuiClient, new_gui_client}
use razpravljalnica.Gui.Follows.{Follows, told, told-Follows}
use razpravljalnica.Gui.Selection.{index_from, navigate_messages, region, select_nearest_message}
use razpravljalnica.Gui.Selection.Moves.{navigate_messages_lem}
use razpravljalnica.Gui.Selection.Nearest.{select_nearest_message_lem}
use razpravljalnica.Tests.Data.{with_topics, with_topics-IsValid, hello}

abbrev node : Node
node = record (new_server "a" ":1") { storage = with_topics }

abbrev posts : Event
posts = record (bare_event 3 op_post 10) {
  post_message = some (record { topic_id = 1; user_id = 1; text = "hello" });
}

abbrev applied : Outcome (Node × EventApplicationResult) → Node × EventApplicationResult
applied (returns r) = r
applied blocks = (node, message_result (record { value = none; error = none }))
applied panics = (node, message_result (record { value = none; error = none }))

told-Follows_example :
    Follows 1 (told posts (some hello) new_gui_client) (applied (apply_event posts node)).0.storage
unfolding new_server new_storage create_user create_topic post_message lookup insert apply_event
    new_subscription_manager add_event_if_not_nil add_message_event new_gui_client
told-Follows_example =
    told-Follows posts node (applied (apply_event posts node)).0
      (applied (apply_event posts node)).1 new_gui_client 1 with_topics-IsValid refl (λ m. refl)

abbrev message : Int64 → Message
message id = record hello { id = id }

-- The message 2 has been deleted.
abbrev entry : MessageCacheEntry
entry = record { messages = (1, message 1) ∷ (3, message 3) ∷ []; order = 1 ∷ 2 ∷ 3 ∷ [] }

abbrev client : GuiClient
client = record new_gui_client { current_topic_id = 1; message_cache = (1, entry) ∷ [] }

navigate_messages_lem_example :
    (navigate_messages 1 (some 1) client ≡ region 3)
    × (navigate_messages minus_one (some 1) client ≡ region 1)
unfolding lookup index_from
navigate_messages_lem_example = navigate_messages_lem 1 client entry 0 refl refl (omega arith)

select_nearest_message_lem_example : select_nearest_message 1 2 (some 2) client ≡ region 3
unfolding lookup index_from
select_nearest_message_lem_example =
    select_nearest_message_lem 1 2 (some 2) client entry.messages (1 ∷ []) (3 ∷ []) refl refl refl
