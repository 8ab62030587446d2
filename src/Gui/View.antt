-- ===== src/Gui/View.antt =====
-- pkg/client/gui/gui_handlers_messages.go, `updateMessageView`: what is shown of a topic.
use razpravljalnica.Base.{
  nat_eq, ℕ, List, String, [], if◌then◌else◌, inl, inr, none, some, ◌∷◌, ◌⊎◌,
}
use razpravljalnica.Int64.{Int64, Int32, not_positive}
use razpravljalnica.Dict.{Dict, lookup, insert}
use razpravljalnica.Status.{CallError}
use razpravljalnica.Storage.Types.{User, Message}
use razpravljalnica.Gui.{GuiClient}
use razpravljalnica.Gui.Users.{get_user_name}

pub record Line : Type 0 where
  pub id : Int64
  pub user_name : String
  pub text : String
  pub likes : Int32
  pub created_at : ℕ

pub data View : Type 0 where
  instructions failure : View
  no_messages : String → View
  messages_of : String → List Line → View

-- The users of the messages that are not known yet
fetch_users : (Int64 → CallError ⊎ User) → Dict Int64 Message → Dict Int64 User → Dict Int64 User
fetch_users get_user [] users = users
fetch_users get_user ((_, msg) ∷ rest) users =
    fetch_users get_user rest (elim (lookup msg.user_id users) [
      | some _ ↦ users
      | none ↦
          insert msg.user_id
            (record {
              id = msg.user_id;
              name = elim (get_user_name (get_user msg.user_id)) [
                | inl e ↦ "Neznan uporabnik"
                | inr name ↦ name
              ];
            })
            users
    ])

abbrev line : String → Message → Line
line user_name msg = record {
  id = msg.id;
  user_name = user_name;
  text = msg.text;
  likes = msg.likes;
  created_at = msg.created_at;
}

-- An id without a message is passed over, and so is a message without a user.
unfoldable pub lines : Dict Int64 User → Dict Int64 Message → List Int64 → List Line
lines users messages [] = []
lines users messages (id ∷ rest) =
    let later = lines users messages rest in
    elim (lookup id messages) [
      | none ↦ later
      | some msg ↦ elim (lookup msg.user_id users) [
        | none ↦ later
        | some user ↦ line user.name msg ∷ later
      ]
    ]

unfoldable pub update_message_view :
    (Int64 → CallError ⊎ User) → Int64 → GuiClient → GuiClient × View
unfolding fetch_users lines
update_message_view get_user topic_id gc =
    if not_positive topic_id then (gc, instructions) else elim (lookup topic_id gc.topics) [
      | none ↦ (gc, failure)
      | some topic ↦ elim (lookup topic_id gc.message_cache) [
        | none ↦ (gc, failure)
        | some entry ↦
            let users = fetch_users get_user entry.messages gc.users in
            let shown : View = elim entry.order [
              | [] ↦ no_messages topic.name
              | _ ∷ _ ↦ messages_of topic.name (lines users entry.messages entry.order)
            ] in
            (record gc { users = users }, shown)
      ]
    ]
