-- ===== src/Gui/Users.antt =====
-- pkg/client/gui/gui_handlers_users.go, and `closeSubscriptions` of gui.go: users come and go.
use razpravljalnica.Base.{
  string_eq, nat_eq, Bool, List, Option, String, [], false, if◌then◌else◌, inl, inr, none, some,
  ◌==◌, ◌∷◌, ◌⊎◌,
}
use razpravljalnica.Int64.{Int64}
use razpravljalnica.Dict.{Dict, insert}
use razpravljalnica.Event.{CreateUserRequest}
use razpravljalnica.Status.{CallError}
use razpravljalnica.Storage.Types.{User}
use razpravljalnica.Cli.Helpers.{parse_int}
use razpravljalnica.Gui.{GuiClient}
use razpravljalnica.Gui.Messages.{Status, empty_text, failed, succeeded}

unfoldable pub handle_create_user : String → Option CreateUserRequest
handle_create_user user_name = if user_name == "" then none else some (record { name = user_name })

all_unsubscribed : List Int64 → Dict Int64 Bool → Dict Int64 Bool
all_unsubscribed [] marks = marks
all_unsubscribed (topic_id ∷ rest) marks = all_unsubscribed rest (insert topic_id false marks)

-- Every stream is told to stop.
unfoldable pub close_subscriptions : GuiClient → GuiClient
unfolding all_unsubscribed
close_subscriptions gc = record gc {
  subscribed_topics = all_unsubscribed gc.streams_chans gc.subscribed_topics;
  streams_chans = [];
}

-- The topics are fetched again as well.
unfoldable pub create_user_done : CallError ⊎ User → GuiClient → GuiClient × Status
unfolding close_subscriptions
create_user_done (inl e) gc = (gc, failed)
create_user_done (inr user) gc = (record (close_subscriptions gc) { user_id = user.id }, succeeded)

-- The answer to `GetUser` as a name
abbrev pub get_user_name : CallError ⊎ User → CallError ⊎ String
get_user_name (inl e) = inl e
get_user_name (inr user) = inr user.name

-- The subscriptions of the last user stay.
unfoldable pub handle_log_in_user :
    (Int64 → CallError ⊎ User) → String → GuiClient → GuiClient × Status
unfolding parse_int
handle_log_in_user get_user text gc =
    if text == "" then (gc, empty_text) else elim (parse_int 64 text) [
      | none ↦ (gc, failed)
      | some id ↦ elim (get_user_name (get_user id)) [
        | inl e ↦ (gc, failed)
        | inr name ↦ (record gc { user_id = id }, succeeded)
      ]
    ]
