-- ===== src/Cli/Router.antt =====
-- pkg/client/cli/cli.go, cli_router.go and the handlers: from a line to a request.
use Prim.Native.Char.{Char, char, code}
use razpravljalnica.Base.{
  nat_eq, string_eq, ℕ, Bool, List, Option, String, [], false, if◌then◌else◌, none, some, true, ◌∷◌,
  ◌==◌, ◌||◌, ◌&&◌, leb,
}
use razpravljalnica.Int64.{Int64}
use razpravljalnica.Event.{
  PostMessageRequest, UpdateMessageRequest, DeleteMessageRequest, LikeMessageRequest,
  CreateUserRequest, CreateTopicRequest,
}
use razpravljalnica.Node.Reads.{GetMessagesRequest}
use razpravljalnica.Cli.Helpers.{parse_id, parse_int32, parse_int64}

-- `unicode.IsSpace`
abbrev pub is_space : ℕ → Bool
is_space c =
    (leb 9 c && leb c 13)
    || c == 32
    || c == 133
    || c == 160
    || c == 5760
    || (leb 8192 c && leb c 8202)
    || c == 8232
    || c == 8233
    || c == 8239
    || c == 8287
    || c == 12288

-- The first word joins a word that is begun.
abbrev pub begin_word : Char → Bool → List String → List String
begin_word c true [] = String.◌∷◌ c String.[] ∷ []
begin_word c true (word ∷ words) = String.◌∷◌ c word ∷ words
begin_word c false words = String.◌∷◌ c String.[] ∷ words

-- Whether a text begins with a letter of a word
abbrev pub in_word : String → Bool
in_word String.[] = false
in_word (String.◌∷◌ c s) = if is_space (code c) then false else true

-- `strings.Fields`: the words between spaces. Spaces around a line are no fields.
unfoldable pub fields : String → List String
fields String.[] = []
fields (String.◌∷◌ c s) =
    let words = fields s in if is_space (code c) then words else begin_word c (in_word s) words

-- `s + t`
abbrev pub glue : String → String → String
glue String.[] t = t
glue (String.◌∷◌ c s) t = String.◌∷◌ c (glue s t)

abbrev pub space : Char
space = char 32 tt

-- `strings.Join(words, " ")`
abbrev pub join : List String → String
join [] = ""
join (word ∷ []) = word
join (word ∷ next ∷ words) = glue word (String.◌∷◌ space (join (next ∷ words)))

-- What a command line asks for: a request to the servers, or something at the client itself.
pub data Routed : Type 0 where
  help exit unknown usage invalid : Routed
  create_user : CreateUserRequest → Routed
  create_topic : CreateTopicRequest → Routed
  post_message : PostMessageRequest → Routed
  update_message : UpdateMessageRequest → Routed
  delete_message : DeleteMessageRequest → Routed
  like_message : LikeMessageRequest → Routed
  list_topics : Routed
  get_user : Int64 → Routed
  get_messages : GetMessagesRequest → Routed
  subscribe : Int64 → List Int64 → Routed
  loops loops_slowly : String → List String → Routed

abbrev or_invalid {ℓ} : {A : Type ℓ} → Option A → (A → Routed) → Routed
or_invalid none f = invalid
or_invalid (some a) f = f a

unfoldable pub create_user_args : List String → Routed
create_user_args [] = usage
create_user_args (word ∷ words) = create_user (record { name = join (word ∷ words) })

unfoldable pub create_topic_args : List String → Routed
create_topic_args [] = usage
create_topic_args (word ∷ words) = create_topic (record { name = join (word ∷ words) })

unfoldable pub post_message_args : List String → Routed
unfolding parse_id
post_message_args (user ∷ topic ∷ word ∷ words) = or_invalid (parse_id user) λ user_id.
    or_invalid (parse_id topic) λ topic_id.
      post_message (record { user_id = user_id; topic_id = topic_id; text = join (word ∷ words) })
post_message_args _ = usage

unfoldable pub update_message_args : List String → Routed
unfolding parse_id
update_message_args (topic ∷ user ∷ message ∷ word ∷ words) =
    or_invalid (parse_id topic) λ topic_id. or_invalid (parse_id user) λ user_id.
      or_invalid (parse_id message) λ message_id. update_message (record {
        topic_id = topic_id;
        user_id = user_id;
        message_id = message_id;
        text = join (word ∷ words);
      })
update_message_args _ = usage

-- Arguments behind the last that is used are passed over.
unfoldable pub delete_message_args : List String → Routed
unfolding parse_id
delete_message_args (topic ∷ user ∷ message ∷ _) = or_invalid (parse_id topic) λ topic_id.
    or_invalid (parse_id user) λ user_id. or_invalid (parse_id message) λ message_id.
      delete_message (record { topic_id = topic_id; user_id = user_id; message_id = message_id })
delete_message_args _ = usage

unfoldable pub like_message_args : List String → Routed
unfolding parse_id
like_message_args (topic ∷ message ∷ user ∷ _) = or_invalid (parse_id topic) λ topic_id.
    or_invalid (parse_id message) λ message_id. or_invalid (parse_id user) λ user_id.
      like_message (record { topic_id = topic_id; message_id = message_id; user_id = user_id })
like_message_args _ = usage

unfoldable pub get_user_args : List String → Routed
unfolding parse_id
get_user_args [] = usage
get_user_args (user ∷ _) = or_invalid (parse_id user) get_user

unfoldable pub get_messages_args : List String → Routed
unfolding parse_id parse_int32
get_messages_args (topic ∷ from ∷ count ∷ _) = or_invalid (parse_id topic) λ topic_id.
    or_invalid (parse_id from) λ from_id. or_invalid (parse_int32 count) λ limit.
      get_messages (record { topic_id = topic_id; from_message_id = from_id; limit = limit })
get_messages_args _ = usage

unfoldable pub parse_topics : List String → Option (List Int64)
unfolding parse_int64
parse_topics [] = some []
parse_topics (topic ∷ topics) =
    let later = parse_topics topics in
    elim (parse_int64 topic) [
      | none ↦ none
      | some topic_id ↦ elim later [ none ↦ none | some ids ↦ some (topic_id ∷ ids) ]
    ]

unfoldable pub subscribe_topics_args : List String → Routed
unfolding parse_topics
subscribe_topics_args (user ∷ topic ∷ topics) =
    or_invalid (parse_int64 user)
      λ user_id. or_invalid (parse_topics (topic ∷ topics)) λ topic_ids. subscribe user_id topic_ids
subscribe_topics_args _ = usage

abbrev loop_args : (String → List String → Routed) → List String → Routed
loop_args how [] = usage
loop_args how (command ∷ args) = how command args

unfoldable pub route : String → List String → Routed
unfolding create_user_args create_topic_args post_message_args update_message_args
    delete_message_args like_message_args get_user_args get_messages_args subscribe_topics_args
route command args =
    if command == "help" || command == "h"
    then help
    else if command == "exit" || command == "quit" || command == "q"
    then exit
    else if command == "createuser"
    then create_user_args args
    else if command == "createtopic"
    then create_topic_args args
    else if command == "post"
    then post_message_args args
    else if command == "update"
    then update_message_args args
    else if command == "delete"
    then delete_message_args args
    else if command == "like"
    then like_message_args args
    else if command == "topics"
    then list_topics
    else if command == "messages"
    then get_messages_args args
    else if command == "user"
    then get_user_args args
    else if command == "subscribe"
    then subscribe_topics_args args
    else if command == "loop"
    then loop_args loops args
    else if command == "loopslow"
    then loop_args loops_slowly args
    else unknown

-- Whether a command is an exit, or slow loops around one
unfoldable pub ends : List String → Bool
ends [] = false
ends (command ∷ args) =
    let inner = ends args in
    if command == "exit" || command == "quit" || command == "q"
    then true
    else if command == "loopslow"
    then inner
    else false

-- What the lines of a session ask for, up to the exit. An empty line asks for nothing.
unfoldable pub start_cli_client : List String → List Routed
unfolding fields route ends
start_cli_client [] = []
start_cli_client (line ∷ lines) =
    let later = start_cli_client lines in
    elim (fields line) [
      | [] ↦ later
      | command ∷ args ↦ if ends (command ∷ args) then [] else route command args ∷ later
    ]
