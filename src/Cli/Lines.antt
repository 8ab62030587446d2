-- ===== src/Cli/Lines.antt =====
-- pkg/client/cli/cli.go, cli_handler_writes.go: what a typed line asks for.
use Prim.Native.Char.{code}
use razpravljalnica.Base.{
  string_eq, nat_eq, All, Bool, List, String, [], arith, false, not, refl, some, true, ◌&&◌, ◌∷◌,
  ◌≡◌,
}
use razpravljalnica.Int64.{Int64}
use razpravljalnica.Cli.Helpers.{parse_id}
use razpravljalnica.Cli.Router.{
  post_message, post_message_args, is_space, fields, glue, space, join, route, ends,
  start_cli_client,
}

abbrev no_space : String → Bool
no_space String.[] = true
no_space (String.◌∷◌ c s) = not (is_space (code c)) && no_space s

-- A text that is not empty and has no spaces
abbrev pub is_word : String → Bool
is_word String.[] = false
is_word (String.◌∷◌ c s) = no_space (String.◌∷◌ c s)

abbrev pub IsWord : String → Type 0
IsWord word = is_word word ≡ true

fields-word : (word : String) → IsWord word → fields word ≡ word ∷ []
unfolding fields
fields-word String.[] w = cc
fields-word (String.◌∷◌ c String.[]) w = ground arith
fields-word (String.◌∷◌ c (String.◌∷◌ d s)) w = ground (arith, fields-word (String.◌∷◌ d s))

fields-glue :
    (word rest : String)
    → IsWord word
    → fields (glue word (String.◌∷◌ space rest)) ≡ word ∷ fields rest
unfolding fields
fields-glue String.[] rest w = cc
fields-glue (String.◌∷◌ c String.[]) rest w = ground arith
fields-glue (String.◌∷◌ c (String.◌∷◌ d s)) rest w =
    ground (arith, fields-glue (String.◌∷◌ d s) rest)

pub fields-join : (words : List String) → All IsWord words → fields (join words) ≡ words
unfolding fields
fields-join [] w = refl
fields-join (word ∷ []) w = fields-word word w.0
fields-join (word ∷ next ∷ words) w =
    rw (fields-glue word (join (next ∷ words)) w.0, fields-join (next ∷ words) w.1) refl

one_line :
    (line command : String) (args lines : List String)
    → fields line ≡ command ∷ args
    → ends (command ∷ args) ≡ false
    → start_cli_client (line ∷ lines) ≡ route command args ∷ start_cli_client lines
unfolding start_cli_client
one_line line command args lines typed goes_on = rw (start_cli_client, typed, goes_on) refl

-- A typed line of the word `post`, the ids of a user and of a topic, and at least one more word,
-- with single spaces between them, asks for one post of that user to that topic, with the further
-- words as its text; the session goes on with the next line.
pub post_line :
    (user topic word : String) (words lines : List String) (user_id topic_id : Int64)
    → All IsWord (user ∷ topic ∷ word ∷ words)
    → parse_id user ≡ some user_id
    → parse_id topic ≡ some topic_id
    → start_cli_client (join ("post" ∷ user ∷ topic ∷ word ∷ words) ∷ lines)
      ≡ post_message (record { user_id = user_id; topic_id = topic_id; text = join (word ∷ words) })
        ∷ start_cli_client lines
unfolding route post_message_args ends
post_line user topic word words lines user_id topic_id w u t =
    let typed =
      one_line (join ("post" ∷ user ∷ topic ∷ word ∷ words)) "post" (user ∷ topic ∷ word ∷ words)
        lines (fields-join ("post" ∷ user ∷ topic ∷ word ∷ words) (refl, w)) refl in
    rw (typed, u, t) refl
