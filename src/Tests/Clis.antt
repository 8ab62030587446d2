-- ===== src/Tests/Clis.antt =====
-- pkg/client/cli: two lines, and an id that does not fit in 32 bits.
use razpravljalnica.Base.{refl, none, ◌∷◌, [], ◌≡◌}
use razpravljalnica.Cli.Helpers.{parse_int, parse_id, parse_int64}
use razpravljalnica.Cli.Parses.{parse_int64_lem}
use razpravljalnica.Cli.Router.{post_message, list_topics, fields, route, ends, start_cli_client}
use razpravljalnica.Cli.Lines.{post_line}

parse_int64_lem_example : parse_int64 "2147483648" ≡ none
unfolding parse_id parse_int
parse_int64_lem_example = parse_int64_lem "2147483648"

post_line_example :
    start_cli_client ("post 1 2 hi all" ∷ "topics" ∷ [])
    ≡ post_message (record { user_id = 1; topic_id = 2; text = "hi all" }) ∷ list_topics ∷ []
unfolding parse_id parse_int fields route ends start_cli_client
post_line_example =
    post_line "1" "2" "hi" ("all" ∷ []) ("topics" ∷ []) 1 2 (refl, (refl, (refl, (refl, tt)))) refl
      refl
