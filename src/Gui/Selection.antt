-- ===== src/Gui/Selection.antt =====
-- pkg/client/gui/gui_handlers_messages.go, `selectNearestMessage` and `navigateMessages`, and what
-- gui.go does when a message is highlighted. The region of a message is the message's id. The view
-- is left out: what it highlights is an argument, and what it is told to highlight is the result.

pub mod Moves
pub mod Nearest
use razpravljalnica.Base.{
  nat_eq, ℕ, Bool, List, Option, [], if◌then◌else◌, none, some, zero, suc, ◌∷◌, ◌==◌, length,
  get_elem?, is_some, option_map, ◌+◌, ltb, ◌-◌, ◌%◌, ◌^◌, ◌<◌, not, take, drop, false, true, ◌++◌,
}
use razpravljalnica.Int64.{Int64, slt, dec, not_positive, add_64}
use razpravljalnica.Dict.{Dict, lookup, contains}
use razpravljalnica.Storage.Types.{Message}
use razpravljalnica.Gui.{MessageCacheEntry, GuiClient}

pub data Highlight : Type 0 where
  untouched cleared : Highlight
  region : Int64 → Highlight

-- The first index of a value, counted from `i`
unfoldable pub index_from : ℕ → Int64 → List Int64 → Option ℕ
index_from i id [] = none
index_from i id (x ∷ xs) = if x == id then some i else index_from (suc i) id xs

-- The first id of a list that has a message
abbrev pub first_valid : Dict Int64 Message → List Int64 → Option Int64
first_valid messages [] = none
first_valid messages (x ∷ xs) = if contains x messages then some x else first_valid messages xs

-- The last one: the loop that counts down.
abbrev pub last_valid : Dict Int64 Message → List Int64 → Option Int64
last_valid messages [] = none
last_valid messages (x ∷ xs) = elim (last_valid messages xs) [
  | some y ↦ some y
  | none ↦ if contains x messages then some x else none
]

-- The indices of the ids that have a message, counted from `i`
unfoldable pub valid_indices : ℕ → Dict Int64 Message → List Int64 → List ℕ
valid_indices i messages [] = []
valid_indices i messages (x ∷ xs) =
    if contains x messages
    then i ∷ valid_indices (suc i) messages xs
    else valid_indices (suc i) messages xs

-- Where an id stands among the valid indices
abbrev pub valid_position : Int64 → MessageCacheEntry → Option ℕ
valid_position id entry = elim (index_from 0 id entry.order) [
  | none ↦ none
  | some i ↦ index_from 0 i (valid_indices 0 entry.messages entry.order)
]

-- The message that is highlighted, or else the last one that was selected, if it is still there
abbrev pub current_valid_pos : Option Int64 → Int64 → MessageCacheEntry → Option ℕ
current_valid_pos (some id) last_id entry = valid_position id entry
current_valid_pos none last_id entry =
    if not (not_positive last_id)
    then (if contains last_id entry.messages then valid_position last_id entry else none)
    else none

-- Go's `int` is the 64-bit number.
abbrev pub next_valid_pos : Int64 → Option ℕ → ℕ → ℕ
next_valid_pos delta none count = if slt delta 0 then count - 1 else 0
next_valid_pos delta (some pos) count =
    let next = add_64 pos delta in
    if slt next 0 then 0 else if slt next count then next else count - 1

-- `nextValidPos` is an index of the list in every case.
unfoldable pub navigate_messages : Int64 → Option Int64 → GuiClient → Highlight
unfolding index_from valid_indices
navigate_messages delta highlighted gc = elim (lookup gc.current_topic_id gc.message_cache) [
  | none ↦ untouched
  | some entry ↦
      let indices = valid_indices 0 entry.messages entry.order in
      let current = current_valid_pos highlighted gc.last_selected_message_id entry in
      elim (get_elem? indices (next_valid_pos delta current (length indices))) [
        | none ↦ untouched
        | some index ↦ elim (get_elem? entry.order index) [ none ↦ untouched | some id ↦ region id ]
      ]
]

abbrev highlight_of : Option Int64 → Option Int64 → Highlight
highlight_of (some next) previous = region next
highlight_of none (some previous) = region previous
highlight_of none none = cleared

unfoldable pub select_nearest_message : Int64 → Int64 → Option Int64 → GuiClient → Highlight
unfolding index_from navigate_messages
select_nearest_message topic_id deleted_id highlighted gc =
    elim (lookup topic_id gc.message_cache) [
      | none ↦ untouched
      | some entry ↦ elim entry.order [
        | [] ↦ untouched
        | _ ∷ _ ↦ elim (index_from 0 deleted_id entry.order) [
          | none ↦ navigate_messages 0 highlighted gc
          | some pos ↦
              highlight_of (first_valid entry.messages (drop pos entry.order))
                (last_valid entry.messages (take pos entry.order))
        ]
      ]
    ]

-- The view's callback. The second part is the message whose dialog opens.
unfoldable pub on_highlighted : Option Int64 → GuiClient → GuiClient × Option Int64
on_highlighted none gc = (record gc { selected_message_id = 0 }, none)
on_highlighted (some id) gc = (
  record gc { selected_message_id = id; last_selected_message_id = id },
  if gc.is_navigating then none else some id,
)
