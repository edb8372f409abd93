-- ===== src/Fsm.antt =====
-- fsm/fsm.go: a machine given by its list of transitions. An error is what its message tells.
pub mod Transitions
use Prim.Native.Char.{nul}
use Prim.Native.String.{◌++◌}
use go_libs.Common.{
  Bool, true, false, not, Option, none, some, String, List, [], ◌∷◌, if◌then◌else◌, lookup, insert,
  string_discrete,
}

pub record Transition : Type 0 where
  pub from : String
  pub to : String
  pub action : String

-- The value of `struct{}`.
pub data Mark : Type 0 where
  mark : Mark

-- `states` and `transitions` are the maps of `Config` and `Machine`.
pub record Machine : Type 0 where
  pub config : List Transition
  pub states : List (String × Bool)
  pub transitions : List (String × Mark)

pub data TransitionError : Type 0 where
  invalid_source : String → TransitionError
  invalid_destination : String → TransitionError
  illegal : String → String → String → TransitionError

unfoldable pub transition_key : String → String → String → String
transition_key from to action = from ++ String.◌∷◌ nul (to ++ String.◌∷◌ nul action)

-- The loop of `NewMachine`, on the two maps.
unfoldable pub fill_states : List Transition → List (String × Bool) → List (String × Bool)
fill_states [] m = m
fill_states (t ∷ ts) m =
    fill_states ts (insert string_discrete t.to true (insert string_discrete t.from true m))

unfoldable pub fill_transitions : List Transition → List (String × Mark) → List (String × Mark)
fill_transitions [] m = m
fill_transitions (t ∷ ts) m =
    fill_transitions ts (insert string_discrete (transition_key t.from t.to t.action) mark m)

unfoldable pub new_machine : List Transition → Machine
new_machine transitions = record {
  config = transitions;
  states = fill_states transitions [];
  transitions = fill_transitions transitions [];
}

abbrev has_key : Option Mark → Bool
has_key none = false
has_key (some u) = true

-- A key that is not in the map reads as false.
abbrev value_or_false : Option Bool → Bool
value_or_false none = false
value_or_false (some b) = b

unfoldable pub can_transition : Machine → String → String → String → Bool
can_transition m from to action =
    has_key (lookup string_discrete (transition_key from to action) m.transitions)

-- `none` stands for nil.
unfoldable pub validate_transition : Machine → String → String → String → Option TransitionError
validate_transition m from to action =
    if not (value_or_false (lookup string_discrete from m.states))
    then some (invalid_source from)
    else if not (value_or_false (lookup string_discrete to m.states))
    then some (invalid_destination to)
    else if can_transition m from to action
    then none
    else some (illegal from to action)
