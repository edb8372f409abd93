-- ===== src/Examples/Machines.antt =====
-- fsm/fsm.go at concrete inputs.
use go_libs.Common.{
  ◌≡◌, ◌↔◌, refl, true, none, some, List, [], ◌∷◌, lookup, insert, string_discrete,
}
use go_libs.Fsm.{
  Transition, new_machine, validate_transition, can_transition, transition_key, fill_states,
  fill_transitions, invalid_destination,
}
use go_libs.Fsm.Transitions.{Listed, validate_transition_lem}

abbrev orders : List Transition
orders =
    record { from = "draft"; to = "sent"; action = "send" }
    ∷ record { from = "sent"; to = "paid"; action = "pay" }
    ∷ []

no_such_state :
    validate_transition (new_machine orders) "sent" "lost" "pay" ≡ some (invalid_destination "lost")
unfolding validate_transition new_machine fill_states fill_transitions can_transition lookup insert
    string_discrete
no_such_state = refl

-- A name with the character U+0000: a transition that is not in the list is found valid.
nul_in_a_name :
    can_transition
      (new_machine (record { from = "a"; to = "b\0c"; action = "d" } ∷ []))
      "a"
      "b"
      "c\0d"
    ≡ true
unfolding can_transition new_machine fill_transitions transition_key lookup insert string_discrete
nul_in_a_name = refl

validate_transition_lem_example :
    (validate_transition (new_machine orders) "sent" "paid" "pay" ≡ none)
    ↔ Listed "sent" "paid" "pay" orders
validate_transition_lem_example =
    validate_transition_lem "sent" "paid" "pay" (refl, (refl, (refl, (refl, tt))))
      (refl, (refl, (refl, (refl, tt)))) orders
      (
        ((refl, (refl, (refl, (refl, (refl, tt))))), (refl, (refl, (refl, (refl, tt))))),
        (((refl, (refl, (refl, (refl, tt)))), (refl, (refl, (refl, (refl, tt))))), tt),
      )
