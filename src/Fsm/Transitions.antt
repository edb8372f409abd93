-- ===== src/Fsm/Transitions.antt =====
-- The maps of a machine stand for its list of transitions.
use Prim.Native.Char.{code, nul}
use Prim.Native.String.{◌++◌}
use Prim.Native.String.append
use go_libs.Common.{
  ◌≡◌, ◌↔◌, refl, sym, ap, ◌∙◌, subst, Bool, true, false, ◌==◌, none, some, String, List, [], ◌∷◌,
  ◌⊎◌, inl, inr, lookup, insert, string_discrete, lookup-insert_self, lookup-insert_ne, All, arith,
}
use go_libs.Fsm.{
  Transition, Mark, mark, has_key, value_or_false, transition_key, fill_states, fill_transitions,
  new_machine, can_transition, validate_transition,
}

-- A name without the character U+0000.
abbrev pub NoNul : String → Type 0
NoNul String.[] = Unit
NoNul (String.◌∷◌ c s) = ((code c == 0) ≡ false) × NoNul s

cut_first :
    (s t r q : String)
    → NoNul s
    → NoNul t
    → s ++ String.◌∷◌ nul r ≡ t ++ String.◌∷◌ nul q
    → (s ≡ t) × (r ≡ q)
cut_first String.[] String.[] r q a b e =
    let f : String.◌∷◌ nul r ≡ String.◌∷◌ nul q =
      sym (append.nil (String.◌∷◌ nul r)) ∙ e ∙ append.nil (String.◌∷◌ nul q) in
    (refl, cc f)
cut_first String.[] (String.◌∷◌ d t) r q a b e =
    let f : String.◌∷◌ nul r ≡ String.◌∷◌ d (t ++ String.◌∷◌ nul q) =
      sym (append.nil (String.◌∷◌ nul r)) ∙ e ∙ append.cons d t (String.◌∷◌ nul q) in
    let g : nul ≡ d = cc f in cc (ap (λ x. code x == 0) g, b.0)
cut_first (String.◌∷◌ c s) String.[] r q a b e =
    let f : String.◌∷◌ c (s ++ String.◌∷◌ nul r) ≡ String.◌∷◌ nul q =
      sym (append.cons c s (String.◌∷◌ nul r)) ∙ e ∙ append.nil (String.◌∷◌ nul q) in
    let g : c ≡ nul = cc f in cc (ap (λ x. code x == 0) g, a.0)
cut_first (String.◌∷◌ c s) (String.◌∷◌ d t) r q a b e =
    let f : String.◌∷◌ c (s ++ String.◌∷◌ nul r) ≡ String.◌∷◌ d (t ++ String.◌∷◌ nul q) =
      sym (append.cons c s (String.◌∷◌ nul r)) ∙ e ∙ append.cons d t (String.◌∷◌ nul q) in
    let g : s ++ String.◌∷◌ nul r ≡ t ++ String.◌∷◌ nul q = cc f in
    let (same, rest) = cut_first s t r q a.1 b.1 g in
    let head : c ≡ d = cc f in (cc (head, same), rest)

transition_key_injective :
    (from to action : String) (t : Transition)
    → NoNul from
    → NoNul to
    → NoNul t.from
    → NoNul t.to
    → transition_key t.from t.to t.action ≡ transition_key from to action
    → (t.from ≡ from) × (t.to ≡ to) × (t.action ≡ action)
unfolding transition_key
transition_key_injective from to action t a b c d e =
    let (p, rest) = cut_first t.from from _ _ c a e in
    let (q, r) = cut_first t.to to _ _ d b rest in (p, q, r)

-- The transition stands in the list.
abbrev pub Listed : String → String → String → List Transition → Type 0
Listed from to action [] = ⊥
Listed from to action (t ∷ ts) =
    ((t.from ≡ from) × (t.to ≡ to) × (t.action ≡ action)) ⊎ Listed from to action ts

abbrev Separable : Transition → Type 0
Separable t = NoNul t.from × NoNul t.to

in_key_map : String → List (String × Mark) → Bool
in_key_map k m = has_key (lookup string_discrete k m)

in_key_map-insert :
    (k q : String) (m : List (String × Mark))
    → in_key_map k m ≡ true
    → in_key_map k (insert string_discrete q mark m) ≡ true
unfolding in_key_map
in_key_map-insert k q m h = elim (string_discrete q k) [
  | yes e ↦ ap has_key (
      subst (λ x. lookup string_discrete x (insert string_discrete q mark m) ≡ some mark) e
        (lookup-insert_self string_discrete q mark m))
  | no ne ↦ ap has_key (lookup-insert_ne string_discrete q k mark m (λ e. ne (sym e))) ∙ h
]

in_key_map-fill_transitions :
    (k : String) (ts : List Transition) (m : List (String × Mark))
    → in_key_map k m ≡ true
    → in_key_map k (fill_transitions ts m) ≡ true
unfolding fill_transitions
in_key_map-fill_transitions k [] m h = h
in_key_map-fill_transitions k (t ∷ ts) m h =
    in_key_map-fill_transitions k ts _
      (in_key_map-insert k (transition_key t.from t.to t.action) m h)

recognized : String → List (String × Bool) → Bool
recognized k m = value_or_false (lookup string_discrete k m)

recognized-insert :
    (k q : String) (m : List (String × Bool))
    → (q ≡ k) ⊎ (recognized k m ≡ true)
    → recognized k (insert string_discrete q true m) ≡ true
unfolding recognized
recognized-insert k q m h = elim (string_discrete q k) [
  | yes e ↦ ap value_or_false (
      subst (λ x. lookup string_discrete x (insert string_discrete q true m) ≡ some true) e
        (lookup-insert_self string_discrete q true m))
  | no ne ↦ elim h [
    | inl e ↦ elim (ne e) [ ]
    | inr there ↦
        ap value_or_false (lookup-insert_ne string_discrete q k true m (λ e. ne (sym e))) ∙ there
  ]
]

recognized-fill_states :
    (k : String) (ts : List Transition) (m : List (String × Bool))
    → recognized k m ≡ true
    → recognized k (fill_states ts m) ≡ true
unfolding fill_states
recognized-fill_states k [] m h = h
recognized-fill_states k (t ∷ ts) m h =
    recognized-fill_states k ts _
      (recognized-insert k t.to _ (inr (recognized-insert k t.from m (inr h))))

module _ (from to action : String) (a : NoNul from) (b : NoNul to) where
  fill_transitions_sound :
      (ts : List Transition) (m : List (String × Mark))
      → All Separable ts
      → in_key_map (transition_key from to action) (fill_transitions ts m) ≡ true
      → Listed from to action ts ⊎ (in_key_map (transition_key from to action) m ≡ true)
  unfolding fill_transitions in_key_map
  fill_transitions_sound [] m s h = inr h
  fill_transitions_sound (t ∷ ts) m (s, ss) h = elim (fill_transitions_sound ts _ ss h) [
    | inl l ↦ inl (inr l)
    | inr g ↦
        elim (string_discrete (transition_key t.from t.to t.action)
          (transition_key from to action)) [
            | yes e ↦ inl (inl (transition_key_injective from to action t a b s.0 s.1 e))
            | no ne ↦ inr (
                sym (
                  ap has_key (
                    lookup-insert_ne string_discrete (transition_key t.from t.to t.action) _ mark m
                      (λ e. ne (sym e))))
                ∙ g)
          ]
  ]

  fill_transitions_complete :
      (ts : List Transition) (m : List (String × Mark))
      → Listed from to action ts
      → in_key_map (transition_key from to action) (fill_transitions ts m) ≡ true
  unfolding fill_transitions in_key_map
  fill_transitions_complete [] m l = elim l [ ]
  fill_transitions_complete (t ∷ ts) m (inr l) = fill_transitions_complete ts _ l
  fill_transitions_complete (t ∷ ts) m (inl (p, q, r)) =
      let same : transition_key t.from t.to t.action ≡ transition_key from to action =
        ap (λ x. transition_key x t.to t.action) p
        ∙ ap (λ x. transition_key from x t.action) q
        ∙ ap (transition_key from to) r in
      in_key_map-fill_transitions (transition_key from to action) ts _ (
        ap has_key (
          subst
            (λ x.
              lookup string_discrete x
                (insert string_discrete (transition_key t.from t.to t.action) mark m)
              ≡ some mark)
            same (lookup-insert_self string_discrete (transition_key t.from t.to t.action) mark m)))

  fill_states_complete :
      (ts : List Transition) (m : List (String × Bool))
      → Listed from to action ts
      → (recognized from (fill_states ts m) ≡ true) × (recognized to (fill_states ts m) ≡ true)
  unfolding fill_states
  fill_states_complete [] m l = elim l [ ]
  fill_states_complete (t ∷ ts) m (inr l) = fill_states_complete ts _ l
  fill_states_complete (t ∷ ts) m (inl (p, q, r)) = (
    recognized-fill_states from ts _
        (recognized-insert from t.to _ (inr (recognized-insert from t.from m (inl p)))),
    recognized-fill_states to ts _ (recognized-insert to t.to _ (inl q)),
  )

  -- On names of states without the character U+0000, a machine finds a transition valid if and only if it stands
  -- in the list that the machine was made from.
  pub validate_transition_lem :
      (ts : List Transition)
      → All Separable ts
      → (validate_transition (new_machine ts) from to action ≡ none) ↔ Listed from to action ts
  unfolding validate_transition can_transition new_machine in_key_map recognized lookup
  validate_transition_lem ts s = (
    λ h.
        let allowed : in_key_map (transition_key from to action) (fill_transitions ts []) ≡ true =
          ground (arith, h) in
        elim (fill_transitions_sound ts [] s allowed) [ inl l ↦ l | inr e ↦ cc e ],
    λ l.
        let (p, q) = fill_states_complete ts [] l in
        let allowed = fill_transitions_complete ts [] l in ground (arith, p, q, allowed),
  )
