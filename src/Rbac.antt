-- ===== src/Rbac.antt =====
-- rbac/engine.go. The engine has no state. `to_lower` and `trim_space` of package strings and
-- `strings.Split(s, ":")` are parameters.
pub mod Matching
use go_libs.Common.{
  ℕ, ◌==◌, ltb, Bool, true, false, ◌||◌, String, List, [], ◌∷◌, if◌then◌else◌, length, str_eq,
}

-- The loop of `Match` over both lists of segments, with their whole lengths `n` and `m`. The first
-- list is not the longer one, so the case of an index out of range does not arise.
unfoldable pub match_parts : ℕ → ℕ → List String → List String → Bool
match_parts n m [] rs = n == m
match_parts n m (p ∷ ps) [] = false
match_parts n m (p ∷ ps) (r ∷ rs) =
    let rest = match_parts n m ps rs in
    if str_eq p "*"
    then (if length ps == 0 then true else rest)
    else if str_eq p r
    then rest
    else false

unfoldable pub match_segments : List String → List String → Bool
match_segments ps rs =
    if ltb (length rs) (length ps) then false else match_parts (length ps) (length rs) ps rs

-- `Match` after both texts are brought to lower case and trimmed.
unfoldable pub match_normal : (String → List String) → String → String → Bool
match_normal split pattern requested =
    if str_eq pattern "" || str_eq requested ""
    then false
    else if str_eq pattern "*" || str_eq pattern "*:*"
    then true
    else if str_eq pattern requested
    then true
    else match_segments (split pattern) (split requested)

module _ (trim_space to_lower : String → String) (split : String → List String) where
  unfoldable pub matches : String → String → Bool
  matches pattern requested =
      match_normal split (trim_space (to_lower pattern)) (trim_space (to_lower requested))

  unfoldable pub has_permission : List String → String → Bool
  has_permission [] required = false
  has_permission (pattern ∷ perms) required =
      let rest = has_permission perms required in if matches pattern required then true else rest

  unfoldable pub has_any_permission : List String → List String → Bool
  has_any_permission perms [] = false
  has_any_permission perms (req ∷ reqs) =
      let rest = has_any_permission perms reqs in if has_permission perms req then true else rest

  unfoldable pub has_all_permissions : List String → List String → Bool
  has_all_permissions perms [] = true
  has_all_permissions perms (req ∷ reqs) =
      let rest = has_all_permissions perms reqs in if has_permission perms req then rest else false
