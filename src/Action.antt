-- ===== src/Action.antt =====
-- resourcey/core/service.py: the standard actions, and custom ones, which are names.
pub mod Laws
use resourcey.Prelude.{
  String, Bool, false, not, ◌&&◌, ◌||◌, List, [], ◌∷◌, str_eq, if◌then◌else◌, keep,
}

pub data Action : Type 0 where
  create read update delete search count batch_read : Action

-- An action as it is asked for: a member of the enumeration, or a string.
pub data Requested : Type 0 where
  member : Action → Requested
  named : String → Requested

-- The value of a member.
unfoldable pub action_value : Action → String
action_value create = "create"
action_value read = "read"
action_value update = "update"
action_value delete = "delete"
action_value search = "search"
action_value count = "count"
action_value batch_read = "batch_read"

abbrev pub actions : List Action
actions = create ∷ read ∷ update ∷ delete ∷ search ∷ count ∷ batch_read ∷ []

member_of : String → List Action → Requested
unfolding action_value
member_of s [] = named s
member_of s (a ∷ as') =
    let rest = member_of s as' in if str_eq (action_value a) s then member a else rest

-- The member that a string names, or the string itself.
unfoldable pub as_action : Requested → Requested
unfolding member_of
as_action (member a) = member a
as_action (named s) = member_of s actions

abbrev pub same_action : Action → Action → Bool
same_action a b = str_eq (action_value a) (action_value b)

abbrev pub has_action : Action → List Action → Bool
has_action a [] = false
has_action a (b ∷ bs) = same_action a b || has_action a bs

-- `normalize_actions`: `batch_read` goes where `read` is absent.
unfoldable pub normalize_actions : List Action → List Action
unfolding action_value
normalize_actions as' =
    if has_action batch_read as' && not (has_action read as')
    then keep (λ a. not (same_action a batch_read)) as'
    else as'

-- `normalize_action`: the singular action that a derived one reduces to.
unfoldable pub normalize_action : Action → Action
normalize_action count = search
normalize_action batch_read = read
normalize_action a = a
