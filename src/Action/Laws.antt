-- ===== src/Action/Laws.antt =====
-- What normalisation leaves of a set of actions (resourcey/core/service.py).
use resourcey.Prelude.{
  ◌≡◌, refl, Bool, true, not, ◌&&◌, ◌||◌, List, [], ◌∷◌, arith, keep, str_eq_iff,
}
use resourcey.Action.{
  Action, read, batch_read, action_value, same_action, has_action, normalize_actions,
}

abbrev stays : Action → Bool
stays a = not (same_action a batch_read)

same_stays : (a b : Action) → same_action a b ≡ true → stays b ≡ stays a
same_stays a b h = grind (arith, (str_eq_iff (action_value a) (action_value b)).0 h)

has_action-keep :
    (a : Action) (l : List Action) → has_action a (keep stays l) ≡ has_action a l && stays a
has_action-keep a [] = refl
has_action-keep a (b ∷ l) = grind (arith, has_action-keep a l, same_stays a b)

has_same :
    (a b : Action) (l : List Action) → same_action a b ≡ true → has_action a l ≡ has_action b l
has_same a b [] h = refl
has_same a b (x ∷ l) h =
    grind (arith, (str_eq_iff (action_value a) (action_value b)).0 h, has_same a b l h)

-- Normalisation of a set of actions keeps every action, but for the batch read where the set has
-- no read.
pub normalize_actions_lem :
    (a : Action) (l : List Action)
    → has_action a (normalize_actions l)
      ≡ has_action a l && (not (same_action a batch_read) || has_action read l)
unfolding normalize_actions
normalize_actions_lem a l = grind (arith, has_action-keep a l, has_same a batch_read l)
