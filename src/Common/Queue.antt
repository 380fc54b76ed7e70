-- ===== src/Common/Queue.antt =====
-- `struct l_queue *`: a pointer to a sequence, or NULL. The operations accept NULL, as ELL documents.
use mathlib.Core.Bool.{Bool, true, false}
use mathlib.Core.Option.{Option, none, some}
use mathlib.Core.List.{List, [], ◌∷◌, ◌++◌}

abbrev pub Queue : Type 0 → Type 0
Queue A = Option (List A)

module _ {A : Type 0} where
  -- `l_queue_get_entries`: NULL has none.
  abbrev pub entries : Queue A → List A
  entries none = []
  entries (some xs) = xs

  -- `l_queue_push_tail`: nothing is stored in NULL.
  abbrev pub push_tail : Queue A → A → Queue A
  push_tail none x = none
  push_tail (some xs) x = some (xs ++ x ∷ [])

  -- `l_queue_isempty`.
  abbrev pub is_empty : Queue A → Bool
  is_empty none = true
  is_empty (some []) = true
  is_empty (some (x ∷ xs)) = false

  -- The loop of `queue_concat`: each entry goes to the tail.
  unfoldable pub push_all : Queue A → List A → Queue A
  push_all queue [] = queue
  push_all queue (x ∷ xs) = push_all (push_tail queue x) xs
