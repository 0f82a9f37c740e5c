-- ===== src/DynamicQueue.antt =====
-- src/dynamic_queue.hpp: the queue of the buffers to send, the oldest first. A buffer is the number
-- of its address; each method locks the mutex for as long as it runs.
use lserver.Prelude.{ℕ, Bool, Option, none, some, List, [], ◌∷◌, ◌++◌, length, is_empty}

pub record DynamicQueue : Type 0 where
  pub q : List ℕ

abbrev pub push : DynamicQueue → ℕ → DynamicQueue
push d qb = record { q = d.q ++ qb ∷ [] }

-- `pop` and `front` of an empty queue are undefined.
abbrev pub pop : DynamicQueue → Option DynamicQueue
pop d = elim d.q [ [] ↦ none | qb ∷ rest ↦ some (record { q = rest }) ]

abbrev pub front : DynamicQueue → Option ℕ
front d = elim d.q [ [] ↦ none | qb ∷ rest ↦ some qb ]

abbrev pub clear : DynamicQueue → DynamicQueue
clear d = record { q = [] }

abbrev pub size : DynamicQueue → ℕ
size d = length d.q

abbrev pub empty : DynamicQueue → Bool
empty d = is_empty d.q
