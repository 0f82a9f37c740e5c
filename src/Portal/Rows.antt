-- ===== src/Portal/Rows.antt =====
-- The rows that the portal of src/portal.cpp prints, and the end of its loop.
use lserver.Prelude.{ℕ, suc, ◌%◌, Bool, false, List, [], ◌∷◌, ◌++◌, ◌==◌, if◌then◌else◌}
use lserver.Stats.{LsStats, header_row, value_row, generate_rec}
use lserver.Manager
use lserver.Manager.{ServerManager}
use lserver.Portal.{Portal, Work}

-- The row `k` of all that are printed, counted from 0, and the rows from that one on.
abbrev pub row : (r k : ℕ) → LsStats → List ℕ
row r k s =
    let header = 10 ∷ header_row (generate_rec s) ++ 10 ∷ [] in
    let values = value_row (generate_rec s) ++ 10 ∷ [] in
    if k % r == 0 then header ++ values else values

abbrev pub rows : (r k : ℕ) → List LsStats → List ℕ
rows r k [] = []
rows r k (s ∷ samples) = row r k s ++ rows r (suc k) samples

-- The loads of rounds that go on.
abbrev pub unrequested {ℓ} : {A : Type ℓ} → List A → List (Bool × A)
unrequested [] = []
unrequested (work ∷ works) = (false, work) ∷ unrequested works

module _ {ℓ} {S : Type ℓ} where
  -- All samples of these rounds.
  abbrev pub round_samples : ServerManager S → List (Work S) → List LsStats
  round_samples m [] = []
  round_samples m ((others, clock) ∷ works) =
      (Manager.get_stats (others m) clock).1
      ++ round_samples (Manager.get_stats (others m) clock).0 works
