-- ===== src/LsContext/Lifecycle.antt =====
-- The life of a context of src/lscontext.hpp: held, stopped, reused.
use lserver.Prelude.{◌<◌, ◌≡◌, Bool, true, false, ◌⊎◌, inl, inr, arith, dec_lt, Bool-cases}
use lserver.Pool
use lserver.LsContext.{LsContext, ebusy, stop}

-- `stop` without force on a context that is held changes nothing and gives `EBUSY`. In all other
-- cases it gives 0 and leaves the context inactive, with no thread running, a new strand pool, and
-- the count of its sessions as it was.
pub stop_lem :
    (c : LsContext) (force : Bool)
    → ((0 < c.hold_cnt) × (force ≡ false) × (stop c force ≡ (c, ebusy)))
      ⊎ (((c.hold_cnt ≡ 0) ⊎ (force ≡ true))
          × ((stop c force).1 ≡ 0)
          × ((stop c force).0.active ≡ false)
          × ((stop c force).0.running ≡ 0)
          × ((stop c force).0.strand_pool ≡ Pool.empty 0)
          × ((stop c force).0.ref_cnt ≡ c.ref_cnt))
unfolding stop
stop_lem c force = elim (dec_lt 0 c.hold_cnt) [
  | yes held ↦ elim (Bool-cases force) [
    | inl forced ↦
        inr (inr forced, ground arith, ground arith, ground arith, ground arith, ground arith)
    | inr polite ↦ inl (held, polite, ground arith)
  ]
  | no free ↦
      inr (inl (omega arith), ground arith, ground arith, ground arith, ground arith, ground arith)
]
