-- ===== src/SessionPool/Reports.antt =====
-- What the sessions of src/session_pool.hpp have counted, and what a report takes of it.
use lserver.Prelude.{
  ℕ, ◌+◌, ◌^◌, ◌%◌, ◌≡◌, refl, ap, ◌∙◌, sym, subst, true, false, List, [], ◌∷◌, arith, ◌==◌, elem,
  ◌<◌, ==_refl, Distinct, if◌then◌else◌, if_elim, keys, add_word, ==_iff,
}
use lserver.Pool.{Pool}
use lserver.Stats.{SessionStats, clear}
use lserver.SessionPool.{
  SessionPool, fetch_add, set_delta, count, collect_one, collect, get_stats, empty,
}

pub data Counter : Type 0 where
  transactions received sent : Counter

abbrev pub value : Counter → SessionStats → ℕ
value transactions s = s.transactions_cnt_delta
value received s = s.bytes_received_delta
value sent s = s.bytes_sent_delta

pub value-fetch_add :
    (k : Counter) (s t : SessionStats) → value k (fetch_add s t) ≡ add_word (value k s) (value k t)
unfolding fetch_add
value-fetch_add transactions s t = refl
value-fetch_add received s t = refl
value-fetch_add sent s t = refl

pub value-clear : (k : Counter) → value k clear ≡ 0
value-clear transactions = refl
value-clear received = refl
value-clear sent = refl

-- What the sessions at these addresses have counted since their last report.
unfoldable pub pending : Counter → (ℕ → SessionStats) → List ℕ → ℕ
pending k deltas [] = 0
pending k deltas (item ∷ items) = value k (deltas item) + pending k deltas items

pending_other :
    (k : Counter) (deltas : ℕ → SessionStats) (item : ℕ) (s : SessionStats) (items : List ℕ)
    → elem item items ≡ false
    → pending k (set_delta deltas item s) items ≡ pending k deltas items
unfolding pending elem
pending_other k deltas item s [] h = refl
pending_other k deltas item s (j ∷ items) h =
    let rest = pending_other k deltas item s items (ground (arith, h)) in
    let first : value k (set_delta deltas item s j) ≡ value k (deltas j) =
      if_elim (λ t. value k t ≡ value k (deltas j)) (item == j) s (deltas j)
        (λ e. absurd (ground (arith, h, e))) (λ _. refl) in
    omega (arith, first, rest)

-- One session's counters are replaced.
pub pending-set_delta :
    (k : Counter) (deltas : ℕ → SessionStats) (item : ℕ) (s : SessionStats) (items : List ℕ)
    → Distinct items
    → elem item items ≡ true
    → pending k (set_delta deltas item s) items + value k (deltas item)
      ≡ pending k deltas items + value k s
unfolding pending elem
pending-set_delta k deltas item s [] d h = absurd (ground arith)
pending-set_delta k deltas item s (j ∷ items) d h =
    if_elim
      (λ t.
        value k t + pending k (set_delta deltas item s) items + value k (deltas item)
        ≡ value k (deltas j) + pending k deltas items + value k s)
      (item == j) s (deltas j)
      (λ e.
        let same : item ≡ j = ground (arith, e) in
        let fresh : elem item items ≡ false = ap (λ i. elem i items) same ∙ d.0 in
        omega (arith, pending_other k deltas item s items fresh, ap (λ i. value k (deltas i)) same))
      (λ e.
        let later : elem item items ≡ true = ground (arith, h, e) in
        omega (arith, pending-set_delta k deltas item s items d.1 later))

-- What is left at an address after a report of these.
collect-deltas :
    (p : SessionPool) (items : List ℕ) (j : ℕ)
    → (collect p items).deltas j ≡ (if elem j items then clear else p.deltas j)
unfolding collect collect_one elem
collect-deltas p [] j = refl
collect-deltas p (item ∷ items) j =
    collect-deltas (collect_one p item) items j
    ∙ if_elim
        (λ t.
          (if elem j items then clear else t)
          ≡ (if elem j (item ∷ items) then clear else p.deltas j))
        (item == j) clear (p.deltas j) (λ e. ground (arith, e)) (λ e. ground (arith, e))

pending_zero :
    (k : Counter) (deltas : ℕ → SessionStats) (items : List ℕ)
    → ((j : ℕ) → elem j items ≡ true → deltas j ≡ clear)
    → pending k deltas items ≡ 0
unfolding pending elem
pending_zero k deltas [] h = refl
pending_zero k deltas (item ∷ items) h = omega (
  arith,
  ap (value k) (h item (rw (==_refl item))),
  value-clear k,
  pending_zero k deltas items (λ j e. h j (ground (arith, e))),
)

collect-value :
    (k : Counter) (p : SessionPool) (items : List ℕ)
    → Distinct items
    → value k p.session_stats < 2 ^ 64
    → value k (collect p items).session_stats
      ≡ (value k p.session_stats + pending k p.deltas items) % 2 ^ 64
unfolding collect collect_one pending
collect-value k p [] d small = omega arith
collect-value k p (item ∷ items) (fresh, d) small =
    let one = value-fetch_add k p.session_stats (p.deltas item) in
    let rest = collect-value k (collect_one p item) items d (omega (arith, one)) in
    let same = pending_other k p.deltas item clear items fresh in omega (arith, one, rest, same)

-- What is pending in the sessions of a pool, all of whose other addresses have zero counters.
abbrev pub total : Counter → SessionPool → ℕ
total k p = pending k p.deltas (keys p.base.all_items)

pub record IsSound (p : SessionPool) : Type 0 where
  pub distinct : Distinct (keys p.base.all_items)
  pub unlisted : (j : ℕ) → elem j (keys p.base.all_items) ≡ false → p.deltas j ≡ clear

pub empty-IsSound : (max_size : ℕ) → IsSound (empty max_size)
empty-IsSound max_size = record { distinct = tt; unlisted = λ j h. refl }

pub count-IsSound :
    (p : SessionPool) (item : ℕ) (s : SessionStats)
    → elem item (keys p.base.all_items) ≡ true
    → IsSound p
    → IsSound (count p item s)
unfolding count
count-IsSound p item s known v = record {
  distinct = v.distinct;
  unlisted = λ j h.
      if_elim (λ t. t ≡ clear) (item == j) (fetch_add (p.deltas item) s) (p.deltas j)
        (λ e.
          absurd (cc (known, h, ap (λ i. elem i (keys p.base.all_items)) ((==_iff item j).0 e))))
        (λ _. v.unlisted j h);
}

pub count-total :
    (k : Counter) (p : SessionPool) (item : ℕ) (s : SessionStats)
    → elem item (keys p.base.all_items) ≡ true
    → IsSound p
    → total k (count p item s) % 2 ^ 64 ≡ (total k p + value k s) % 2 ^ 64
unfolding count
count-total k p item s known v = omega (
  arith,
  value-fetch_add k (p.deltas item) s,
  pending-set_delta k p.deltas item (fetch_add (p.deltas item) s) (keys p.base.all_items) v.distinct
      known,
)

collect-base : (p : SessionPool) (items : List ℕ) → (collect p items).base ≡ p.base
unfolding collect collect_one
collect-base p [] = refl
collect-base p (item ∷ items) = collect-base (collect_one p item) items

pub report-value :
    (k : Counter) (p : SessionPool) → IsSound p → value k (get_stats p).1.1 ≡ total k p % 2 ^ 64
unfolding get_stats
report-value k p v =
    let cleared : SessionPool = record p { session_stats = clear } in
    let all =
      collect-value k cleared (keys p.base.all_items) v.distinct (omega (arith, value-clear k)) in
    omega (arith, all, value-clear k)

pub report-base : (p : SessionPool) → (get_stats p).0.base ≡ p.base
unfolding get_stats
report-base p = collect-base (record p { session_stats = clear }) (keys p.base.all_items)

report-deltas :
    (p : SessionPool) (j : ℕ)
    → (get_stats p).0.deltas j ≡ (if elem j (keys p.base.all_items) then clear else p.deltas j)
unfolding get_stats
report-deltas p j = collect-deltas (record p { session_stats = clear }) (keys p.base.all_items) j

pub report-IsSound : (p : SessionPool) → IsSound p → IsSound (get_stats p).0
report-IsSound p v =
    let same = ap (λ (b : Pool). keys b.all_items) (report-base p) in
    record {
      distinct = subst Distinct (sym same) v.distinct;
      unlisted = λ j h.
          let out = sym (ap (elem j) same) ∙ h in report-deltas p j ∙ rw out (v.unlisted j out);
    }

pub report-total : (k : Counter) (p : SessionPool) → total k (get_stats p).0 ≡ 0
report-total k p =
    ap (λ (b : Pool). pending k (get_stats p).0.deltas (keys b.all_items)) (report-base p)
    ∙ pending_zero k (get_stats p).0.deltas (keys p.base.all_items)
        (λ j h. report-deltas p j ∙ rw h)
