-- ===== src/Program/Feed.antt =====
-- When `feed` of src/program.hpp returns, and what it has done then.
use lserver.Prelude.{
  ℕ, zero, suc, ◌≤◌, ◌<◌, ◌≡◌, refl, Bool, true, false, List, [], ◌∷◌, ◌++◌, arith, All, length,
  add_word, Bool-cases, ap, subst, sym, ◌⊎◌, inl, inr, ◌∙◌,
}
use lserver.Vm
use lserver.Vm.{Vm}
use lserver.Instruction.{Op, download, lock, unlock, sleep, loop, BaseOp, ops}
use lserver.Program.{
  Program, Ran, ran, blocked, lock_result, run_op, Fed, fed, stuck, out_of_fuel, feed_loop, feed,
}

module _ (rounds : List (Bool × (Vm → Vm))) (memory self : ℕ) where
  -- The first instruction is not due: the loop of `feed` goes round without end.
  feed_loop_spins :
      (fuel : ℕ) (p : Program) (vm : Vm) (eof : Bool) (i : BaseOp) (rest : List BaseOp)
      → p.cancellation_request ≡ false
      → p.instructions ≡ ops (i ∷ rest)
      → p.bytes_processed_cnt < i.exec_point
      → feed_loop rounds memory self fuel p vm eof ≡ out_of_fuel
  unfolding feed_loop
  feed_loop_spins zero p vm eof i rest c e h = refl
  feed_loop_spins (suc fuel) p vm eof i rest c e h =
      ground (arith, feed_loop_spins fuel p vm eof i rest c e h)

  -- When the program is not cancelled and the first instruction in the queue waits for more bytes
  -- than have arrived, no amount of fuel is enough for `feed` to return.
  pub feed_spins :
      (fuel : ℕ) (p : Program) (vm : Vm) (len : ℕ) (eof : Bool) (i : BaseOp) (rest : List BaseOp)
      → p.cancellation_request ≡ false
      → p.instructions ≡ ops (i ∷ rest)
      → add_word p.bytes_processed_cnt len < i.exec_point
      → feed rounds memory self fuel p vm len eof ≡ out_of_fuel
  unfolding feed
  feed_spins fuel p vm len eof i rest c e h = feed_loop_spins fuel _ vm eof i rest c e h

  -- What an instruction leaves of the program, or which one waits.
  abbrev Runs : Op → ℕ → Program → Vm → Ran → Type 0
  Runs op operand p vm (ran q vm') =
      (q.bytes_processed_cnt ≡ p.bytes_processed_cnt) × (q.has_vm ≡ p.has_vm)
  Runs op operand p vm (blocked q vm') =
      (op ≡ lock) × (q ≡ p) × (Vm.lock rounds vm memory self operand ≡ Vm.waiting vm')

  lock_result-Runs :
      (operand : ℕ) (p : Program) (vm : Vm) (r : Vm.Locked)
      → Vm.lock rounds vm memory self operand ≡ r
      → Runs lock operand p vm (lock_result rounds memory self p r)
  unfolding lock_result
  lock_result-Runs operand p vm (Vm.acquired vm') e = (refl, refl)
  lock_result-Runs operand p vm (Vm.cancelled vm') e = (refl, refl)
  lock_result-Runs operand p vm (Vm.waiting vm') e = (refl, refl, e)

  run_op-Runs :
      (op : Op) (operand : ℕ) (p : Program) (vm : Vm)
      → Runs op operand p vm (run_op rounds memory self op operand p vm)
  unfolding run_op
  run_op-Runs download operand p vm = (refl, refl)
  run_op-Runs lock operand p vm =
      lock_result-Runs operand p vm (Vm.lock rounds vm memory self operand) refl
  run_op-Runs unlock operand p vm = (refl, refl)
  run_op-Runs sleep operand p vm = (refl, refl)
  run_op-Runs loop operand p vm = (refl, refl)

  abbrev pub IsDue : ℕ → List BaseOp → Type 0
  IsDue n = All (λ i. i.exec_point ≤ n)

  -- Those of the instructions before this `LOCK` have run, and it waits.
  abbrev WaitsAt : List BaseOp → (done rest : List BaseOp) (i : BaseOp) → Program → Vm → Type 0
  WaitsAt is done rest i q vm =
      (is ≡ done ++ i ∷ rest)
      × (i.op ≡ lock)
      × (q.instructions ≡ ops (i ∷ rest))
      × (q.cancellation_request ≡ false)
      × ((u : Vm) × (Vm.lock rounds u memory self i.operand ≡ Vm.waiting vm))

  -- How the loop may end with these instructions: it returns with nothing left to run or
  -- cancelled, or its thread waits for a resource.
  abbrev pub Ends : List BaseOp → Bool → Fed → Type 0
  Ends is eof (fed q vm finished) =
      (finished ≡ eof)
      × (q.finished ≡ eof)
      × ((q.instructions ≡ ops []) ⊎ (q.cancellation_request ≡ true))
  Ends is eof (stuck q vm) =
      (done : List BaseOp) × (rest : List BaseOp) × (i : BaseOp) × WaitsAt is done rest i q vm
  Ends is eof Fed.crashed = ⊥
  Ends is eof out_of_fuel = ⊥

  Ends-cons :
      (i : BaseOp) (is : List BaseOp) (eof : Bool) (r : Fed) → Ends is eof r → Ends (i ∷ is) eof r
  Ends-cons i is eof (fed q vm finished) v = v
  Ends-cons i is eof (stuck q vm) (done, rest, j, (e, locks, same, on, waits)) =
      (i ∷ done, rest, j, (ap (λ t. i ∷ t) e, locks, same, on, waits))
  Ends-cons i is eof Fed.crashed v = v
  Ends-cons i is eof out_of_fuel v = v

  loop_cancelled :
      (fuel : ℕ) (p : Program) (vm : Vm) (eof : Bool)
      → p.cancellation_request ≡ true
      → feed_loop rounds memory self (suc fuel) p vm eof ≡ fed (record p { finished = eof }) vm eof
  unfolding feed_loop
  loop_cancelled fuel p vm eof c = ground arith

  loop_done :
      (fuel : ℕ) (p : Program) (vm : Vm) (eof : Bool)
      → p.cancellation_request ≡ false
      → p.instructions ≡ ops []
      → feed_loop rounds memory self (suc fuel) p vm eof ≡ fed (record p { finished = eof }) vm eof
  unfolding feed_loop
  loop_done fuel p vm eof c e = ground arith

  module _ (fuel : ℕ) (p : Program) (vm : Vm) (eof : Bool) (i : BaseOp) (rest : List BaseOp)
      (c : p.cancellation_request ≡ false) (machine : p.has_vm ≡ true)
      (e : p.instructions ≡ ops (i ∷ rest)) (due : i.exec_point ≤ p.bytes_processed_cnt) where
    loop_ran :
        (q : Program) (vm' : Vm)
        → run_op rounds memory self i.op i.operand p vm ≡ ran q vm'
        → feed_loop rounds memory self (suc fuel) p vm eof
          ≡ feed_loop rounds memory self fuel (record q { instructions = ops rest }) vm' eof
    unfolding feed_loop
    loop_ran q vm' r = ground arith

    loop_blocked :
        (q : Program) (vm' : Vm)
        → run_op rounds memory self i.op i.operand p vm ≡ blocked q vm'
        → feed_loop rounds memory self (suc fuel) p vm eof ≡ stuck q vm'
    unfolding feed_loop
    loop_blocked q vm' r = ground arith

  feed_loop-Ends :
      (fuel : ℕ) (p : Program) (vm : Vm) (eof : Bool) (is : List BaseOp)
      → p.has_vm ≡ true
      → p.instructions ≡ ops is
      → IsDue p.bytes_processed_cnt is
      → length is < fuel
      → Ends is eof (feed_loop rounds memory self fuel p vm eof)
  feed_loop-Ends zero p vm eof is m e d h = absurd (omega arith)
  feed_loop-Ends (suc fuel) p vm eof [] m e d h = elim (Bool-cases p.cancellation_request) [
    | inl c ↦ subst (Ends [] eof) (sym (loop_cancelled fuel p vm eof c)) (refl, refl, inr c)
    | inr c ↦ subst (Ends [] eof) (sym (loop_done fuel p vm eof c e)) (refl, refl, inl e)
  ]
  feed_loop-Ends (suc fuel) p vm eof (i ∷ rest) m e d h = elim (Bool-cases p.cancellation_request) [
    | inl c ↦ subst (Ends (i ∷ rest) eof) (sym (loop_cancelled fuel p vm eof c)) (refl, refl, inr c)
    | inr c ↦
        go c (run_op rounds memory self i.op i.operand p vm) refl (run_op-Runs i.op i.operand p vm)
          (λ q vm' k has.
            feed_loop-Ends fuel (record q { instructions = ops rest }) vm' eof rest (has ∙ m) refl
              (subst (λ n. IsDue n rest) (sym k) d.1) (omega arith))
  ]
    where
      go :
          p.cancellation_request ≡ false
          → (r : Ran) → run_op rounds memory self i.op i.operand p vm ≡ r
          → Runs i.op i.operand p vm r
          → ((q : Program) (vm' : Vm)
              → q.bytes_processed_cnt ≡ p.bytes_processed_cnt
              → q.has_vm ≡ p.has_vm
              → Ends rest eof (
                  feed_loop rounds memory self fuel (record q { instructions = ops rest }) vm' eof))
          → Ends (i ∷ rest) eof (feed_loop rounds memory self (suc fuel) p vm eof)
      go c (ran q vm') r (k, has) ih =
          subst (Ends (i ∷ rest) eof) (sym (loop_ran fuel p vm eof i rest c m e d.0 q vm' r))
            (Ends-cons i rest eof _ (ih q vm' k has))
      go c (blocked q vm') r (locks, same, waits) ih =
          subst (Ends (i ∷ rest) eof) (sym (loop_blocked fuel p vm eof i rest c m e d.0 q vm' r)) (
            [],
            rest,
            i,
            (
              refl,
              locks,
              ap (λ (t : Program). t.instructions) same ∙ e,
              ap (λ (t : Program). t.cancellation_request) same ∙ c,
              (vm, waits),
            ),
          )

  -- When the program has a machine and every instruction in the queue is due after the new bytes,
  -- one round for each instruction and one more are enough for `feed`: it returns its `eof`, with
  -- the queue empty or the program cancelled, or its thread is left waiting for the resource of a
  -- `LOCK` that is the first instruction still in the queue, those before it in the order of the
  -- queue having been popped; it neither crashes nor runs on.
  pub feed-Ends :
      (p : Program) (vm : Vm) (len : ℕ) (eof : Bool) (is : List BaseOp)
      → p.has_vm ≡ true
      → p.instructions ≡ ops is
      → IsDue (add_word p.bytes_processed_cnt len) is
      → Ends is eof (feed rounds memory self (suc (length is)) p vm len eof)
  unfolding feed
  feed-Ends p vm len eof is m e d =
      feed_loop-Ends (suc (length is))
        (record p { bytes_processed_cnt = add_word p.bytes_processed_cnt len }) vm eof is m e d
        (omega arith)

  -- The operand of the last `DOWNLOAD`, or what was there before.
  abbrev pub last_download : List BaseOp → ℕ → ℕ
  last_download [] n = n
  last_download (i ∷ is) n = last_download is (elim i.op [ download ↦ i.operand | _ ↦ n ])

  abbrev pub NoLock : List BaseOp → Type 0
  NoLock = All (λ i. ¬ (i.op ≡ lock))

  run_unlocked :
      (op : Op) (operand : ℕ) (p : Program) (vm : Vm)
      → ¬ (op ≡ lock)
      → (q : Program) × (vm' : Vm) × (run_op rounds memory self op operand p vm ≡ ran q vm')
        × (q.cancellation_request ≡ p.cancellation_request)
        × (q.bytes_processed_cnt ≡ p.bytes_processed_cnt)
        × (q.has_vm ≡ p.has_vm)
        × (q.download_size ≡ elim op [ download ↦ operand | _ ↦ p.download_size ])
  unfolding run_op
  run_unlocked download operand p vm n =
      (record p { result_code = 200; download_size = operand }, vm, refl, refl, refl, refl, refl)
  run_unlocked lock operand p vm n = absurd (n refl)
  run_unlocked unlock operand p vm n =
      (p, Vm.unlock vm memory self operand, refl, refl, refl, refl, refl)
  run_unlocked sleep operand p vm n = (p, vm, refl, refl, refl, refl, refl)
  run_unlocked loop operand p vm n = (p, vm, refl, refl, refl, refl, refl)

  -- The run of a script with no `LOCK`.
  abbrev pub Downloads : List BaseOp → ℕ → Bool → Fed → Type 0
  Downloads is before eof r =
      (q : Program) × (vm : Vm) × (r ≡ fed q vm eof)
      × (q.instructions ≡ ops [])
      × (q.download_size ≡ last_download is before)

  feed_loop-Downloads :
      (fuel : ℕ) (p : Program) (vm : Vm) (eof : Bool) (is : List BaseOp)
      → p.cancellation_request ≡ false
      → p.has_vm ≡ true
      → p.instructions ≡ ops is
      → IsDue p.bytes_processed_cnt is
      → NoLock is
      → length is < fuel
      → Downloads is p.download_size eof (feed_loop rounds memory self fuel p vm eof)
  feed_loop-Downloads zero p vm eof is c m e d n h = absurd (omega arith)
  feed_loop-Downloads (suc fuel) p vm eof [] c m e d n h =
      (record p { finished = eof }, vm, loop_done fuel p vm eof c e, e, refl)
  feed_loop-Downloads (suc fuel) p vm eof (i ∷ rest) c m e d n h =
      let (q, vm', r, qc, qb, qm, qd) = run_unlocked i.op i.operand p vm n.0 in
      let (t, vm'', s, te, td) =
        feed_loop-Downloads fuel (record q { instructions = ops rest }) vm' eof rest (qc ∙ c)
          (qm ∙ m) refl (subst (λ b. IsDue b rest) (sym qb) d.1) n.1 (omega arith) in
      (
        t,
        vm'',
        loop_ran fuel p vm eof i rest c m e d.0 q vm' r ∙ s,
        te,
        td ∙ ap (last_download rest) qd,
      )

  -- When the program has a machine and is not cancelled, every instruction in the queue is due
  -- after the new bytes and none is a `LOCK`, `feed` returns its `eof` with an empty queue, and
  -- the download size is the operand of the last `DOWNLOAD`, or what it was if there is none.
  pub feed-Downloads :
      (p : Program) (vm : Vm) (len : ℕ) (eof : Bool) (is : List BaseOp)
      → p.cancellation_request ≡ false
      → p.has_vm ≡ true
      → p.instructions ≡ ops is
      → IsDue (add_word p.bytes_processed_cnt len) is
      → NoLock is
      → Downloads is p.download_size eof (feed rounds memory self (suc (length is)) p vm len eof)
  unfolding feed
  feed-Downloads p vm len eof is c m e d n =
      feed_loop-Downloads (suc (length is))
        (record p { bytes_processed_cnt = add_word p.bytes_processed_cnt len }) vm eof is c m e d n
        (omega arith)
