-- ===== src/Pool/Stack.antt =====
-- The stack of a pool of src/pool.hpp: what `borrow` takes off it.
use lserver.Prelude.{
  ℕ, ap, sym, subst, ◌∙◌, if_elim, ltb, ◌==◌, ==_refl, ==_iff, Bool-cases, ◌||◌, ◌≡◌, refl, ◌⊎◌,
  inl, inr, Bool, true, false, Option, none, some, List, [], ◌∷◌, arith, elem, Distinct,
}
use lserver.Pool.{
  Pool, borrow, try_borrow, take_or_create, label, subscribe, put_back, insert, add, add_all,
  construct, empty, Result, ok, err, invalid_args,
}

pub record Takes (stack : List ℕ) (active : Pool) (item : ℕ) (r : Pool × Option ℕ) : Type 0 where
  pub idle : r.0.callback_active ≡ active.callback_active
  pub distinct : Distinct r.0.pool
  pub rest : (y : ℕ) → elem y r.0.pool ≡ true → elem y stack ≡ true
  pub taken :
      (x : ℕ) → r.1 ≡ some x → (elem x r.0.pool ≡ false) × ((x ≡ item) ⊎ (elem x stack ≡ true))

take_or_create-Takes :
    (stack : List ℕ) (p : Pool) (item : ℕ)
    → p.pool ≡ stack
    → Distinct stack
    → Takes stack p item (take_or_create stack p item)
unfolding take_or_create subscribe elem
take_or_create-Takes [] p item e d =
    if_elim (Takes [] p item) (p.max_size == 0 || ltb p.num_items_in_flight p.max_size)
      (subscribe p item, some item) (p, none)
      (λ _. record {
        idle = refl;
        distinct = subst Distinct (sym e) tt;
        rest = λ y h. sym (ap (elem y) e) ∙ h;
        taken = λ x h. (ap (elem x) e, inl (ground (arith, h)));
      })
      (λ _. record {
        idle = refl;
        distinct = subst Distinct (sym e) tt;
        rest = λ y h. sym (ap (elem y) e) ∙ h;
        taken = λ x h. absurd (ground (arith, h));
      })
take_or_create-Takes (top ∷ stack) p item e d = record {
  idle = refl;
  distinct = d.1;
  rest = λ y h. ground (arith, h);
  taken = λ x h. (ground (arith, h, d.0), inr (ground (arith, h)));
}

label-Takes :
    (stack : List ℕ) (p : Pool) (id item : ℕ) (r : Pool × Option ℕ)
    → Takes stack p item r
    → Takes stack p item (label id r)
unfolding label
label-Takes stack p id item (q, none) t = t
label-Takes stack p id item (q, some x) t = record {
  idle = t.idle;
  distinct = t.distinct;
  rest = t.rest;
  taken = t.taken;
}

pub untaken : (p : Pool) (item : ℕ) → Distinct p.pool → Takes p.pool p item (p, none)
untaken p item d = record {
  idle = refl;
  distinct = d;
  rest = λ y h. h;
  taken = λ x h. absurd (ground (arith, h));
}

pub borrow-Takes :
    (p : Pool) (id item : ℕ) → Distinct p.pool → Takes p.pool p item (borrow p id item)
unfolding borrow try_borrow
borrow-Takes p id item d =
    label-Takes p.pool p id item (take_or_create p.pool p item)
      (take_or_create-Takes p.pool p item refl d)

-- With no client waiting, an item that is put back is on top.
pub put_back-pool :
    (p : Pool) (item : ℕ)
    → p.callback_active ≡ false
    → ((put_back p item).0.pool ≡ item ∷ p.pool) × ((put_back p item).0.callback_active ≡ false)
unfolding put_back insert
put_back-pool p item idle = (ground (arith, idle), ground (arith, idle))

pub elem-here : (x : ℕ) (xs : List ℕ) → elem x (x ∷ xs) ≡ true
unfolding elem
elem-here x xs = ground (arith, ==_refl x)

pub elem-there : (x y : ℕ) (xs : List ℕ) → elem x xs ≡ true → elem x (y ∷ xs) ≡ true
unfolding elem
elem-there x y xs h = ground (arith, h)

elem-apart :
    (x y : ℕ) (xs ys : List ℕ)
    → elem x xs ≡ true
    → elem y xs ≡ false
    → elem x ys ≡ false
    → elem x (y ∷ ys) ≡ false
unfolding elem
elem-apart x y xs ys h differ apart = elim (Bool-cases (y == x)) [
  | inl e ↦
      let same = ap (λ n. elem n xs) ((==_iff y x).0 e) in absurd (ground (arith, h, differ, same))
  | inr e ↦ ground (arith, e, apart)
]

add-pool :
    (p : Pool) (item : ℕ)
    → p.callback_active ≡ false
    → ((add p item).pool ≡ item ∷ p.pool) × ((add p item).callback_active ≡ false)
unfolding add insert subscribe
add-pool p item idle = (ground (arith, idle), ground (arith, idle))

add_all-pool :
    (p : Pool) (items : List ℕ)
    → p.callback_active ≡ false
    → Distinct p.pool
    → Distinct items
    → ((x : ℕ) → elem x items ≡ true → elem x p.pool ≡ false)
    → Distinct (add_all p items).pool × ((add_all p items).callback_active ≡ false)
unfolding add_all
add_all-pool p [] idle d ds apart = (d, idle)
add_all-pool p (item ∷ items) idle d ds apart =
    let (stack, idle') = add-pool p item idle in
    add_all-pool (add p item) items idle'
      (subst Distinct (sym stack) (apart item (elem-here item items), d)) ds.1
      (λ x h.
        ap (elem x) stack
        ∙ elem-apart x item items p.pool h ds.0 (apart x (elem-there x item items h)))

abbrev pub StartsIdle : Result Pool → Type 0
StartsIdle (ok p) = Distinct p.pool × (p.callback_active ≡ false)
StartsIdle (err e) = Unit

-- Different items are all in the pool, each once.
pub construct-StartsIdle :
    (max_size : ℕ) (eager : Bool) (items : List ℕ)
    → Distinct items
    → StartsIdle (construct max_size eager items)
unfolding construct elem
construct-StartsIdle max_size false items d = (tt, refl)
construct-StartsIdle max_size true items d =
    if_elim StartsIdle (max_size == 0) (err invalid_args) (ok (add_all (empty max_size) items))
      (λ _. tt) (λ _. add_all-pool (empty max_size) items refl tt d (λ x h. refl))
