-- ===== src/HttpHeader/Fields.antt =====
-- Which header lines src/http_header.hpp looks at, and where a header ends.
use lserver.Prelude.{
  ℕ, suc, ◌≤◌, ◌≡◌, refl, ◌↔◌, Bool, true, false, ◌||◌, some, List, [], ◌∷◌, map, arith, ltb,
  if◌then◌else◌, Bool-cases, Option-cases, inl, inr, length,
}
use lserver.HttpHeader.{
  charmap, nocase_less, connection, find_name, k_connection, ends_here, find_blank_line,
}

less_heads :
    (p q : ℕ) (r s : Bool)
    → (((if ltb p q then true else if ltb q p then false else r)
          || (if ltb q p then true else if ltb p q then false else s))
        ≡ false)
      ↔ ((p ≡ q) × ((r || s) ≡ false))
less_heads p q r s = (λ e. (ground arith, ground arith), λ (pq, e). ground arith)

-- Neither less nor greater is equal up to case.
nocase_less_iff :
    (a b : List ℕ)
    → ((nocase_less a b || nocase_less b a) ≡ false) ↔ (map charmap a ≡ map charmap b)
unfolding nocase_less
nocase_less_iff [] [] = (λ e. refl, λ e. refl)
nocase_less_iff [] (y ∷ ys) = (λ e. absurd (cc e), λ e. absurd (cc e))
nocase_less_iff (x ∷ xs) [] = (λ e. absurd (cc e), λ e. absurd (cc e))
nocase_less_iff (x ∷ xs) (y ∷ ys) =
    let h = less_heads (charmap x) (charmap y) (nocase_less xs ys) (nocase_less ys xs) in
    let t = nocase_less_iff xs ys in
    (
      λ e.
          cons_eq (charmap x) (charmap y) (map charmap xs) (map charmap ys) (h.0 e).0
            (t.0 (h.0 e).1),
      λ e. h.1 (
        head_eq (charmap x) (charmap y) (map charmap xs) (map charmap ys) e,
        t.1 (tail_eq (charmap x) (charmap y) (map charmap xs) (map charmap ys) e),
      ),
    )
  where
    cons_eq : (p q : ℕ) (m n : List ℕ) → p ≡ q → m ≡ n → p ∷ m ≡ q ∷ n
    cons_eq p q m n e f = cc (e, f)

    head_eq : (p q : ℕ) (m n : List ℕ) → p ∷ m ≡ q ∷ n → p ≡ q
    head_eq p q m n e = cc e

    tail_eq : (p q : ℕ) (m n : List ℕ) → p ∷ m ≡ q ∷ n → m ≡ n
    tail_eq p q m n e = cc e

-- The name of a header line is taken for that of the connection line exactly when it spells
-- `connection` up to the case that `charmap` folds.
pub find_name_iff :
    (name : List ℕ) → (find_name name ≡ k_connection) ↔ (map charmap name ≡ connection)
unfolding find_name
find_name_iff name =
    let e = nocase_less_iff name connection in (λ h. e.0 (ground arith), λ h. ground (arith, e.1 h))

ends_here_long : (xs : List ℕ) → ends_here xs ≡ true → 4 ≤ length xs
ends_here_long [] h = absurd (cc h)
ends_here_long (a ∷ []) h = absurd (cc h)
ends_here_long (a ∷ b ∷ []) h = absurd (cc h)
ends_here_long (a ∷ b ∷ c ∷ []) h = absurd (cc h)
ends_here_long (a ∷ b ∷ c ∷ d ∷ xs) h = omega arith

pub find_blank_line-bounds :
    (xs : List ℕ) (e : ℕ) → find_blank_line xs ≡ some e → (4 ≤ e) × (e ≤ length xs)
unfolding find_blank_line
find_blank_line-bounds [] e h = absurd (cc h)
find_blank_line-bounds (x ∷ xs) e h = elim (Bool-cases (ends_here (x ∷ xs))) [
  | inl now ↦
      let four : e ≡ 4 = ground (arith, now) in
      (omega arith, omega (arith, ends_here_long (x ∷ xs) now))
  | inr later ↦ elim (Option-cases (find_blank_line xs)) [
    | inl missing ↦ absurd (ground (arith, later, missing))
    | inr (i, found) ↦
        let b = find_blank_line-bounds xs i found in
        let next : e ≡ suc i = ground (arith, later, found) in (omega arith, omega arith)
  ]
]
