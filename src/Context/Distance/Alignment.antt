-- ===== src/Context/Distance/Alignment.antt =====
-- The distance is the least number of edits.
use native.Mathlib.Omega.{arith}
use mathlib.Core.List.{append-nil}
use beadloom.Base.{
  ℕ, suc, ◌+◌, ◌≤◌, String, List, [], ◌∷◌, ◌++◌, ◌==◌, nat_equality, ltb, length, ◌≡◌, refl, sym,
  ◌∙◌, ap, subst, Bool-cases, inl, inr, beq→eq, beq_refl,
}
use beadloom.Context.Distance.{
  codes, lesser, cost, extend_row, last_row, range_from, last_entry, ordered_distance, levenshtein,
}

-- An alignment of two texts with so many edits.
pub data Edits : ℕ → List ℕ → List ℕ → Type 0 where
  done : Edits 0 [] []
  keep : {n : ℕ} {s t : List ℕ} (c : ℕ) → Edits n s t → Edits n (c ∷ s) (c ∷ t)
  replace : {n : ℕ} {s t : List ℕ} (c d : ℕ) → Edits n s t → Edits (n + 1) (c ∷ s) (d ∷ t)
  delete : {n : ℕ} {s t : List ℕ} (c : ℕ) → Edits n s t → Edits (n + 1) (c ∷ s) t
  insert : {n : ℕ} {s t : List ℕ} (d : ℕ) → Edits n s t → Edits (n + 1) s (d ∷ t)

-- The recursive definition of the distance.
abbrev least_edits : List ℕ → List ℕ → ℕ
least_edits [] t = length t
least_edits (c ∷ s) [] = suc (length s)
least_edits (c ∷ s) (d ∷ t) =
    lesser (lesser (least_edits (c ∷ s) t + 1) (least_edits s (d ∷ t) + 1))
      (least_edits s t + cost c d)

least_edits-nil : (s : List ℕ) → least_edits s [] ≡ length s
least_edits-nil [] = refl
least_edits-nil (c ∷ s) = refl

insert_all : (t : List ℕ) → Edits (length t) [] t
insert_all [] = Edits.done
insert_all (d ∷ t) = subst (λ n. Edits n [] (d ∷ t)) (omega arith) (Edits.insert d (insert_all t))

delete_all : (s : List ℕ) → Edits (length s) s []
delete_all [] = Edits.done
delete_all (c ∷ s) = subst (λ n. Edits n (c ∷ s) []) (omega arith) (Edits.delete c (delete_all s))

substitute : {n : ℕ} {s t : List ℕ} (c d : ℕ) → Edits n s t → Edits (n + cost c d) (c ∷ s) (d ∷ t)
substitute {n} {s} {t} c d e = elim (Bool-cases (c == d)) [
  | inl same ↦ rw same (
      subst (λ x. Edits (n + 0) (c ∷ s) (x ∷ t)) (beq→eq c d same)
        (subst (λ m. Edits m (c ∷ s) (c ∷ t)) (omega arith) (Edits.keep c e)))
  | inr other ↦ rw other (Edits.replace c d e)
]

lesser-cases : (P : ℕ → Type 0) (a b : ℕ) → P a → P b → P (lesser a b)
lesser-cases P a b h k = elim (Bool-cases (ltb b a)) [ inl e ↦ rw e k | inr e ↦ rw e h ]

-- So many edits are enough.
Edits-least_edits : (s t : List ℕ) → Edits (least_edits s t) s t
Edits-least_edits [] t = insert_all t
Edits-least_edits (c ∷ s) [] = delete_all (c ∷ s)
Edits-least_edits (c ∷ s) (d ∷ t) =
    lesser-cases (λ n. Edits n (c ∷ s) (d ∷ t)) _ _
      (lesser-cases (λ n. Edits n (c ∷ s) (d ∷ t)) _ _
        (Edits.insert d (Edits-least_edits (c ∷ s) t))
        (Edits.delete c (Edits-least_edits s (d ∷ t))))
      (substitute c d (Edits-least_edits s t))

-- No fewer are.
least_edits-delete : (c : ℕ) (s t : List ℕ) → least_edits (c ∷ s) t ≤ least_edits s t + 1
least_edits-delete c s [] = omega (arith, least_edits-nil s)
least_edits-delete c s (d ∷ t) = ground arith

least_edits-insert : (d : ℕ) (s t : List ℕ) → least_edits s (d ∷ t) ≤ least_edits s t + 1
least_edits-insert d [] t = omega arith
least_edits-insert d (c ∷ s) t = ground arith

least_edits-cost :
    (c d : ℕ) (s t : List ℕ) → least_edits (c ∷ s) (d ∷ t) ≤ least_edits s t + cost c d
least_edits-cost c d s t = ground arith

least_edits_least : (n : ℕ) (s t : List ℕ) → Edits n s t → least_edits s t ≤ n
least_edits_least _ _ _ Edits.done = omega arith
least_edits_least _ _ _ (Edits.keep {n} {s} {t} c e) =
    ground (arith, least_edits-cost c c s t, beq_refl c, least_edits_least n s t e)
least_edits_least _ _ _ (Edits.replace {n} {s} {t} c d e) =
    ground (arith, least_edits-cost c d s t, least_edits_least n s t e)
least_edits_least _ _ _ (Edits.delete {n} {s} {t} c e) =
    omega (arith, least_edits-delete c s t, least_edits_least n s t e)
least_edits_least _ _ _ (Edits.insert {n} {s} {t} d e) =
    omega (arith, least_edits-insert d s t, least_edits_least n s t e)

rev_onto : List ℕ → List ℕ → List ℕ
rev_onto [] us = us
rev_onto (c ∷ s) us = rev_onto s (c ∷ us)

rev_onto_twice : (s us vs : List ℕ) → rev_onto (rev_onto s us) vs ≡ rev_onto us (s ++ vs)
unfolding rev_onto
rev_onto_twice [] us vs = refl
rev_onto_twice (c ∷ s) us vs = rev_onto_twice s (c ∷ us) vs

-- The entries of a row: the distances between a text that is read backwards and the beginnings of another.
row_of : List ℕ → List ℕ → List ℕ → List ℕ
row_of ps qs [] = least_edits ps qs ∷ []
row_of ps qs (d ∷ t) = least_edits ps qs ∷ row_of ps (d ∷ qs) t

extend_row-row_of :
    (c : ℕ) (ps qs t : List ℕ)
    → least_edits (c ∷ ps) qs ∷ extend_row c (least_edits (c ∷ ps) qs) (row_of ps qs t) t
      ≡ row_of (c ∷ ps) qs t
unfolding extend_row row_of
extend_row-row_of c ps qs [] = refl
extend_row-row_of c ps qs (d ∷ []) = refl
extend_row-row_of c ps qs (d ∷ e ∷ t) =
    ap (λ row. least_edits (c ∷ ps) qs ∷ row) (extend_row-row_of c ps (d ∷ qs) (e ∷ t))

last_row-row_of :
    (i : ℕ) (ps s t : List ℕ)
    → i ≡ length ps
    → last_row i (row_of ps [] t) s t ≡ row_of (rev_onto s ps) [] t
unfolding last_row rev_onto
last_row-row_of i ps [] t h = refl
last_row-row_of i ps (c ∷ s) t h =
    let next : (i + 1) ≡ length (c ∷ ps) = omega (arith, h) in
    ap (λ n. last_row (i + 1) (n ∷ extend_row c n (row_of ps [] t) t) s t) next
    ∙ (ap (λ row. last_row (i + 1) row s t) (extend_row-row_of c ps [] t)
        ∙ last_row-row_of (i + 1) (c ∷ ps) s t next)

range_from-row_of : (n : ℕ) (qs t : List ℕ) → n ≡ length qs → range_from n t ≡ row_of [] qs t
unfolding range_from row_of
range_from-row_of n qs [] h = ap (λ m. m ∷ []) h
range_from-row_of n qs (d ∷ t) h =
    ap (λ m. m ∷ range_from (n + 1) t) h
    ∙ ap (λ row. length qs ∷ row) (range_from-row_of (n + 1) (d ∷ qs) t (omega (arith, h)))

last_entry-row_of :
    (ps qs t : List ℕ) → last_entry (row_of ps qs t) ≡ least_edits ps (rev_onto t qs)
unfolding row_of rev_onto
last_entry-row_of ps qs [] = refl
last_entry-row_of ps qs (d ∷ []) = refl
last_entry-row_of ps qs (d ∷ e ∷ t) = last_entry-row_of ps (d ∷ qs) (e ∷ t)

length-rev_onto : (s us : List ℕ) → length (rev_onto s us) ≡ length s + length us
unfolding rev_onto
length-rev_onto [] us = omega arith
length-rev_onto (c ∷ s) us = omega (arith, length-rev_onto s (c ∷ us))

-- The table holds the distances of the texts read backwards.
ordered_distance-least_edits :
    (s t : List ℕ) → ordered_distance s t ≡ least_edits (rev_onto s []) (rev_onto t [])
unfolding ordered_distance rev_onto
ordered_distance-least_edits s [] =
    omega (arith, length-rev_onto s [], least_edits-nil (rev_onto s []))
ordered_distance-least_edits s (d ∷ t) =
    ap (λ row. last_entry (last_row 0 row s (d ∷ t))) (range_from-row_of 0 [] (d ∷ t) refl)
    ∙ (ap last_entry (last_row-row_of 0 [] s (d ∷ t) refl)
        ∙ last_entry-row_of (rev_onto s []) [] (d ∷ t))

Edits-rev_onto :
    (n m : ℕ) (s t us vs : List ℕ)
    → Edits n s t
    → Edits m us vs
    → Edits (n + m) (rev_onto s us) (rev_onto t vs)
unfolding rev_onto
Edits-rev_onto _ m _ _ us vs Edits.done k = subst (λ l. Edits l us vs) (omega arith) k
Edits-rev_onto _ m _ _ us vs (Edits.keep {n} {s} {t} c e) k =
    Edits-rev_onto n m s t (c ∷ us) (c ∷ vs) e (Edits.keep c k)
Edits-rev_onto _ m _ _ us vs (Edits.replace {n} {s} {t} c d e) k =
    subst (λ l. Edits l (rev_onto s (c ∷ us)) (rev_onto t (d ∷ vs))) (omega arith)
      (Edits-rev_onto n (m + 1) s t (c ∷ us) (d ∷ vs) e (Edits.replace c d k))
Edits-rev_onto _ m _ t us vs (Edits.delete {n} {s} c e) k =
    subst (λ l. Edits l (rev_onto s (c ∷ us)) (rev_onto t vs)) (omega arith)
      (Edits-rev_onto n (m + 1) s t (c ∷ us) vs e (Edits.delete c k))
Edits-rev_onto _ m s _ us vs (Edits.insert {n} {t = t} d e) k =
    subst (λ l. Edits l (rev_onto s us) (rev_onto t (d ∷ vs))) (omega arith)
      (Edits-rev_onto n (m + 1) s t us (d ∷ vs) e (Edits.insert d k))

Edits-reverse : (n : ℕ) (s t : List ℕ) → Edits n s t → Edits n (rev_onto s []) (rev_onto t [])
Edits-reverse n s t e =
    subst (λ l. Edits l (rev_onto s []) (rev_onto t [])) (omega arith)
      (Edits-rev_onto n 0 s t [] [] e Edits.done)

reverse_twice : (s : List ℕ) → rev_onto (rev_onto s []) [] ≡ s
unfolding rev_onto
reverse_twice s = rev_onto_twice s [] [] ∙ append-nil s

Edits_swap : (n : ℕ) (s t : List ℕ) → Edits n s t → Edits n t s
Edits_swap _ _ _ Edits.done = Edits.done
Edits_swap _ _ _ (Edits.keep {n} {s} {t} c e) = Edits.keep c (Edits_swap n s t e)
Edits_swap _ _ _ (Edits.replace {n} {s} {t} c d e) = Edits.replace d c (Edits_swap n s t e)
Edits_swap _ _ t (Edits.delete {n} {s} c e) = Edits.insert c (Edits_swap n s t e)
Edits_swap _ s _ (Edits.insert {n} {t = t} d e) = Edits.delete d (Edits_swap n s t e)

-- So many edits turn one text into the other, and no fewer do.
abbrev pub IsDistance : ℕ → List ℕ → List ℕ → Type 0
IsDistance d s t = Edits d s t × ((n : ℕ) → Edits n s t → d ≤ n)

ordered_distance-IsDistance : (s t : List ℕ) → IsDistance (ordered_distance s t) s t
ordered_distance-IsDistance s t =
    let r = rev_onto s [] in
    let u = rev_onto t [] in
    let back : Edits (least_edits r u) (rev_onto r []) (rev_onto u []) =
      Edits-reverse (least_edits r u) r u (Edits-least_edits r u) in
    subst (λ d. IsDistance d s t) (sym (ordered_distance-least_edits s t))
      (
        subst (λ x. Edits (least_edits r u) x t) (reverse_twice s)
            (subst (λ y. Edits (least_edits r u) (rev_onto r []) y) (reverse_twice t) back),
        λ n e. least_edits_least n r u (Edits-reverse n s t e),
      )

-- The distance of two texts is the least number of insertions, deletions and replacements of a character in an
-- alignment of the two.
pub levenshtein-IsDistance : (s t : String) → IsDistance (levenshtein s t) (codes s) (codes t)
unfolding levenshtein
levenshtein-IsDistance s t =
    let a = codes s in
    let b = codes t in
    elim (Bool-cases (ltb (length a) (length b))) [
      | inl e ↦
          let d = ordered_distance-IsDistance b a in
          rw e (Edits_swap _ b a d.0, λ n k. d.1 n (Edits_swap n a b k))
      | inr e ↦ rw e (ordered_distance-IsDistance a b)
    ]
