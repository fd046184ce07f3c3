-- ===== src/Logical/Split.antt =====
-- The split of `load_logical` and the order of its nodes.
pub mod Like
use mathlib.Core.List.{reverse-cons, reverse-append, map-append}
use stoxdb.Prelude.{
  ℕ, zero, suc, ◌+◌, ◌≤◌, List, [], ◌∷◌, ◌++◌, map, reverse, Bool, true, false, ◌||◌, ◌≡◌, refl,
  sym, ◌∙◌, ap, inl, inr, Bool-cases, if◌then◌else◌, subst, length, arith, append_assoc, append-nil,
}
use stoxdb.Outcome.{Outcome, ok, ub, ◌>>=◌, Post, returns, Post-ok, Post-map, if_both}
use stoxdb.Expression.{Kind, is_kind, is_compare_type, is_like_type, Node, Expression}
use stoxdb.Logical.{
  LogicalNode, Logical, is_relation, convert, make_right_expression, count_left, count_right,
  pop_left, ends_right, ends_left, make_left_expression, relation, split_loop, split, mark_pattern,
  mark_like, mark_likes,
}

-- What a node of a condition keeps of the nodes of the expression: of those of its operands all, of its
-- own the kind.
pub data Part (F : Type 0) : Type 0 where
  whole : Node F → Part F
  sign : Kind → Part F

abbrev pub node_parts : {F : Type 0} → LogicalNode F → List (Part F)
node_parts n = map whole n.left ++ (sign n.type ∷ map whole n.right)

abbrev pub logical_parts : {F : Type 0} → Logical F → List (Part F)
logical_parts [] = []
logical_parts (n ∷ ns) = node_parts n ++ logical_parts ns

abbrev pub IsPart : {F : Type 0} → Part F → Node F → Type 0
IsPart (whole y) x = y ≡ x
IsPart (sign k) x = k ≡ x.type

-- Each part is one of the node at its place, and no node is left.
abbrev pub Covers : {F : Type 0} → List (Part F) → Expression F → Type 0
Covers [] [] = Unit {0}
Covers [] (x ∷ xs) = ⊥
Covers (p ∷ ps) [] = ⊥
Covers (p ∷ ps) (x ∷ xs) = IsPart p x × Covers ps xs

module _ {F : Type 0} where
  Covers-append :
      (ps qs : List (Part F)) (xs ys : Expression F)
      → Covers ps xs
      → Covers qs ys
      → Covers (ps ++ qs) (xs ++ ys)
  Covers-append [] qs [] ys h k = k
  Covers-append [] qs (x ∷ xs) ys h k = absurd h
  Covers-append (p ∷ ps) qs [] ys h k = absurd h
  Covers-append (p ∷ ps) qs (x ∷ xs) ys h k = (h.0, Covers-append ps qs xs ys h.1 k)

  Covers-whole : (xs : Expression F) → Covers (map whole xs) xs
  Covers-whole [] = tt
  Covers-whole (x ∷ xs) = (refl, Covers-whole xs)

  logical_parts-append :
      (ms ns : Logical F) → logical_parts (ms ++ ns) ≡ logical_parts ms ++ logical_parts ns
  logical_parts-append [] ns = refl
  logical_parts-append (m ∷ ms) ns =
      rw (logical_parts-append ms ns)
        (sym (append_assoc (node_parts m) (logical_parts ms) (logical_parts ns)))

  convert-Covers :
      (st : Expression F) → Covers (logical_parts (reverse (map convert st))) (reverse st)
  unfolding convert
  convert-Covers [] = tt
  convert-Covers (x ∷ st) =
      rw
        (
          reverse-cons (convert x) (map convert st),
          reverse-cons x st,
          logical_parts-append (reverse (map convert st)) (convert x ∷ []),
        )
        (Covers-append _ _ (reverse st) (x ∷ []) (convert-Covers st) (refl, tt))

  make_right-append :
      (d : ℕ) (xs : Expression F)
      → (make_right_expression d xs).0 ++ (make_right_expression d xs).1 ≡ xs
  unfolding make_right_expression
  make_right-append d [] = refl
  make_right-append d (x ∷ xs) =
      if_both (λ (r : Expression F × Expression F). r.0 ++ r.1 ≡ x ∷ xs) (ends_right d x)
        (λ _. refl) (λ _. ap (◌∷◌ x) (make_right-append (count_left d x) xs))

  pop_left-append : (d : ℕ) (st : Expression F) → (pop_left d st).0 ++ (pop_left d st).1 ≡ st
  unfolding pop_left
  pop_left-append d [] = refl
  pop_left-append d (x ∷ st) =
      if_both (λ (r : Expression F × Expression F). r.0 ++ r.1 ≡ x ∷ st) (ends_left d x) (λ _. refl)
        (λ _. ap (◌∷◌ x) (pop_left-append (count_right d x) st))

  length-make_right :
      (d : ℕ) (xs : Expression F) → length (make_right_expression d xs).1 ≤ length xs
  unfolding make_right_expression
  length-make_right d [] = omega arith
  length-make_right d (x ∷ xs) =
      if_both (λ (r : Expression F × Expression F). length r.1 ≤ suc (length xs)) (ends_right d x)
        (λ _. omega arith) (λ _. omega (arith, length-make_right (count_left d x) xs))

  -- The nodes that the loop has taken off `st`.
  flush-Covers :
      (st front : Expression F) (lg : Logical F)
      → Covers (logical_parts (reverse lg)) front
      → Covers (logical_parts (reverse (map convert st ++ lg))) (front ++ reverse st)
  flush-Covers st front lg h =
      rw
        (
          reverse-append (map convert st) lg,
          logical_parts-append (reverse lg) (reverse (map convert st)),
        )
        (Covers-append (logical_parts (reverse lg)) _ front (reverse st) h (convert-Covers st))

  -- The node `x` with its operands, put behind what the loop has.
  relation-Covers :
      (x : Node F) (st xs front : Expression F) (lg : Logical F)
      → Covers (logical_parts (reverse lg)) front
      → Covers
          (logical_parts
            (reverse (relation x st xs ∷ (map convert (make_left_expression st).1 ++ lg))))
          (front
            ++ reverse (pop_left 0 st).1
            ++ (reverse (pop_left 0 st).0 ++ (x ∷ (make_right_expression 0 xs).0)))
  unfolding relation make_left_expression convert
  relation-Covers x st xs front lg h =
      rw
        (
          reverse-cons (relation x st xs) (map convert (pop_left 0 st).1 ++ lg),
          logical_parts-append (reverse (map convert (pop_left 0 st).1 ++ lg))
              (relation x st xs ∷ []),
          append-nil,
        )
        (Covers-append _ _ (front ++ reverse (pop_left 0 st).1) _
          (flush-Covers (pop_left 0 st).1 front lg h)
          (Covers-append _ _ (reverse (pop_left 0 st).0) _
            (Covers-whole (reverse (pop_left 0 st).0))
            (refl, Covers-whole (make_right_expression 0 xs).0)))

  regroup :
      (x : Node F) (front a b o rest st xs : Expression F)
      → a ++ b ≡ st
      → o ++ rest ≡ xs
      → front ++ a ++ (b ++ (x ∷ o)) ++ rest ≡ front ++ (st ++ (x ∷ xs))
  regroup x front a b o rest st xs l r = rw (← l, ← r) (simp append_assoc)

  -- In front of `x` stands `st`, behind it `xs`.
  around :
      (x : Node F) (st xs front : Expression F)
      → front
          ++ reverse (pop_left 0 st).1
          ++ (reverse (pop_left 0 st).0 ++ (x ∷ (make_right_expression 0 xs).0))
          ++ (make_right_expression 0 xs).1
        ≡ front ++ (reverse st ++ (x ∷ xs))
  around x st xs front =
      regroup x front (reverse (pop_left 0 st).1) (reverse (pop_left 0 st).0)
        (make_right_expression 0 xs).0 (make_right_expression 0 xs).1 (reverse st) xs
        (sym (reverse-append (pop_left 0 st).0 (pop_left 0 st).1)
          ∙ ap reverse (pop_left-append 0 st))
        (make_right-append 0 xs)

  -- With fuel for the nodes left, the loop ends, and what it has covers the nodes.
  split_loop-Covers :
      (n : ℕ) (xs st front : Expression F) (lg : Logical F)
      → length xs ≤ n
      → Covers (logical_parts (reverse lg)) front
      → Post (λ r. Covers (logical_parts r) (front ++ (reverse st ++ xs))) (split_loop n xs st lg)
  unfolding split_loop
  split_loop-Covers zero [] st front lg h c = returns (rw append-nil (flush-Covers st front lg c))
  split_loop-Covers zero (x ∷ xs) st front lg h c = absurd (omega (arith, h))
  split_loop-Covers (suc n) [] st front lg h c =
      returns (rw append-nil (flush-Covers st front lg c))
  split_loop-Covers (suc n) (x ∷ xs) st front lg h c = elim (Bool-cases (is_relation x.type)) [
    | inl e ↦
        rw (e, split_loop)
          (Post-map
            (split_loop-Covers n _ [] _ _ (omega (arith, h, length-make_right 0 xs))
              (relation-Covers x st xs front lg c))
            λ r k. subst (Covers (logical_parts r)) (around x st xs front) k)
    | inr e ↦
        rw (e, split_loop)
          (Post-map (split_loop-Covers n xs (x ∷ st) front lg (omega (arith, h)) c)
            λ r k. subst (Covers (logical_parts r)) (rw (reverse-cons x st, append_assoc) refl) k)
  ]

  -- The split of an expression always ends, and the operands and the operators of its nodes, read in
  -- order, are the nodes of the expression: each node in an operand is the node at its place with all
  -- that it holds, and each other node of the condition has the kind of the one at its place. None is
  -- left out and none is there twice.
  pub split-Covers : (ex : Expression F) → Post (λ lg. Covers (logical_parts lg) ex) (split ex)
  unfolding split
  split-Covers ex = split_loop-Covers (length ex) ex [] [] [] (omega arith) tt

  -- No node is a comparison or a LIKE.
  abbrev pub NoRelation : Expression F → Type 0
  NoRelation [] = Unit {0}
  NoRelation (x ∷ xs) = (is_relation x.type ≡ false) × NoRelation xs

  pub NoRelation-append :
      (xs ys : Expression F) → NoRelation xs → NoRelation ys → NoRelation (xs ++ ys)
  NoRelation-append [] ys h k = k
  NoRelation-append (x ∷ xs) ys h k = (h.0, NoRelation-append xs ys h.1 k)

  pub NoRelation-reverse : (xs : Expression F) → NoRelation xs → NoRelation (reverse xs)
  NoRelation-reverse [] h = tt
  NoRelation-reverse (x ∷ xs) h =
      rw (reverse-cons x xs)
        (NoRelation-append (reverse xs) (x ∷ []) (NoRelation-reverse xs h.1) (h.0, tt))
