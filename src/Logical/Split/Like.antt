-- ===== src/Logical/Split/Like.antt =====
-- `load_logical` on a condition that ends in LIKE.
use mathlib.Core.List.{reverse-cons}
use stoxdb.Prelude.{
  ℕ, zero, suc, ◌≤◌, [], ◌∷◌, ◌++◌, map, reverse, true, false, ◌≡◌, refl, arith, append-nil, length,
}
use stoxdb.Outcome.{ok, ub, ◌>>=◌, if_both}
use stoxdb.Expression.{is_like_type, Node, Expression}
use stoxdb.Logical.{
  LogicalNode, Logical, is_relation, convert, make_right_expression, pop_left, ends_left,
  count_right, make_left_expression, relation, split_loop, split, mark_pattern, mark_like,
  mark_likes,
}
use stoxdb.Logical.Split.{NoRelation}

module _ {F : Type 0} where
  abbrev NoLike : Logical F → Type 0
  NoLike [] = Unit {0}
  NoLike (n ∷ ns) = (is_like_type n.type ≡ false) × NoLike ns

  NoLike-append : (ms ns : Logical F) → NoLike ms → NoLike ns → NoLike (ms ++ ns)
  NoLike-append [] ns h k = k
  NoLike-append (m ∷ ms) ns h k = (h.0, NoLike-append ms ns h.1 k)

  NoLike-convert : (st : Expression F) → NoRelation st → NoLike (reverse (map convert st))
  unfolding convert
  NoLike-convert [] h = tt
  NoLike-convert (x ∷ st) h = rw (reverse-cons (convert x) (map convert st)) (
      NoLike-append (reverse (map convert st)) (convert x ∷ []) (NoLike-convert st h.1)
        (ground arith, tt))

  pop_left-NoRelation : (d : ℕ) (st : Expression F) → NoRelation st → NoRelation (pop_left d st).1
  unfolding pop_left
  pop_left-NoRelation d [] h = tt
  pop_left-NoRelation d (x ∷ st) h =
      if_both (λ (r : Expression F × Expression F). NoRelation r.1) (ends_left d x) (λ _. h)
        (λ _. pop_left-NoRelation (count_right d x) st h.1)

  mark_likes-ub :
      (ns : Logical F) (n : LogicalNode F)
      → NoLike ns
      → is_like_type n.type ≡ true
      → n.right ≡ []
      → mark_likes (ns ++ n ∷ []) ≡ ub
  unfolding mark_likes mark_like mark_pattern
  mark_likes-ub [] n h l r = rw (l, r)
  mark_likes-ub (m ∷ ns) n h l r = rw (h.0, mark_likes-ub ns n h.1 l r)

  like_relation : (x : Node F) → is_like_type x.type ≡ true → is_relation x.type ≡ true
  like_relation x h = ground arith

  split_end : (m : ℕ) (lg : Logical F) → split_loop m [] [] lg ≡ ok (reverse lg)
  unfolding split_loop
  split_end zero lg = refl
  split_end (suc m) lg = refl

  split_last :
      (m : ℕ) (x : Node F) (st : Expression F)
      → is_relation x.type ≡ true
      → split_loop (suc m) (x ∷ []) st []
        ≡ ok (reverse (relation x st [] ∷ (map convert (pop_left 0 st).1 ++ [])))
  unfolding split_loop make_right_expression make_left_expression
  split_last m x st e =
      rw (e, split_loop) (split_end m (relation x st [] ∷ (map convert (pop_left 0 st).1 ++ [])))

  last_like :
      (m : ℕ) (x : Node F) (st : Expression F)
      → NoRelation st
      → is_like_type x.type ≡ true
      → (split_loop (suc m) (x ∷ []) st [] >>= mark_likes) ≡ ub
  unfolding make_right_expression relation convert
  last_like m x st h l =
      rw
        (
          split_last m x st (like_relation x l),
          append-nil (map convert (pop_left 0 st).1),
          reverse-cons (relation x st []) (map convert (pop_left 0 st).1),
        )
        (mark_likes-ub (reverse (map convert (pop_left 0 st).1)) (relation x st [])
          (NoLike-convert (pop_left 0 st).1 (pop_left-NoRelation 0 st h)) l refl)

  split_like :
      (n : ℕ) (p : Expression F) (x : Node F) (st : Expression F)
      → length (p ++ x ∷ []) ≤ n
      → NoRelation p
      → NoRelation st
      → is_like_type x.type ≡ true
      → (split_loop n (p ++ x ∷ []) st [] >>= mark_likes) ≡ ub
  unfolding split_loop
  split_like zero [] x st h hp hs l = absurd (omega arith)
  split_like zero (y ∷ p) x st h hp hs l = absurd (omega arith)
  split_like (suc m) [] x st h hp hs l = last_like m x st hs l
  split_like (suc m) (y ∷ p) x st h hp hs l =
      rw (hp.0, split_loop) (split_like m p x (y ∷ st) (omega arith) hp.1 (hp.0, hs) l)

  -- A condition in which `like` or `notlike` is the last node and the only relation makes
  -- `load_logical` read the first element of an empty vector.
  pub split-last_like :
      (p : Expression F) (x : Node F)
      → NoRelation p
      → is_like_type x.type ≡ true
      → (split (p ++ x ∷ []) >>= mark_likes) ≡ ub
  unfolding split
  split-last_like p x hp l = split_like _ p x [] (omega arith) hp tt l
