-- ===== src/Record/Link/Resolved.antt =====
-- The conditions that `change_fname_to_fid` of record.cc lets pass.
use stoxdb.Prelude.{
  ℕ, ◌<◌, List, [], ◌∷◌, Bool, true, false, ◌&&◌, ◌||◌, ◌≡◌, refl, sym, length, get_elem?, arith,
  Option, none, some, subst, zero, suc,
}
use stoxdb.Outcome.{ok, ◌>>=◌, Post, returns, raises, Post-bind, Post-if, if_both}
use stoxdb.Base.{Bytes}
use stoxdb.Expression.{
  Kind, kname, kchar, kdouble, is_kind, ordinal, is_compare_type, is_like_type, Node, Expression,
}
use stoxdb.Logical.{LogicalNode, Logical}
use stoxdb.Meta.{Field, Meta, getid}
use stoxdb.Record.Where.{is_extype}
use stoxdb.Record.Set.Loop.{field_at-some}
use stoxdb.Record.Link.{
  Has, note_kind, type_of_has, check_sides, link_name, link_node, link_loop, expression_type,
  is_one, check_types, side_type, link_logical, change_fname_to_fid,
}

module _ {F : Type 0} (meta : Meta F) where
  -- The numbers of the names are numbers of fields.
  abbrev pub Indexed : Type 0
  Indexed = (name : Bytes) (id : ℕ) → getid meta name ≡ some id → id < length meta.fields

  -- A name has the number that the settings give it, and the field is there.
  abbrev pub IsLinked : Node F → Type 0
  IsLinked x =
      is_kind x.type kname ≡ true
      → (f : Field F) × (get_elem? meta.fields x.id ≡ some f) × (getid meta x.vs ≡ some x.id)

  abbrev pub AreLinked : Expression F → Type 0
  AreLinked [] = Unit {0}
  AreLinked (x ∷ xs) = IsLinked x × AreLinked xs

  -- Both sides are linked, the type is set, and a comparison of strings has one node on each side.
  abbrev pub IsResolved : LogicalNode F → Type 0
  IsResolved y =
      (is_compare_type y.type || is_like_type y.type) ≡ true
      → AreLinked y.left
        × AreLinked y.right
        × (is_extype y.extype kchar ≡ true → (is_one y.left && is_one y.right) ≡ true)

  abbrev pub AreResolved : Logical F → Type 0
  AreResolved [] = Unit {0}
  AreResolved (y ∷ ys) = IsResolved y × AreResolved ys

get_elem?-some :
    {A : Type 0} (xs : List A) (i : ℕ) → i < length xs → (x : A) × (get_elem? xs i ≡ some x)
get_elem?-some [] i h = absurd (omega arith)
get_elem?-some (x ∷ xs) zero h = (x, refl)
get_elem?-some (x ∷ xs) (suc i) h = get_elem?-some xs i (omega arith)

check_sides-single :
    (like l r single : Bool) → Post (λ _. l ≡ true → single ≡ true) (check_sides like l r single)
unfolding check_sides
check_sides-single true true true true = returns (λ _. refl)
check_sides-single false true true true = returns (λ _. refl)
check_sides-single true true true false = raises
check_sides-single false true true false = raises
check_sides-single true true false s = raises
check_sides-single false true false s = raises
check_sides-single true false r s = raises
check_sides-single false false true s = raises
check_sides-single false false false s = returns (λ e. absurd (cc))

side_type-text :
    (left right : Kind) → is_kind (side_type left right) kchar ≡ true → is_kind left kchar ≡ true
unfolding is_kind ordinal
side_type-text left right =
    if_both (λ k. is_kind k kchar ≡ true → is_kind left kchar ≡ true) (is_kind left kchar)
      (λ e _. e)
      λ _.
        if_both (λ k. is_kind k kchar ≡ true → is_kind left kchar ≡ true)
          (is_kind left kdouble || is_kind right kdouble) (λ _ h. absurd (cc)) (λ _ h. absurd (cc))

type_of_has-Post : (h : Has) → Post (λ _. Unit {0}) (type_of_has h)
unfolding type_of_has
type_of_has-Post h =
    Post-if h.string (Post-if (h.int || h.double) raises (returns tt))
      (Post-if h.int (returns tt) (Post-if h.double (returns tt) raises))

module _ {F : Type 0} (meta : Meta F) (indexed : Indexed meta) where
  link_name-Post :
      (x : Node F) (o : Option ℕ)
      → getid meta x.vs ≡ o
      → Post (λ (r : Node F × Kind). IsLinked meta r.0) (link_name meta x o)
  unfolding link_name
  link_name-Post x none e = raises
  link_name-Post x (some id) e =
      let (f, g) = get_elem?-some meta.fields id (indexed x.vs id e) in
      subst
        (λ r.
          Post (λ (r : Node F × Kind). IsLinked meta r.0)
            (r >>= λ f. ok (record x { id = id }, f.type)))
        (sym (field_at-some meta.fields id g)) (returns (λ _. (f, g, e)))

  link_node-Post : (x : Node F) → Post (λ (r : Node F × Kind). IsLinked meta r.0) (link_node meta x)
  unfolding link_node
  link_node-Post x =
      if_both (Post (λ (r : Node F × Kind). IsLinked meta r.0)) (is_kind x.type kname)
        (λ _. link_name-Post x (getid meta x.vs) refl) λ e. returns (λ k. absurd (cc))

  link_loop-Post :
      (h : Has) (ex : Expression F)
      → Post (λ (r : Expression F × Has). AreLinked meta r.0) (link_loop meta h ex)
  unfolding link_loop
  link_loop-Post h [] = returns tt
  link_loop-Post h (x ∷ xs) =
      Post-bind (link_node-Post x)
        λ r k. Post-bind (link_loop-Post (note_kind r.1 h) xs) λ s l. returns (k, l)

  expression_type-Post :
      (ex : Expression F)
      → Post (λ (r : Expression F × Kind). AreLinked meta r.0) (expression_type meta ex)
  unfolding expression_type
  expression_type-Post ex =
      Post-bind (link_loop-Post _ ex) λ r k. Post-bind (type_of_has-Post r.1) λ t _. returns k

  link_logical-Post : (x : LogicalNode F) → Post (IsResolved meta) (link_logical meta x)
  unfolding link_logical check_types
  link_logical-Post x =
      if_both (Post (IsResolved meta)) (is_compare_type x.type || is_like_type x.type)
        (λ _. Post-bind (expression_type-Post x.left) λ l kl.
          Post-bind (expression_type-Post x.right) λ r kr.
            Post-bind (check_sides-single _ _ _ _)
              λ _ single. returns (λ _. (kl, kr, λ t. single (side_type-text l.1 r.1 t))))
        λ e. returns (λ k. absurd (cc))

  -- Where the settings give names numbers of fields, linking a condition ends with a message or with
  -- the condition, without an access outside: then every name in a comparison has the number of its
  -- field, and a comparison of strings has one node on each side, as `compute_logical` expects.
  pub change_fname_to_fid-Resolved :
      (lg : Logical F) → Post (AreResolved meta) (change_fname_to_fid meta lg)
  unfolding change_fname_to_fid
  change_fname_to_fid-Resolved [] = returns tt
  change_fname_to_fid-Resolved (x ∷ xs) =
      Post-bind (link_logical-Post x)
        λ y k. Post-bind (change_fname_to_fid-Resolved xs) λ ys l. returns (k, l)
