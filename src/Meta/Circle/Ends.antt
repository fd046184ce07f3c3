-- ===== src/Meta/Circle/Ends.antt =====
-- The rounds of the search of `has_circle`.
use stoxdb.Prelude.{
  ℕ, zero, suc, ◌<◌, List, [], ◌∷◌, false, ◌≡◌, refl, ◌⊎◌, inl, inr, subst, Bool-cases, arith,
}
use stoxdb.Outcome.{ok, hang}
use stoxdb.Meta.{Meta, decide_of, contains, dependants, circle_loop, has_circle}
use stoxdb.Meta.Circle.{In, here, Walk, one, step, contains-In, In-dependants, dependants-In}

module _ (g : ℕ → List ℕ) where
  -- A number for each field that falls along each dependency.
  abbrev pub Ranked : (ℕ → ℕ) → Type 0
  Ranked rank = (a b : ℕ) → In b (g a) → rank b < rank a

  abbrev Below : (ℕ → ℕ) → ℕ → List ℕ → Type 0
  Below rank n xs = (x : ℕ) → In x xs → rank x < n

  circle_loop-ends :
      (rank : ℕ → ℕ)
      → Ranked rank
      → (fid n k : ℕ) (xs : List ℕ) → Below rank n xs
      → Below rank (rank fid) xs
      → n < k
      → circle_loop g fid k xs ≡ ok false
  unfolding circle_loop
  circle_loop-ends rank r fid n zero xs b c h = absurd (omega arith)
  circle_loop-ends rank r fid n (suc k) [] b c h = refl
  circle_loop-ends rank r fid zero (suc k) (x ∷ xs) b c h = absurd (omega (arith, b x (here refl)))
  circle_loop-ends rank r fid (suc m) (suc k) (x ∷ xs) b c h =
      elim (Bool-cases (contains fid (x ∷ xs))) [
        | inl t ↦ absurd (omega (arith, c fid (contains-In fid (x ∷ xs) t)))
        | inr f ↦
            rw (f, circle_loop)
              (circle_loop-ends rank r fid m k (dependants g (x ∷ xs)) (falls m b)
                (λ y i. let (z, j, l) = dependants-In g (x ∷ xs) i in omega (arith, r z y l, c z j))
                (omega arith))
      ]
    where
      falls : (m : ℕ) → Below rank (suc m) (x ∷ xs) → Below rank m (dependants g (x ∷ xs))
      falls m b y i = let (z, j, l) = dependants-In g (x ∷ xs) i in omega (arith, r z y l, b z j)

  -- The list holds a field from which a circle through `v` can be reached.
  abbrev Leads : ℕ → List ℕ → Type 0
  Leads v xs = (x : ℕ) × In x xs × ((x ≡ v) ⊎ Walk g x v)

  Leads-next : (v : ℕ) (xs : List ℕ) → Walk g v v → Leads v xs → Leads v (dependants g xs)
  Leads-next v xs c (x, i, inl e) = onward c
    where
      onward : Walk g v v → Leads v (dependants g xs)
      onward (one j) = (v, In-dependants g xs (subst (λ w. In w xs) e i) j, inl refl)
      onward (step d j w) = (d, In-dependants g xs (subst (λ w. In w xs) e i) j, inr w)
  Leads-next v xs c (x, i, inr (one j)) = (v, In-dependants g xs i j, inl refl)
  Leads-next v xs c (x, i, inr (step d j w)) = (d, In-dependants g xs i j, inr w)

  -- Every field of the list is reached from `fid`.
  abbrev Reached : ℕ → List ℕ → Type 0
  Reached fid xs = (x : ℕ) → In x xs → Walk g fid x

  Walk-snoc : {a b c : ℕ} → Walk g a b → In c (g b) → Walk g a c
  Walk-snoc (one i) j = step _ i (one j)
  Walk-snoc (step d i w) j = step d i (Walk-snoc w j)

  Reached-next : (fid : ℕ) (xs : List ℕ) → Reached fid xs → Reached fid (dependants g xs)
  Reached-next fid xs r y i = let (x, k, l) = dependants-In g xs i in Walk-snoc (r x k) l

  circle_loop-hangs :
      (fid v n : ℕ) (xs : List ℕ)
      → ¬ Walk g fid fid
      → Walk g v v
      → Leads v xs
      → Reached fid xs
      → circle_loop g fid n xs ≡ hang
  unfolding circle_loop
  circle_loop-hangs fid v zero xs out c l r = refl
  circle_loop-hangs fid v (suc n) [] out c l r = elim l.1 [ ]
  circle_loop-hangs fid v (suc n) (x ∷ xs) out c l r = elim (Bool-cases (contains fid (x ∷ xs))) [
    | inl t ↦ absurd (out (r fid (contains-In fid (x ∷ xs) t)))
    | inr f ↦
        rw (f, circle_loop)
          (circle_loop-hangs fid v n (dependants g (x ∷ xs)) out c (Leads-next v (x ∷ xs) c l)
            (Reached-next fid (x ∷ xs) r))
  ]

  Leads-start : (fid v : ℕ) → Walk g fid v → Leads v (g fid)
  Leads-start fid v (one i) = (v, i, inl refl)
  Leads-start fid v (step c i w) = (c, i, inr w)

-- Where the formulas have no circle (a rank falls along each dependency), the search from a field
-- ends within as many rounds as its rank, and finds none.
pub has_circle-ends :
    {F : Type 0} (meta : Meta F) (rank : ℕ → ℕ) (fid fuel : ℕ)
    → Ranked (decide_of meta.fields) rank
    → rank fid < fuel
    → has_circle meta fuel fid ≡ ok false
unfolding has_circle
has_circle-ends meta rank fid fuel r h =
    circle_loop-ends g rank r fid (rank fid) fuel (g fid) (λ x i. r fid x i) (λ x i. r fid x i) h
  where
    g : ℕ → List ℕ
    g = decide_of meta.fields

-- A field outside a circle of formulas from which the circle is reached: the search from it never
-- ends, whatever the fuel.
pub has_circle-hangs :
    {F : Type 0} (meta : Meta F) (fuel fid v : ℕ)
    → ¬ Walk (decide_of meta.fields) fid fid
    → Walk (decide_of meta.fields) fid v
    → Walk (decide_of meta.fields) v v
    → has_circle meta fuel fid ≡ hang
unfolding has_circle
has_circle-hangs meta fuel fid v out w c =
    circle_loop-hangs g fid v fuel (g fid) out c (Leads-start g fid v w) (λ x i. one i)
  where
    g : ℕ → List ℕ
    g = decide_of meta.fields
