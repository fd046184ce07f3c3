-- ===== src/Meta/Circle.antt =====
-- `has_circle` of meta.cc against chains of dependants.
pub mod Ends
use stoxdb.Prelude.{
  ℕ, zero, suc, ◌+◌, ◌≤◌, ◌<◌, List, [], ◌∷◌, ◌++◌, Bool, true, false, ◌||◌, ◌==◌, ◌≡◌, refl, sym,
  ap, ◌∙◌, subst, ◌⊎◌, ◌↔◌, inl, inr, Bool-cases, arith, ==_iff,
}
use stoxdb.Outcome.{Outcome, ok, hang}
use stoxdb.Meta.{Meta, decide_of, contains, dependants, circle_loop, has_circle}

pub data In (a : ℕ) : List ℕ → Type 0 where
  here : {x : ℕ} {xs : List ℕ} → x ≡ a → In a (x ∷ xs)
  there : {x : ℕ} {xs : List ℕ} → In a xs → In a (x ∷ xs)

-- A chain of dependants from one field to another, with one step at least.
pub data Walk (g : ℕ → List ℕ) : ℕ → ℕ → Type 0 where
  one : {a b : ℕ} → In b (g a) → Walk g a b
  step : {a b : ℕ} (c : ℕ) → In c (g a) → Walk g c b → Walk g a b

contains-In : (a : ℕ) (xs : List ℕ) → contains a xs ≡ true → In a xs
unfolding contains
contains-In a [] h = absurd (cc)
contains-In a (x ∷ xs) h = elim (Bool-cases (x == a)) [
  | inl e ↦ here ((==_iff x a).0 e)
  | inr n ↦ there (contains-In a xs (ground arith))
]

pub In-contains : {a : ℕ} {xs : List ℕ} → In a xs → contains a xs ≡ true
unfolding contains
In-contains (here e) = ground arith
In-contains (there i) = ground (arith, In-contains i)

pub not-In : (a : ℕ) (xs : List ℕ) → contains a xs ≡ false → ¬ In a xs
not-In a xs h i = cc (In-contains i)

In-left : {a : ℕ} (ys : List ℕ) {xs : List ℕ} → In a xs → In a (xs ++ ys)
In-left ys (here e) = here e
In-left ys (there i) = there (In-left ys i)

In-right : {a : ℕ} (xs : List ℕ) {ys : List ℕ} → In a ys → In a (xs ++ ys)
In-right [] i = i
In-right (x ∷ xs) i = there (In-right xs i)

In-append : {a : ℕ} (xs ys : List ℕ) → In a (xs ++ ys) → In a xs ⊎ In a ys
In-append [] ys i = inr i
In-append (x ∷ xs) ys (here e) = inl (here e)
In-append (x ∷ xs) ys (there i) = elim (In-append xs ys i) [ inl l ↦ inl (there l) | inr r ↦ inr r ]

module _ (g : ℕ → List ℕ) where
  pub In-dependants : {x y : ℕ} (xs : List ℕ) → In x xs → In y (g x) → In y (dependants g xs)
  unfolding dependants
  In-dependants [] i j = elim i [ ]
  In-dependants {x} {y} (z ∷ xs) (here e) j =
      In-left (dependants g xs) (subst (λ w. In y (g w)) (sym e) j)
  In-dependants (z ∷ xs) (there i) j = In-right (g z) (In-dependants xs i j)

  pub dependants-In :
      {y : ℕ} (xs : List ℕ) → In y (dependants g xs) → (x : ℕ) × In x xs × In y (g x)
  unfolding dependants
  dependants-In [] i = elim i [ ]
  dependants-In (z ∷ xs) i = elim (In-append (g z) (dependants g xs) i) [
    | inl j ↦ (z, here refl, j)
    | inr j ↦ let (x, k, l) = dependants-In xs j in (x, there k, l)
  ]

  -- Is the field in the list, or reached from it?
  abbrev Meets : ℕ → List ℕ → Type 0
  Meets fid xs = (x : ℕ) × In x xs × ((x ≡ fid) ⊎ Walk g x fid)

  Meets-back : (fid : ℕ) (xs : List ℕ) → Meets fid (dependants g xs) → Meets fid xs
  Meets-back fid xs (y, i, h) =
      let (x, k, l) = dependants-In xs i in
      (x, k, inr (elim h [ inl e ↦ one (subst (λ w. In w (g x)) e l) | inr w ↦ step y l w ]))

  Meets-forth : (fid : ℕ) (xs : List ℕ) → ¬ In fid xs → Meets fid xs → Meets fid (dependants g xs)
  Meets-forth fid xs n (x, i, inl e) = absurd (n (subst (λ w. In w xs) e i))
  Meets-forth fid xs n (x, i, inr (one j)) = (fid, In-dependants xs i j, inl refl)
  Meets-forth fid xs n (x, i, inr (step c j w)) = (c, In-dependants xs i j, inr w)

  -- What the answer `b` says.
  abbrev Decides : ℕ → List ℕ → Bool → Type 0
  Decides fid xs true = Meets fid xs
  Decides fid xs false = ¬ Meets fid xs

  circle_loop-Decides :
      (fid n : ℕ) (xs : List ℕ) (b : Bool) → circle_loop g fid n xs ≡ ok b → Decides fid xs b
  unfolding circle_loop
  circle_loop-Decides fid zero xs b e = absurd (cc)
  circle_loop-Decides fid (suc n) [] true e = absurd (cc)
  circle_loop-Decides fid (suc n) [] false e = λ m. elim m.1 [ ]
  circle_loop-Decides fid (suc n) (x ∷ xs) b e = elim (Bool-cases (contains fid (x ∷ xs))) [
    | inl c ↦ found b c (rw (c, circle_loop) at e)
    | inr c ↦
        search_on b c
          (circle_loop-Decides fid n (dependants g (x ∷ xs)) b (rw (c, circle_loop) at e))
  ]
    where
      found : (b : Bool) → contains fid (x ∷ xs) ≡ true → ok true ≡ ok b → Decides fid (x ∷ xs) b
      found true c e = (fid, contains-In fid (x ∷ xs) c, inl refl)
      found false c e = absurd (cc)

      search_on :
          (b : Bool)
          → contains fid (x ∷ xs) ≡ false
          → Decides fid (dependants g (x ∷ xs)) b
          → Decides fid (x ∷ xs) b
      search_on true c d = Meets-back fid (x ∷ xs) d
      search_on false c d = λ m. d (Meets-forth fid (x ∷ xs) (not-In fid (x ∷ xs) c) m)

  Meets-Walk : (fid : ℕ) → Meets fid (g fid) → Walk g fid fid
  Meets-Walk fid (x, i, inl e) = one (subst (λ w. In w (g fid)) e i)
  Meets-Walk fid (x, i, inr w) = step x i w

  Walk-Meets : (fid : ℕ) → Walk g fid fid → Meets fid (g fid)
  Walk-Meets fid (one i) = (fid, i, inl refl)
  Walk-Meets fid (step c i w) = (c, i, inr w)

-- If `has_circle` answers, it is right: with `true` the field depends on itself over one or more
-- formulas, with `false` it does not.
pub has_circle-Walk :
    {F : Type 0} (meta : Meta F) (fuel fid : ℕ) (b : Bool)
    → has_circle meta fuel fid ≡ ok b
    → ((b ≡ true) ↔ Walk (decide_of meta.fields) fid fid)
unfolding has_circle
has_circle-Walk meta fuel fid b e = answer b (circle_loop-Decides g fid fuel (g fid) b e)
  where
    g : ℕ → List ℕ
    g = decide_of meta.fields

    answer : (b : Bool) → Decides g fid (g fid) b → ((b ≡ true) ↔ Walk g fid fid)
    answer true d = ((λ _. Meets-Walk g fid d), λ _. refl)
    answer false d = ((λ e. absurd (cc)), λ w. absurd (d (Walk-Meets g fid w)))
