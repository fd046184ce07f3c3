-- ===== src/Record/Aggregate/Keys.antt =====
-- Keys of the map of `opt_agg` that are equal, and tests of keys that may be exchanged.
use stoxdb.Prelude.{
  [], ◌∷◌, Bool, true, false, ◌≡◌, refl, subst, if◌then◌else◌, Bool-cases, ◌==◌, ==_iff, inl, inr,
}
use stoxdb.Base.{Bytes, same}

pub same_eq : (a b : Bytes) → same a b ≡ true → a ≡ b
unfolding same
same_eq [] [] = λ _. refl
same_eq (a ∷ xs) [] = λ e. absurd (cc)
same_eq [] (b ∷ ys) = λ e. absurd (cc)
same_eq (a ∷ xs) (b ∷ ys) = elim (Bool-cases (a == b)) [
  | inl h ↦ rw h (λ e. (let p = (==_iff a b).0 h in let q = same_eq xs ys e in cc))
  | inr h ↦ rw h (λ e. absurd (cc))
]

pub same_self : (a : Bytes) → same a a ≡ true
unfolding same
same_self [] = refl
same_self (a ∷ xs) = rw ((==_iff a a).1 refl) (same_self xs)

pub same_apart : (j key k : Bytes) → same j key ≡ false → same j k ≡ true → same key k ≡ false
same_apart j key k h a = elim (Bool-cases (same key k)) [
  | inr n ↦ n
  | inl b ↦
      (let p = same_eq j k a in
        let q = same_eq key k b in
        let e : j ≡ key = cc in
        let s = same_self key in
        let r : same key key ≡ false = subst (λ x. same x key ≡ false) e h in absurd (cc))
]

module _ {A : Type 0} where
  -- Two tests of which one holds at most may be exchanged, and a test may be repeated.
  pub if_swap :
      (b c : Bool) (x y z : A)
      → (b ≡ true → c ≡ false)
      → (if b then x else if c then y else z) ≡ (if c then y else if b then x else z)
  if_swap true true x y z h = absurd (let e = h refl in cc)
  if_swap true false x y z h = refl
  if_swap false c x y z h = refl

  pub if_again :
      (b : Bool) (x y z : A) → (if b then x else z) ≡ (if b then x else if b then y else z)
  if_again true x y z = refl
  if_again false x y z = refl
