-- ===== src/Outcome.antt =====
-- How a function of the server ends: with a value, with `false` and a message in `errmsg`, in
-- undefined behaviour (an access out of bounds, a trap), or never (a loop that does not end).
use stoxdb.Prelude.{ℕ, List, ◌≡◌, refl, ◌≢◌, subst, Bool, true, false, if◌then◌else◌}

-- The messages that expression.cc, logical.cc and record.cc assign to `errmsg`. The numbers are
-- indices into `gtype`, the bytes are quoted from the input.
pub data Message : Type 0 where
  unset lack_left before_right loss_expression left_invalid right_invalid : Message
  like_not_field like_not_string both_number_and_string neither_number_nor_string : Message
  like_not_string_field like_not_one_field different_type string_not_one_field : Message
  besize_operator unsupported_type not_logical_type : ℕ → Message
  unexpected_char : ℕ → Message
  -- `expand_buffer` fails in `opt_get`.
  memory_error : Message
  -- `false` from a parser of requests, which leaves no message.
  protocal_error : Message
  -- The exception of a string with a negative length, which is caught in `process_data`.
  length_error : Message
  cannot_find_field : List ℕ → Message

pub data Outcome {ℓ} (A : Type ℓ) : Type ℓ where
  ok : A → Outcome A
  err : Message → Outcome A
  ub : Outcome A
  hang : Outcome A

infixl 5 ◌>>=◌
abbrev pub ◌>>=◌ {ℓ κ} : {A : Type ℓ} {B : Type κ} → Outcome A → (A → Outcome B) → Outcome B
ok a >>= f = f a
err m >>= f = err m
ub >>= f = ub
hang >>= f = hang

infixl 5 ◌>>◌
abbrev pub ◌>>◌ {ℓ} : {B : Type ℓ} → Outcome (Unit {0}) → Outcome B → Outcome B
m >> k = m >>= λ _. k

-- `if (...) return false`, where the test has to be false to go on.
abbrev pub refuse_if : Bool → Message → Outcome (Unit {0})
refuse_if true m = err m
refuse_if false m = ok tt

-- The run ends with a value that satisfies `P`, or with a message; it neither meets undefined
-- behaviour nor runs on.
pub data Post {ℓ} {A : Type ℓ} (P : A → Type 0) : Outcome A → Type ℓ where
  returns : {a : A} → P a → Post P (ok a)
  raises : {m : Message} → Post P (err m)

module _ {ℓ} {A : Type ℓ} {P : A → Type 0} where
  pub Post-ok : {a : A} → Post P (ok a) → P a
  Post-ok (returns h) = h

  pub Post-eq : {r : Outcome A} {a : A} → Post P r → r ≡ ok a → P a
  Post-eq h e = Post-ok (subst (Post P) e h)

  pub Post-ne-ub : {r : Outcome A} → Post P r → r ≢ ub
  Post-ne-ub (returns h) e = cc
  Post-ne-ub raises e = cc

  pub Post-ne-hang : {r : Outcome A} → Post P r → r ≢ hang
  Post-ne-hang (returns h) e = cc
  Post-ne-hang raises e = cc

  pub Post-bind {κ} :
      {B : Type κ} {Q : B → Type 0} {r : Outcome A} {f : A → Outcome B}
      → Post P r
      → ((a : A) → P a → Post Q (f a))
      → Post Q (r >>= f)
  Post-bind (returns h) k = k _ h
  Post-bind raises k = raises

-- Two continuations that agree may be exchanged, and three steps may be grouped either way.
pub bind_congr {ℓ κ} :
    {A : Type ℓ} {B : Type κ} (m : Outcome A) {h k : A → Outcome B}
    → ((x : A) → h x ≡ k x)
    → (m >>= h) ≡ (m >>= k)
bind_congr (ok x) e = e x
bind_congr (err t) e = refl
bind_congr ub e = refl
bind_congr hang e = refl

pub bind_assoc {ℓ κ μ} :
    {A : Type ℓ} {B : Type κ} {C : Type μ} (m : Outcome A) (h : A → Outcome B) (k : B → Outcome C)
    → (m >>= h >>= k) ≡ (m >>= λ x. h x >>= k)
bind_assoc hang h k = refl
bind_assoc ub h k = refl
bind_assoc (err t) h k = refl
bind_assoc (ok x) h k = refl

-- A value, if there is one, satisfies `P`.
pub data Ensures {ℓ} {A : Type ℓ} (P : A → Type 0) : Outcome A → Type ℓ where
  done : {a : A} → P a → Ensures P (ok a)
  failed : {m : Message} → Ensures P (err m)
  crashed : Ensures P ub
  looped : Ensures P hang

module _ {ℓ} {A : Type ℓ} {P : A → Type 0} where
  pub Ensures-ok : {a : A} → Ensures P (ok a) → P a
  Ensures-ok (done h) = h

  pub Ensures-eq : {r : Outcome A} {a : A} → Ensures P r → r ≡ ok a → P a
  Ensures-eq h e = Ensures-ok (subst (Ensures P) e h)

  pub Ensures-bind {κ} :
      {B : Type κ} {Q : B → Type 0} {r : Outcome A} {f : A → Outcome B}
      → Ensures P r
      → ((a : A) → P a → Ensures Q (f a))
      → Ensures Q (r >>= f)
  Ensures-bind (done h) k = k _ h
  Ensures-bind failed k = failed
  Ensures-bind crashed k = crashed
  Ensures-bind looped k = looped

pub Ensures-map {ℓ} :
    {A : Type ℓ} {P Q : A → Type 0} {r : Outcome A}
    → Ensures P r
    → ((a : A) → P a → Q a)
    → Ensures Q r
Ensures-map (done h) k = done (k _ h)
Ensures-map failed k = failed
Ensures-map crashed k = crashed
Ensures-map looped k = looped

pub Ensures-trivial {ℓ} : {A : Type ℓ} (r : Outcome A) → Ensures (λ _. Unit {0}) r
Ensures-trivial (ok a) = done tt
Ensures-trivial (err m) = failed
Ensures-trivial ub = crashed
Ensures-trivial hang = looped

-- Both branches of a test, each with what it knows of the test.
pub if_both {ℓ κ} :
    {A : Type ℓ} (P : A → Type κ) (b : Bool) {x y : A}
    → (b ≡ true → P x)
    → (b ≡ false → P y)
    → P (if b then x else y)
if_both P true hx hy = hx refl
if_both P false hx hy = hy refl

pub Ensures-congr {ℓ κ} :
    {A : Type ℓ} {B : Type κ} {P : A → Type 0} {r : Outcome A} {f g : A → Outcome B}
    → Ensures P r
    → ((a : A) → P a → f a ≡ g a)
    → (r >>= f) ≡ (r >>= g)
Ensures-congr (done h) k = k _ h
Ensures-congr failed k = refl
Ensures-congr crashed k = refl
Ensures-congr looped k = refl

pub Post-Ensures {ℓ} : {A : Type ℓ} {P : A → Type 0} {r : Outcome A} → Post P r → Ensures P r
Post-Ensures (returns h) = done h
Post-Ensures raises = failed

pub Ensures-never : (r : Outcome (Unit {0})) → r ≢ ok tt → Ensures (λ _. ⊥) r
Ensures-never (ok tt) h = absurd (h refl)
Ensures-never (err m) h = failed
Ensures-never ub h = crashed
Ensures-never hang h = looped

pub Post-if {ℓ} :
    {A : Type ℓ} {P : A → Type 0} (b : Bool) {x y : Outcome A}
    → Post P x
    → Post P y
    → Post P (if b then x else y)
Post-if true hx hy = hx
Post-if false hx hy = hy

pub Post-map {ℓ} :
    {A : Type ℓ} {P Q : A → Type 0} {r : Outcome A} → Post P r → ((a : A) → P a → Q a) → Post Q r
Post-map (returns h) k = returns (k _ h)
Post-map raises k = raises
