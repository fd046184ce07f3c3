-- ===== src/Base/Match.antt =====
-- `startwith`, `endwith` and `contain` of base.cc against prefixes, suffixes and infixes.
use stoxdb.Prelude.{
  ℕ, ◌-◌, ◌≤◌, [], ◌∷◌, ◌++◌, true, false, ltb, ◌≡◌, refl, sym, ap, ◌∙◌, ◌↔◌, inl, inr, Bool-cases,
  length, length-append, drop, take, arith, append-nil, take-append-drop, length-drop,
}
use stoxdb.Base.{Bytes, prefix_loop, startwith, endwith, find, contain}

prefix_loop-append : (sub rest : Bytes) → prefix_loop (sub ++ rest) sub ≡ true
unfolding prefix_loop
prefix_loop-append [] rest = refl
prefix_loop-append (b ∷ sub) rest = ground (arith, prefix_loop-append sub rest)

prefix_loop_sound :
    (str sub : Bytes) → prefix_loop str sub ≡ true → (rest : Bytes) × (str ≡ sub ++ rest)
unfolding prefix_loop
prefix_loop_sound str [] h = (str, refl)
prefix_loop_sound [] (b ∷ sub) h = absurd (cc)
prefix_loop_sound (a ∷ str) (b ∷ sub) h =
    let r = prefix_loop_sound str sub (ground arith) in (r.0, ground (arith, r.1))

ltb-append : (xs ys : Bytes) → ltb (length (xs ++ ys)) (length xs) ≡ false
ltb-append xs ys = ground (arith, length-append xs ys)

-- `startwith` is true exactly for a prefix.
pub startwith_iff :
    (str sub : Bytes) → (startwith str sub ≡ true) ↔ ((rest : Bytes) × (str ≡ sub ++ rest))
unfolding startwith
startwith_iff str sub = (
  λ h. prefix_loop_sound str sub (ground arith),
  λ r. rw (r.1, ltb-append sub r.0, prefix_loop-append sub r.0),
)

nil_of_length : (xs : Bytes) → length xs ≡ 0 → xs ≡ []
nil_of_length [] h = refl
nil_of_length (x ∷ xs) h = absurd (omega arith)

drop-length : (xs ys : Bytes) → drop (length xs) (xs ++ ys) ≡ ys
drop-length [] ys = refl
drop-length (x ∷ xs) ys = drop-length xs ys

ltb-false : (a b : ℕ) → ltb a b ≡ false → b ≤ a
ltb-false a b h = ground arith

endwith_sound : (str sub : Bytes) → endwith str sub ≡ true → (pre : Bytes) × (str ≡ pre ++ sub)
unfolding endwith
endwith_sound str sub h =
    let short : ltb (length str) (length sub) ≡ false = ground arith in
    let k = length str - length sub in
    let r = prefix_loop_sound (drop k str) sub (ground arith) in
    let none_left : r.0 ≡ [] = nil_of_length r.0 (
      omega
        (arith, ltb-false _ _ short, length-drop k str, ap length r.1, length-append sub r.0)) in
    (
      take k str,
      sym (take-append-drop k str) ∙ ap (◌++◌ (take k str)) (r.1 ∙ rw (none_left, append-nil)),
    )

endwith_long :
    (pre sub : Bytes)
    → ltb (length (pre ++ sub)) (length sub) ≡ false
    → endwith (pre ++ sub) sub
      ≡ prefix_loop (drop (length (pre ++ sub) - length sub) (pre ++ sub)) sub
unfolding endwith
endwith_long pre sub h = rw h

prefix_self : (sub : Bytes) → prefix_loop sub sub ≡ true
prefix_self sub = rw append-nil at (prefix_loop-append sub [])

-- `endwith` is true exactly for a suffix.
pub endwith_iff :
    (str sub : Bytes) → (endwith str sub ≡ true) ↔ ((pre : Bytes) × (str ≡ pre ++ sub))
endwith_iff str sub = (endwith_sound str sub, λ r. rw r.1 (ends r.0))
  where
    ends : (pre : Bytes) → endwith (pre ++ sub) sub ≡ true
    ends pre =
        let same_length : length (pre ++ sub) - length sub ≡ length pre =
          omega (arith, length-append pre sub) in
        let long : ltb (length (pre ++ sub)) (length sub) ≡ false =
          ground (arith, length-append pre sub) in
        rw (endwith_long pre sub long, same_length, drop-length pre sub) (prefix_self sub)

find_sound :
    (str sub : Bytes)
    → find str sub ≡ true
    → (pre : Bytes) × (post : Bytes) × (str ≡ pre ++ (sub ++ post))
unfolding find
find_sound [] sub h = let r = prefix_loop_sound [] sub h in ([], r.0, r.1)
find_sound (a ∷ str) sub h = elim (Bool-cases (prefix_loop (a ∷ str) sub)) [
  | inl e ↦ let r = prefix_loop_sound (a ∷ str) sub e in ([], r.0, r.1)
  | inr e ↦ let r = find_sound str sub (ground arith) in (a ∷ r.0, r.1, ap (◌∷◌ a) r.2)
]

find-prefix : (str sub : Bytes) → prefix_loop str sub ≡ true → find str sub ≡ true
unfolding find
find-prefix [] sub h = h
find-prefix (a ∷ str) sub h = rw h

find-append : (pre sub post : Bytes) → find (pre ++ (sub ++ post)) sub ≡ true
unfolding find
find-append [] sub post = find-prefix (sub ++ post) sub (prefix_loop-append sub post)
find-append (a ∷ pre) sub post = ground (arith, find-append pre sub post)

contain_sound :
    (str sub : Bytes)
    → contain str sub ≡ true
    → (pre : Bytes) × (post : Bytes) × (str ≡ pre ++ (sub ++ post))
unfolding contain
contain_sound str sub h = find_sound str sub (ground arith)

contain-append : (pre sub post : Bytes) → contain (pre ++ (sub ++ post)) sub ≡ true
unfolding contain
contain-append pre sub post =
    let long : ltb (length (pre ++ (sub ++ post))) (length sub) ≡ false =
      ground (arith, length-append pre (sub ++ post), length-append sub post) in
    rw long (find-append pre sub post)

-- `contain` is true exactly for a text that occurs somewhere.
pub contain_iff :
    (str sub : Bytes)
    → (contain str sub ≡ true) ↔ ((pre : Bytes) × (post : Bytes) × (str ≡ pre ++ (sub ++ post)))
contain_iff str sub = (contain_sound str sub, λ r. rw r.2 (contain-append r.0 sub r.1))
