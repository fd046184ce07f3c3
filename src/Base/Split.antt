-- ===== src/Base/Split.antt =====
-- `strsplit` of base.cc against joining.
use stoxdb.Prelude.{
  ℕ, List, [], ◌∷◌, ◌++◌, false, ◌==◌, ◌≡◌, refl, sym, ap, ◌∙◌, ◌≢◌, arith, append_assoc,
  append-nil,
}
use stoxdb.Base.{Bytes, push_rest, strsplit_loop, strsplit}

-- Neither the separator nor a zero byte.
abbrev pub IsClean : ℕ → Bytes → Type 0
IsClean ch [] = Unit {0}
IsClean ch (c ∷ cs) = ((c == ch) ≡ false) × ((c == 0) ≡ false) × IsClean ch cs

-- Each segment is clean and the last one is not empty.
abbrev pub AreSegments : ℕ → List Bytes → Type 0
AreSegments ch [] = Unit {0}
AreSegments ch (s ∷ []) = IsClean ch s × (s ≢ [])
AreSegments ch (s ∷ t ∷ ss) = IsClean ch s × AreSegments ch (t ∷ ss)

-- The segments with the separator between them.
unfoldable pub join : ℕ → List Bytes → Bytes
join ch [] = []
join ch (s ∷ []) = s
join ch (s ∷ t ∷ ss) = s ++ (ch ∷ join ch (t ∷ ss))

push_rest-cons : (s : Bytes) → s ≢ [] → push_rest s ≡ s ∷ []
push_rest-cons [] h = absurd (h refl)
push_rest-cons (c ∷ s) h = refl

-- A clean text goes into the segment that is being read.
strsplit_loop-clean :
    (ch : ℕ) (s t rest : Bytes)
    → IsClean ch t
    → strsplit_loop ch s (t ++ rest) ≡ strsplit_loop ch (s ++ t) rest
unfolding strsplit_loop
strsplit_loop-clean ch s [] rest h = rw append-nil
strsplit_loop-clean ch s (c ∷ t) rest h =
    rw (h.1, h.0, strsplit_loop, strsplit_loop-clean ch (s ++ c ∷ []) t rest h.2, append_assoc)

strsplit_loop-sep :
    (ch : ℕ) (s rest : Bytes)
    → (ch == 0) ≡ false
    → strsplit_loop ch s (ch ∷ rest) ≡ s ∷ strsplit_loop ch [] rest
unfolding strsplit_loop
strsplit_loop-sep ch s rest h = ground arith

-- A text joined from clean segments, the last of them not empty, is split into these segments.
pub strsplit-join :
    (ch : ℕ) (segs : List Bytes)
    → (ch == 0) ≡ false
    → AreSegments ch segs
    → strsplit (join ch segs) ch ≡ segs
unfolding strsplit join strsplit_loop
strsplit-join ch [] h k = refl
strsplit-join ch (s ∷ []) h k =
    ap (strsplit_loop ch []) (sym (append-nil s))
    ∙ strsplit_loop-clean ch [] s [] k.0
    ∙ push_rest-cons s k.1
strsplit-join ch (s ∷ t ∷ ss) h k = rw (
  strsplit_loop-clean ch [] s (ch ∷ join ch (t ∷ ss)) k.0,
  strsplit_loop-sep ch s (join ch (t ∷ ss)) h,
  strsplit-join ch (t ∷ ss) h k.1,
)
