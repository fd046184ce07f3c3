-- ===== src/Tests/Tables.antt =====
-- Fields, buffers and texts.
use stoxdb.Prelude.{
  ℕ, zero, suc, ◌+◌, ◌≤◌, ◌<◌, List, [], ◌∷◌, ◌++◌, true, false, ◌==◌, ◌≡◌, refl, ◌↔◌,
  if◌then◌else◌, arith, sym, subst,
}
use stoxdb.Prelude.Int.{pos, negsuc}
use stoxdb.Outcome.{ok, hang}
use stoxdb.Base.{Bytes, strsplit}
use stoxdb.Base.Split.{join, strsplit-join}
use stoxdb.Base.Bytes.{setint, getint}
use stoxdb.Base.Bytes.Roundtrip.{getint-setint}
use stoxdb.Buffer.{Buffer, expand_buffer}
use stoxdb.Buffer.Growth.{Fits, expand_buffer-room}
use stoxdb.Expression.{kint4}
use stoxdb.Meta.{
  Field, Meta, decide_of, contains, dependants, circle_loop, has_circle, layout, set_offsets,
}
use stoxdb.Meta.Layout.{layout_inside, layout_apart}
use stoxdb.Meta.Circle.{In, here, there, Walk, one, step, has_circle-Walk}
use stoxdb.Meta.Circle.Ends.{Ranked, has_circle-ends, has_circle-hangs}

abbrev field : List ℕ → Field ℕ
field decide = record {
  name = b'a' ∷ [];
  type = kint4;
  note = [];
  formula = [];
  decide = decide;
  offset = 0;
  size = 4;
  rtype = [];
  rform = [];
}

abbrev table : List (Field ℕ) → Meta ℕ
table fields = record {
  port = 0;
  dump_file = [];
  magic_number = 1;
  max_recv_size = 1000;
  max_connections = 10;
  idle_timeout = 60;
  transport_timeout = 10;
  record_size = 0;
  fields = fields;
  fname_id = [];
}

-- Two fields that depend on each other, a field on which another depends, and a field that leads into
-- a circle on which it is not.
abbrev round : Meta ℕ
round = table (field (1 ∷ []) ∷ field (0 ∷ []) ∷ [])

abbrev line : Meta ℕ
line = table (field (1 ∷ []) ∷ field [] ∷ [])

abbrev tail : Meta ℕ
tail = table (field (1 ∷ []) ∷ field (1 ∷ []) ∷ [])

abbrev placed : ℕ → Field ℕ
placed offset = record (field []) { offset = offset }

layout_inside_example : 4 + 4 ≤ (layout (table (field [] ∷ field [] ∷ []))).record_size
unfolding layout set_offsets
layout_inside_example = layout_inside (table (field [] ∷ field [] ∷ [])) 1 (placed 4) refl

layout_apart_example :
    (0 + 4 ≤ 4) × (4 + 4 ≤ (layout (table (field [] ∷ field [] ∷ []))).record_size)
unfolding layout set_offsets
layout_apart_example =
    layout_apart (table (field [] ∷ field [] ∷ [])) 0 1 (placed 0) (placed 4) (omega arith) refl
      refl

has_circle-Walk_example : (true ≡ true) ↔ Walk (decide_of round.fields) 0 0
unfolding has_circle circle_loop decide_of contains dependants
has_circle-Walk_example = has_circle-Walk round 5 0 true refl

abbrev rank : ℕ → ℕ
rank a = if a == 0 then 1 else 0

line-Ranked : Ranked (decide_of line.fields) rank
unfolding decide_of
line-Ranked zero b (here e) = subst (λ x. rank x < 1) e (omega arith)
line-Ranked zero b (there i) = elim i [ ]
line-Ranked (suc zero) b i = elim i [ ]
line-Ranked (suc (suc a)) b i = elim i [ ]

has_circle-ends_example : has_circle line 2 0 ≡ ok false
has_circle-ends_example = has_circle-ends line rank 0 2 line-Ranked (omega arith)

tail-In : (a b : ℕ) → In b (decide_of tail.fields a) → b ≡ 1
unfolding decide_of
tail-In zero b (here e) = sym e
tail-In zero b (there i) = elim i [ ]
tail-In (suc zero) b (here e) = sym e
tail-In (suc zero) b (there i) = elim i [ ]
tail-In (suc (suc a)) b i = elim i [ ]

tail-Walk : {a b : ℕ} → Walk (decide_of tail.fields) a b → b ≡ 1
tail-Walk (one i) = tail-In _ _ i
tail-Walk (step c i w) = tail-Walk w

has_circle-hangs_example : has_circle tail 100 0 ≡ hang
unfolding decide_of
has_circle-hangs_example =
    has_circle-hangs tail 100 0 1 (λ w. cc (tail-Walk w)) (one (here refl)) (one (here refl))

abbrev space : Buffer
space = record { contents = []; capacity = 8192; offset = 12; size = 0 }

expand_buffer-room_example :
    (bf' : Buffer) × (expand_buffer true space (pos 20000) ≡ ok (true, bf'))
    × Fits 8192 (12 + 20000) bf'.capacity
    × (bf'.contents ≡ [])
    × (bf'.offset ≡ 12)
    × (bf'.size ≡ 0)
expand_buffer-room_example = expand_buffer-room space 19999 (omega arith) (omega arith)

abbrev ab : Bytes
ab = b'a' ∷ b'b' ∷ []

getint-setint_example : getint 2 (setint 2 (negsuc 299) ++ ab) ≡ ok (negsuc 299, ab)
getint-setint_example = getint-setint 2 32768 (negsuc 299) ab refl (omega arith)

strsplit-join_example : strsplit (join b'|' (ab ∷ [] ∷ ab ∷ [])) b'|' ≡ ab ∷ [] ∷ ab ∷ []
strsplit-join_example =
    strsplit-join b'|' (ab ∷ [] ∷ ab ∷ []) refl
      ((refl, refl, (refl, refl, tt)), (tt, ((refl, refl, (refl, refl, tt)), λ e. cc)))
