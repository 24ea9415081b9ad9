-- ===== src/MySql/Text.antt =====
-- SQL of the MySQL adapter is text whose parameters are written `?`. The question marks of a text,
-- and `trim`.
use Prim.Native.Char.{Char, code}
use text.Mathlib.TextLemmas.{cons-append, nil-append}
use velo_external_db.Base.{
  ℕ, suc, ◌+◌, ◌≤◌, String, ◌≡◌, refl, sym, ◌∙◌, inl, inr, subst, Bool, true, false, ◌&&◌, ◌||◌,
  List, [], ◌∷◌, ◌&◌, before_char, after_char, join, eqb, leb, Bool-cases, arith, if◌then◌else◌,
}

unfoldable pub question_marks : String → ℕ
question_marks String.[] = 0
question_marks (String.◌∷◌ c s) =
    let rest = question_marks s in if eqb (code c) b'?' then suc rest else rest

-- A blank, as `trim` sees it: white space or the end of a line.
abbrev pub is_blank : ℕ → Bool
is_blank k =
    (leb 9 k && leb k 13)
    || eqb k 32
    || eqb k 160
    || eqb k 5760
    || (leb 8192 k && leb k 8202)
    || (leb 8232 k && leb k 8233)
    || eqb k 8239
    || eqb k 8287
    || eqb k 12288
    || eqb k 65279

-- `s.trimStart()`
abbrev pub trim_start : String → String
trim_start String.[] = ""
trim_start (String.◌∷◌ c s) =
    let rest = trim_start s in if is_blank (code c) then rest else String.◌∷◌ c s

abbrev is_nothing : String → Bool
is_nothing String.[] = true
is_nothing (String.◌∷◌ c s) = false

-- `s.trimEnd()`
abbrev pub trim_end : String → String
trim_end String.[] = ""
trim_end (String.◌∷◌ c s) =
    let rest = trim_end s in if is_blank (code c) && is_nothing rest then "" else String.◌∷◌ c rest

-- `s.trim()`
unfoldable pub trim : String → String
trim s = trim_end (trim_start s)

trim_test : trim " a b  " ≡ "a b"
unfolding trim
trim_test = refl

pub question_marks-append :
    (s t : String) → question_marks (s & t) ≡ question_marks s + question_marks t
unfolding question_marks
question_marks-append String.[] t = rw nil-append (omega arith)
question_marks-append (String.◌∷◌ c s) t = rw cons-append (elim (Bool-cases (eqb (code c) b'?')) [
  | inl e ↦ rw e (omega (arith, question_marks-append s t))
  | inr e ↦ rw e (question_marks-append s t)
])

-- A blank is no question mark.
blank-false : (k : ℕ) → is_blank k ≡ true → eqb k b'?' ≡ false
blank-false k h = elim (Bool-cases (eqb k b'?')) [
  | inl e ↦
      let same : k ≡ 63 = ground arith in
      let bad : false ≡ true = subst (λ n. is_blank n ≡ true) same h in cc
  | inr e ↦ e
]

question_marks-cons :
    (c : Char) (s : String)
    → is_blank (code c) ≡ true
    → question_marks (String.◌∷◌ c s) ≡ question_marks s
unfolding question_marks
question_marks-cons c s h = rw (blank-false (code c) h) refl

question_marks-trim_start : (s : String) → question_marks (trim_start s) ≡ question_marks s
question_marks-trim_start String.[] = refl
question_marks-trim_start (String.◌∷◌ c s) = elim (Bool-cases (is_blank (code c))) [
  | inl e ↦ rw e (question_marks-trim_start s ∙ sym (question_marks-cons c s e))
  | inr e ↦ rw e refl
]

is_nothing-marks : (s : String) → is_nothing s ≡ true → question_marks s ≡ 0
unfolding question_marks
is_nothing-marks String.[] h = refl
is_nothing-marks (String.◌∷◌ c s) h = cc

question_marks-keep :
    (c : Char) (s t : String)
    → question_marks s ≡ question_marks t
    → question_marks (String.◌∷◌ c s) ≡ question_marks (String.◌∷◌ c t)
unfolding question_marks
question_marks-keep c s t h = rw h refl

question_marks-trim_end : (s : String) → question_marks (trim_end s) ≡ question_marks s
unfolding question_marks
question_marks-trim_end String.[] = refl
question_marks-trim_end (String.◌∷◌ c s) =
    let keep = question_marks-keep c (trim_end s) s (question_marks-trim_end s) in
    elim (Bool-cases (is_blank (code c))) [
      | inl e ↦ elim (Bool-cases (is_nothing (trim_end s))) [
        | inl n ↦
            rw (e, n)
              (sym (
                question_marks-cons c s e
                ∙ (sym (question_marks-trim_end s) ∙ is_nothing-marks (trim_end s) n)))
        | inr n ↦ rw (e, n) keep
      ]
      | inr e ↦ rw e keep
    ]

pub question_marks-trim : (s : String) → question_marks (trim s) ≡ question_marks s
unfolding trim
question_marks-trim s = question_marks-trim_end (trim_start s) ∙ question_marks-trim_start s

cons-marks_le :
    (c : Char) (s t : String)
    → question_marks s ≤ question_marks t
    → question_marks (String.◌∷◌ c s) ≤ question_marks (String.◌∷◌ c t)
unfolding question_marks
cons-marks_le c s t h = elim (Bool-cases (eqb (code c) b'?')) [
  | inl e ↦ rw e (omega (arith, h))
  | inr e ↦ rw e h
]

marks_le-cons : (c : Char) (s : String) → question_marks s ≤ question_marks (String.◌∷◌ c s)
unfolding question_marks
marks_le-cons c s = elim (Bool-cases (eqb (code c) b'?')) [
  | inl e ↦ rw e (omega arith)
  | inr e ↦ rw e (omega arith)
]

-- The parts of a dotted name have no more question marks than the name.
pub before_char-marks_le :
    (k : ℕ) (s : String) → question_marks (before_char k s) ≤ question_marks s
unfolding question_marks
before_char-marks_le k String.[] = omega arith
before_char-marks_le k (String.◌∷◌ c s) = elim (Bool-cases (eqb (code c) k)) [
  | inl e ↦ rw e (unfold question_marks in omega arith)
  | inr e ↦ rw e (cons-marks_le c (before_char k s) s (before_char-marks_le k s))
]

pub after_char-marks_le : (k : ℕ) (s : String) → question_marks (after_char k s) ≤ question_marks s
unfolding question_marks
after_char-marks_le k String.[] = omega arith
after_char-marks_le k (String.◌∷◌ c s) = elim (Bool-cases (eqb (code c) k)) [
  | inl e ↦ rw e (marks_le-cons c s)
  | inr e ↦ rw e (omega (arith, after_char-marks_le k s, marks_le-cons c s))
]

-- The question marks of texts together.
abbrev pub all_marks : List String → ℕ
all_marks [] = 0
all_marks (s ∷ ss) = question_marks s + all_marks ss

pub question_marks-join :
    (separator : String) (ss : List String)
    → question_marks separator ≡ 0
    → question_marks (join separator ss) ≡ all_marks ss
unfolding question_marks
question_marks-join separator [] h = refl
question_marks-join separator (s ∷ []) h = omega arith
question_marks-join separator (s ∷ t ∷ ts) h =
    let ih = question_marks-join separator (t ∷ ts) h in
    rw
      (
        question_marks-append s (separator & join separator (t ∷ ts)),
        question_marks-append separator (join separator (t ∷ ts)),
      )
      (omega (arith, h, ih))
