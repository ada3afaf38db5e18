-- ===== src/Common/Pipes/Bounds.antt =====
-- The bounds that the schemas of src/common/pipes put on texts and numbers.
use nestjs_hexagonal_templat.Prelude.{
  ℕ, String, ◌≡◌, ◌≤◌, inl, inr, Option, none, some, arith, Option-cases,
}
use nestjs_hexagonal_templat.Prelude.Int.{pos, negsuc}
use nestjs_hexagonal_templat.Common.Json.{Json, null, bool, num, arr, obj, str}
use nestjs_hexagonal_templat.Common.Pipes.{
  optional_passed, text_length, text_between, whole_to, optional, nullable, present,
}

-- Lengths and numbers within the bounds of the schema.
abbrev pub HasLength : ℕ → ℕ → Option String → Type 0
HasLength lo hi none = Unit
HasLength lo hi (some s) = (lo ≤ text_length s) × (text_length s ≤ hi)

abbrev pub IsAtMost : ℕ → Option ℕ → Type 0
IsAtMost hi none = Unit
IsAtMost hi (some n) = n ≤ hi

-- An optional number that may be null.
abbrev pub IsLimit : ℕ → Option (Option ℕ) → Type 0
IsLimit hi none = Unit
IsLimit hi (some o) = IsAtMost hi o

pub text_between-HasLength :
    (lo hi : ℕ) (v : Option Json) (s : String)
    → text_between lo hi v ≡ some s
    → HasLength lo hi (some s)
unfolding text_between
text_between-HasLength lo hi none s h = absurd (cc)
text_between-HasLength lo hi (some (str t)) s h = ground arith
text_between-HasLength lo hi (some null) s h = absurd (cc)
text_between-HasLength lo hi (some (bool b)) s h = absurd (cc)
text_between-HasLength lo hi (some (num n)) s h = absurd (cc)
text_between-HasLength lo hi (some (arr items)) s h = absurd (cc)
text_between-HasLength lo hi (some (obj fs)) s h = absurd (cc)

pub whole_to-le : (hi : ℕ) (v : Option Json) (n : ℕ) → whole_to hi v ≡ some n → n ≤ hi
unfolding whole_to
whole_to-le hi none n h = absurd (cc)
whole_to-le hi (some (num (pos m))) n h = ground arith
whole_to-le hi (some (num (negsuc m))) n h = absurd (cc)
whole_to-le hi (some null) n h = absurd (cc)
whole_to-le hi (some (bool b)) n h = absurd (cc)
whole_to-le hi (some (str s)) n h = absurd (cc)
whole_to-le hi (some (arr items)) n h = absurd (cc)
whole_to-le hi (some (obj fs)) n h = absurd (cc)

pub optional-HasLength :
    (lo hi : ℕ) (v : Option Json) (o : Option String)
    → optional (text_between lo hi) v ≡ some o
    → HasLength lo hi o
optional-HasLength lo hi v o h = elim (optional_passed (text_between lo hi) v o h) [
  | inl absent ↦ rw absent tt
  | inr (s, e, passed) ↦ rw e (text_between-HasLength lo hi v s passed)
]

pub optional-IsAtMost :
    (hi : ℕ) (v : Option Json) (o : Option ℕ) → optional (whole_to hi) v ≡ some o → IsAtMost hi o
optional-IsAtMost hi v o h = elim (optional_passed (whole_to hi) v o h) [
  | inl absent ↦ rw absent tt
  | inr (n, e, passed) ↦ rw e (whole_to-le hi v n passed)
]

present-IsAtMost :
    (hi : ℕ) (v : Option Json) (o : Option ℕ) → present (whole_to hi v) ≡ some o → IsAtMost hi o
present-IsAtMost hi v o h = elim (Option-cases (whole_to hi v)) [
  | inl refused ↦ absurd (cc (rw refused at h))
  | inr (n, passed) ↦
      let same : some n ≡ o = cc (rw passed at h) in rw (← same) (whole_to-le hi v n passed)
]

nullable-IsAtMost :
    (hi : ℕ) (v : Option Json) (o : Option ℕ) → nullable (whole_to hi) v ≡ some o → IsAtMost hi o
unfolding nullable
nullable-IsAtMost hi (some null) o h = let same : none ≡ o = cc in rw (← same) tt
nullable-IsAtMost hi none o h = present-IsAtMost hi none o h
nullable-IsAtMost hi (some (num n)) o h = present-IsAtMost hi (some (num n)) o h
nullable-IsAtMost hi (some (bool b)) o h = present-IsAtMost hi (some (bool b)) o h
nullable-IsAtMost hi (some (str s)) o h = present-IsAtMost hi (some (str s)) o h
nullable-IsAtMost hi (some (arr items)) o h = present-IsAtMost hi (some (arr items)) o h
nullable-IsAtMost hi (some (obj fs)) o h = present-IsAtMost hi (some (obj fs)) o h

pub optional-IsLimit :
    (hi : ℕ) (v : Option Json) (o : Option (Option ℕ))
    → optional (nullable (whole_to hi)) v ≡ some o
    → IsLimit hi o
optional-IsLimit hi v o h = elim (optional_passed (nullable (whole_to hi)) v o h) [
  | inl absent ↦ rw absent tt
  | inr (n, e, passed) ↦ rw e (nullable-IsAtMost hi v n passed)
]
