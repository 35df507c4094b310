-- ===== src/Memory/Compare.antt =====
-- `strcmp` against equality of strings.
use ref_arm_os.Base.{
  ◌==◌, if◌then◌else◌, Bool-cases, length, ℤ, sub_ℕ, ℕ, suc, ◌<◌, ◌≡◌, refl, ◌↔◌, inl, inr, true,
  some, List, [], ◌∷◌, arith,
}
use ref_arm_os.Memory.{Reader, next, literal, strcmp, is_match}

-- the reader shows exactly the bytes `cs` and then a NUL
abbrev pub Holds : Reader → List ℕ → Type 0
Holds s [] = s 0 ≡ 0
Holds s (c ∷ cs) = (s 0 ≡ c) × Holds (next s) cs

abbrev pub NoNul : List ℕ → Type 0
NoNul [] = Unit {0}
NoNul (c ∷ cs) = (0 < c) × NoNul cs

-- One round over the string constant's first byte.
strcmp_step :
    (f c : ℕ) (cs : List ℕ) (s : Reader)
    → 0 < c
    → strcmp (suc f) (literal (c ∷ cs)) s
      ≡ (if c == s 0 then strcmp f (literal cs) (next s) else some (sub_ℕ c (s 0)))
unfolding strcmp
strcmp_step f c cs s h = ground arith

strcmp_step' :
    (f c : ℕ) (cs : List ℕ) (s : Reader)
    → 0 < c
    → strcmp (suc f) s (literal (c ∷ cs))
      ≡ (if s 0 == c then strcmp f (next s) (literal cs) else some (sub_ℕ (s 0) c))
unfolding strcmp
strcmp_step' f c cs s h = ground arith

-- `strcmp` ends within the bytes of a string constant and its NUL, whatever the other string.
pub strcmp_total :
    (cs : List ℕ) (s : Reader) → (d : ℤ) × (strcmp (suc (length cs)) (literal cs) s ≡ some d)
unfolding strcmp
strcmp_total [] s = (sub_ℕ 0 (s 0), refl)
strcmp_total (c ∷ cs) s = elim (Bool-cases (c == 0)) [
  | inl z ↦ (sub_ℕ c (s 0), rw (z, strcmp))
  | inr nz ↦ elim (Bool-cases (c == s 0)) [
    | inl e ↦ ((strcmp_total cs (next s)).0, rw (nz, e, strcmp) ((strcmp_total cs (next s)).1))
    | inr ne ↦ (sub_ℕ c (s 0), rw (nz, ne, strcmp))
  ]
]

pub strcmp_total' :
    (cs : List ℕ) (s : Reader) → (d : ℤ) × (strcmp (suc (length cs)) s (literal cs) ≡ some d)
unfolding strcmp
strcmp_total' [] s = elim (Bool-cases (s 0 == 0)) [
  | inl z ↦ (sub_ℕ (s 0) 0, rw (z, strcmp))
  | inr nz ↦ (sub_ℕ (s 0) 0, rw (nz, nz, strcmp))
]
strcmp_total' (c ∷ cs) s = elim (Bool-cases (s 0 == 0)) [
  | inl z ↦ (sub_ℕ (s 0) c, rw (z, strcmp))
  | inr nz ↦ elim (Bool-cases (s 0 == c)) [
    | inl e ↦ ((strcmp_total' cs (next s)).0, rw (nz, e, strcmp) ((strcmp_total' cs (next s)).1))
    | inr ne ↦ (sub_ℕ (s 0) c, rw (nz, ne, strcmp))
  ]
]

-- `strcmp` of a string constant returns 0 exactly for a string of the same bytes.
pub strcmp-Holds :
    (cs : List ℕ) (s : Reader)
    → NoNul cs
    → (is_match (strcmp (suc (length cs)) (literal cs) s) ≡ true) ↔ Holds s cs
unfolding strcmp
strcmp-Holds [] s h = ground arith
strcmp-Holds (c ∷ cs) s h =
    rw (strcmp_step (suc (length cs)) c cs s h.0) (ground (arith, strcmp-Holds cs (next s) h.1))

pub strcmp-Holds' :
    (cs : List ℕ) (s : Reader)
    → NoNul cs
    → (is_match (strcmp (suc (length cs)) s (literal cs)) ≡ true) ↔ Holds s cs
unfolding strcmp
strcmp-Holds' [] s h = ground arith
strcmp-Holds' (c ∷ cs) s h =
    rw (strcmp_step' (suc (length cs)) c cs s h.0) (ground (arith, strcmp-Holds' cs (next s) h.1))
