-- ===== src/Ramfs/Lookup.antt =====
-- `ramfs_lookup` against the names of the table.
use mathlib.Core.Bool.{false≢true}
use ref_arm_os.Base.{
  Bool-cases, length, get_or, pos, ℕ, zero, suc, ◌+◌, ◌^◌, ◌<◌, ◌≡◌, refl, sym, ap, ◌∙◌, ◌⊎◌, inl,
  inr, false, List, [], ◌∷◌, arith,
}
use ref_arm_os.Errno.{e_noent}
use ref_arm_os.Memory.{Reader, literal, strcmp, is_match}
use ref_arm_os.Memory.Compare.{Holds, NoNul, strcmp-Holds}
use ref_arm_os.Ramfs.{File, no_file, lookup_from, lookup}
use ref_arm_os.Ramfs.Laws.{IsTable}

abbrev pub name_of : List File → ℕ → List ℕ
name_of fs k = (get_or fs k no_file).name

-- `k` is the first index, and `i` more than it is the result.
pub record Found (fs : List File) (i : ℕ) (name : Reader) (k : ℕ) : Type 0 where
  pub result : lookup_from fs i name ≡ pos (i + k)
  pub in_range : k < length fs
  pub same : Holds name (name_of fs k)
  pub first : (j : ℕ) → j < k → ¬ Holds name (name_of fs j)

pub record Missing (fs : List File) (i : ℕ) (name : Reader) : Type 0 where
  pub result : lookup_from fs i name ≡ e_noent
  pub absent : (j : ℕ) → j < length fs → ¬ Holds name (name_of fs j)

first-Found :
    (f : File) (fs : List File) (i : ℕ) (name : Reader)
    → i < 2 ^ 31
    → NoNul f.name
    → Holds name f.name
    → Found (f ∷ fs) i name 0
unfolding lookup_from
first-Found f fs i name small ok h = record {
  result = rw ((strcmp-Holds f.name name ok).1 h) (ground arith);
  in_range = omega arith;
  same = h;
  first = λ j lt. elim lt [ ];
}

later-Found :
    (f : File) (fs : List File) (i : ℕ) (name : Reader) (k : ℕ)
    → is_match (strcmp (suc (length f.name)) (literal f.name) name) ≡ false
    → ¬ Holds name f.name
    → Found fs (i + 1) name k
    → Found (f ∷ fs) i name (suc k)
unfolding lookup_from
later-Found f fs i name k miss ne r = record {
  result = rw miss (rw (r.result) (ap pos (omega arith)));
  in_range = (let h = r.in_range in omega arith);
  same = r.same;
  first = first;
}
  where
    first : (j : ℕ) → j < suc k → ¬ Holds name (name_of (f ∷ fs) j)
    first zero lt = ne
    first (suc j) lt = r.first j (omega arith)

later-Missing :
    (f : File) (fs : List File) (i : ℕ) (name : Reader)
    → is_match (strcmp (suc (length f.name)) (literal f.name) name) ≡ false
    → ¬ Holds name f.name
    → Missing fs (i + 1) name
    → Missing (f ∷ fs) i name
unfolding lookup_from
later-Missing f fs i name miss ne r = record { result = rw miss r.result; absent = absent }
  where
    absent : (j : ℕ) → j < suc (length fs) → ¬ Holds name (name_of (f ∷ fs) j)
    absent zero lt = ne
    absent (suc j) lt = r.absent j (omega arith)

lookup_from_cases :
    (fs : List File) (i : ℕ) (name : Reader)
    → i + length fs < 2 ^ 31
    → ((k : ℕ) → k < length fs → NoNul (name_of fs k))
    → ((k : ℕ) × Found fs i name k) ⊎ Missing fs i name
unfolding lookup_from
lookup_from_cases [] i name small ok = inr (record { result = refl; absent = λ j lt. elim lt [ ] })
lookup_from_cases (f ∷ fs) i name small ok =
    elim (Bool-cases (is_match (strcmp (suc (length f.name)) (literal f.name) name))) [
      | inl hit ↦
          inl (0, first-Found f fs i name (omega arith) own ((strcmp-Holds f.name name own).0 hit))
      | inr miss ↦
          let ne : ¬ Holds name f.name =
            λ h. false≢true (sym miss ∙ (strcmp-Holds f.name name own).1 h) in
          elim (lookup_from_cases fs (i + 1) name (omega arith)
            (λ k lt. ok (suc k) (omega arith))) [
              | inl (k, r) ↦ inl (suc k, later-Found f fs i name k miss ne r)
              | inr r ↦ inr (later-Missing f fs i name miss ne r)
            ]
    ]
  where
    own : NoNul f.name
    own = ok 0 (omega arith)

-- `ramfs_lookup` over a table that the build promises returns the first index whose name is the
-- given string, or, when no name of the table is, `E_NOENT`.
pub lookup_lem :
    (fs : List File) (name : Reader)
    → IsTable fs
    → ((k : ℕ) × (lookup fs name ≡ pos k)
        × (k < length fs)
        × Holds name (name_of fs k)
        × ((j : ℕ) → j < k → ¬ Holds name (name_of fs j)))
      ⊎ ((lookup fs name ≡ e_noent) × ((j : ℕ) → j < length fs → ¬ Holds name (name_of fs j)))
unfolding lookup
lookup_lem fs name t = elim (lookup_from_cases fs 0 name (omega arith) t.names) [
  | inl (k, r) ↦ inl (k, r.result ∙ ap pos (omega arith), r.in_range, r.same, r.first)
  | inr r ↦ inr (r.result, r.absent)
]
