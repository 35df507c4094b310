-- ===== src/Vfs/Slots.antt =====
-- Which descriptor `vfs_open` hands out: the lowest one from 3 on that is not in use.
use ref_arm_os.Base.{
  length, get_or, drop, length-drop, get_or-drop, find_free_cases, ℕ, ◌+◌, ◌-◌, ◌≤◌, ◌<◌, ◌≡◌, refl,
  sym, ap, ◌∙◌, ◌⊎◌, inl, inr, true, false, none, some, arith,
}
use ref_arm_os.Vfs.{Fd, Vfs, free_fd, find_fd_slot, fd_at}

-- `n` is the lowest descriptor from 3 on that is not in use.
pub record IsLowest (v : Vfs) (n : ℕ) : Type 0 where
  pub above : 3 ≤ n
  pub below : n < length v.fds
  pub free : (fd_at v n).in_use ≡ false
  pub busy : (k : ℕ) → 3 ≤ k → k < n → (fd_at v k).in_use ≡ true

abbrev pub AllOpen : Vfs → Type 0
AllOpen v = (k : ℕ) → 3 ≤ k → k < length v.fds → (fd_at v k).in_use ≡ true

at-drop : (v : Vfs) (k j : ℕ) → k ≡ 3 + j → get_or (drop 3 v.fds) j free_fd ≡ fd_at v k
at-drop v k j e = rw e (get_or-drop 3 v.fds j free_fd)

pub find_fd_slot_cases :
    (v : Vfs)
    → ((n : ℕ) × (find_fd_slot (drop 3 v.fds) 3 ≡ some n) × IsLowest v n)
      ⊎ ((find_fd_slot (drop 3 v.fds) 3 ≡ none) × AllOpen v)
unfolding find_fd_slot
find_fd_slot_cases v = elim (find_free_cases (λ d. d.in_use) (drop 3 v.fds) 3 free_fd) [
  | inl (j, e, r) ↦ inl (
    3 + j,
    e,
    record {
      above = omega arith;
      below = (let h = r.in_range in omega (arith, length-drop 3 v.fds));
      free = ap (λ (d : Fd). d.in_use) (sym (at-drop v (3 + j) j refl)) ∙ r.free;
      busy = λ k lo hi.
          ap (λ (d : Fd). d.in_use) (sym (at-drop v k (k - 3) (omega arith)))
          ∙ r.before (k - 3) (omega arith);
    },
  )
  | inr (e, r) ↦ inr (
    e,
    λ k lo hi.
        ap (λ (d : Fd). d.in_use) (sym (at-drop v k (k - 3) (omega arith)))
        ∙ r (k - 3) (omega (arith, length-drop 3 v.fds)),
  )
]
