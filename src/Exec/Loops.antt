-- ===== src/Exec/Loops.antt =====
-- The loops `vfs_read_exact` and `vfs_skip_bytes` of
-- VinixOS/kernel/src/kernel/core/svc_handler.c: their fuel, and where they write.
use ref_arm_os.Base.{
  ltb, if◌then◌else◌, Bool-cases, ℤ, add32, sub32, is_pos, to_ℕ, to_u32, ℕ, zero, suc, ◌+◌, ◌-◌,
  ◌^◌, ◌≤◌, ◌<◌, ◌≡◌, ap, ◌∙◌, ◌⊎◌, inl, inr, Option, none, some, arith,
}
use ref_arm_os.Memory.{Memory}
use ref_arm_os.FsOps.{FsOps, FsLaws}
use ref_arm_os.Vfs.{Vfs, find_fs, bad_fd, vfs_read}
use ref_arm_os.Vfs.Stream.{HasRead, gives, gives-len, vfs_read-HasRead}
use ref_arm_os.Vfs.Run.{Good}
use ref_arm_os.Exec.{chunk_size, read_exact, vfs_read_exact, skip_bytes, vfs_skip_bytes}

-- Of the addresses in `Keep`, none lies in the region; memory is as it was at each of them.
abbrev pub Clear : (ℕ → Type 0) → ℕ → ℕ → Type 0
Clear Keep buf len = (a : ℕ) → Keep a → (a < buf) ⊎ (buf + len ≤ a)

abbrev pub Kept : (ℕ → Type 0) → Memory → Memory → Type 0
Kept Keep m0 m = (a : ℕ) → Keep a → m a ≡ m0 a

module _ (ops : FsOps) (count : ℕ) (start size : ℕ → ℕ) (laws : FsLaws ops count start size) where
  -- A loop has ended, the descriptor table is well formed and the addresses are kept.
  abbrev pub Settles : (ℕ → Type 0) → Memory → Option (ℤ × Vfs × Memory) → Type 0
  Settles Keep m0 none = ⊥
  Settles Keep m0 (some (e, v, m)) = Good ops count start size laws v × Kept Keep m0 m

  pub read-Keeps :
      (Keep : ℕ → Type 0) (m0 : Memory) (v : Vfs) (m : Memory) (fd : ℤ) (buf len : ℕ)
      → Good ops count start size laws v
      → Clear Keep buf len
      → Kept Keep m0 m
      → Good ops count start size laws (vfs_read v m fd buf len).1
        × Kept Keep m0 (vfs_read v m fd buf len).2
        × (to_ℕ (vfs_read v m fd buf len).0 ≤ len)
  unfolding vfs_read
  read-Keeps Keep m0 v m fd buf len g clear kept = elim (Bool-cases (bad_fd v fd)) [
    | inl b ↦ rw b (g, kept, omega arith)
    | inr ok ↦
        within (vfs_read-HasRead ops count start size laws v m fd buf len g.valid g.mounted ok)
  ]
    where
      few : gives size v (to_ℕ fd) len ≤ len
      few = gives-len size v (to_ℕ fd) len

      within :
          HasRead ops count start size laws v m (to_ℕ fd) buf len (vfs_read v m fd buf len)
          → Good ops count start size laws (vfs_read v m fd buf len).1
            × Kept Keep m0 (vfs_read v m fd buf len).2
            × (to_ℕ (vfs_read v m fd buf len).0 ≤ len)
      within r = (
        record { valid = r.valid; mounted = ap find_fs r.mounts ∙ g.mounted },
        λ a ka. r.frame a (let c = clear a ka in let e = few in ground arith) ∙ kept a ka,
        rw r.result few,
      )

  read_exact-Settles :
      (Keep : ℕ → Type 0) (m0 : Memory) (fuel : ℕ) (v : Vfs) (m : Memory) (fd : ℤ)
      → (dst len total : ℕ) → Good ops count start size laws v
      → Clear Keep dst len
      → Kept Keep m0 m
      → len < 2 ^ 32
      → total ≤ len
      → len - total < fuel
      → Settles Keep m0 (read_exact fuel v m fd dst len total)
  unfolding read_exact
  read_exact-Settles Keep m0 zero v m fd dst len total g clear kept small le lt =
      absurd (omega arith)
  read_exact-Settles Keep m0 (suc fuel) v m fd dst len total g clear kept small le lt =
      elim (Bool-cases (ltb total len)) [
        | inr all ↦ rw (all, read_exact) (g, kept)
        | inl more ↦ elim (Bool-cases (is_pos r.0)) [
          | inr stuck ↦ rw (more, read_exact, stuck) (g', kept')
          | inl got ↦
              rw (more, read_exact, got)
                (read_exact-Settles Keep m0 fuel r.1 r.2 fd dst len (add32 total (to_u32 r.0)) g'
                  clear kept' small (ground (arith, le')) (ground (arith, le')))
        ]
      ]
    where
      r : ℤ × Vfs × Memory
      r = vfs_read v m fd (dst + total) (len - total)

      reads_on : Good ops count start size laws r.1 × Kept Keep m0 r.2 × (to_ℕ r.0 ≤ len - total)
      reads_on =
          read-Keeps Keep m0 v m fd (dst + total) (len - total) g
            (λ a ka. let c = clear a ka in ground arith) kept

      g' : Good ops count start size laws r.1
      g' = reads_on.0

      kept' : Kept Keep m0 r.2
      kept' = reads_on.1

      le' : to_ℕ r.0 ≤ len - total
      le' = reads_on.2

  skip_bytes-Settles :
      (Keep : ℕ → Type 0) (m0 : Memory) (fuel : ℕ) (v : Vfs) (m : Memory) (fd : ℤ)
      → (tmp left : ℕ) → Good ops count start size laws v
      → Clear Keep tmp chunk_size
      → Kept Keep m0 m
      → left < 2 ^ 32
      → left < fuel
      → Settles Keep m0 (skip_bytes fuel v m fd tmp left)
  unfolding skip_bytes
  skip_bytes-Settles Keep m0 zero v m fd tmp left g clear kept small lt = absurd (omega arith)
  skip_bytes-Settles Keep m0 (suc fuel) v m fd tmp left g clear kept small lt =
      elim (Bool-cases (ltb 0 left)) [
        | inr all ↦ rw (all, skip_bytes) (g, kept)
        | inl more ↦ elim (Bool-cases (is_pos r.0)) [
          | inr stuck ↦ rw (more, skip_bytes, stuck) (g', kept')
          | inl got ↦
              rw (more, skip_bytes, got)
                (skip_bytes-Settles Keep m0 fuel r.1 r.2 fd tmp (sub32 left (to_u32 r.0)) g' clear
                  kept' (ground (arith, le')) (ground (arith, le')))
        ]
      ]
    where
      chunk : ℕ
      chunk = if ltb chunk_size left then chunk_size else left

      r : ℤ × Vfs × Memory
      r = vfs_read v m fd tmp chunk

      reads_on : Good ops count start size laws r.1 × Kept Keep m0 r.2 × (to_ℕ r.0 ≤ chunk)
      reads_on =
          read-Keeps Keep m0 v m fd tmp chunk g (λ a ka. let c = clear a ka in ground arith) kept

      g' : Good ops count start size laws r.1
      g' = reads_on.0

      kept' : Kept Keep m0 r.2
      kept' = reads_on.1

      le' : to_ℕ r.0 ≤ left
      le' = let e = reads_on.2 in ground arith

  pub vfs_read_exact-Settles :
      (Keep : ℕ → Type 0) (m0 : Memory) (v : Vfs) (m : Memory) (fd : ℤ) (buf len : ℕ)
      → Good ops count start size laws v
      → Clear Keep buf len
      → Kept Keep m0 m
      → len < 2 ^ 32
      → Settles Keep m0 (vfs_read_exact v m fd buf len)
  unfolding vfs_read_exact
  vfs_read_exact-Settles Keep m0 v m fd buf len g clear kept small =
      read_exact-Settles Keep m0 (suc len) v m fd buf len 0 g clear kept small (omega arith)
        (omega arith)

  pub vfs_skip_bytes-Settles :
      (Keep : ℕ → Type 0) (m0 : Memory) (v : Vfs) (m : Memory) (fd : ℤ) (tmp len : ℕ)
      → Good ops count start size laws v
      → Clear Keep tmp chunk_size
      → Kept Keep m0 m
      → len < 2 ^ 32
      → Settles Keep m0 (vfs_skip_bytes v m fd tmp len)
  unfolding vfs_skip_bytes
  vfs_skip_bytes-Settles Keep m0 v m fd tmp len g clear kept small =
      skip_bytes-Settles Keep m0 (suc len) v m fd tmp len g clear kept small (omega arith)
