-- ===== src/Exec/Parts.antt =====
-- The parts of `sys_exec` in VinixOS/kernel/src/kernel/core/svc_handler.c against memory outside user
-- space.
use ref_arm_os.Base.{
  ltb, ◌==◌, Bool-cases, ℤ, pos, is_neg, ℕ, zero, suc, ◌+◌, ◌≡◌, refl, inl, inr, true, false,
  Option, none, some, arith,
}
use ref_arm_os.Memory.{Memory, load32, load32-small}
use ref_arm_os.FsOps.{FsOps, FsLaws}
use ref_arm_os.Vfs.{Vfs, vfs_open}
use ref_arm_os.Vfs.Run.{Good, opens, closes, step, step-Good}
use ref_arm_os.User.{validate_user_pointer, is_ok, valid_range}
use ref_arm_os.Exec.{
  Locals, Progress, fine, failed, spins, vfs_read_exact, vfs_skip_bytes, phdr_size, close_one,
  fill_segment, load_segment, load_segments,
}
use ref_arm_os.Exec.Loops.{Kept, Settles, vfs_read_exact-Settles, vfs_skip_bytes-Settles}
use ref_arm_os.Exec.Segments.{Placed, Checked, Inside, Other, Checked-Kept, zero_rest-Kept}

module _ (ops : FsOps) (count : ℕ) (start size : ℕ → ℕ) (laws : FsLaws ops count start size) where
  -- A part of the loader ends, and leaves the addresses of `Keep` alone.
  abbrev pub Confined : (ℕ → Type 0) → Memory → Progress → Type 0
  Confined Keep m0 (fine v m) = Good ops count start size laws v × Kept Keep m0 m
  Confined Keep m0 (failed e v m) = Good ops count start size laws v × Kept Keep m0 m
  Confined Keep m0 spins = ⊥

  pub close_one-Good :
      (v : Vfs) (fd : ℤ)
      → Good ops count start size laws v
      → Good ops count start size laws (close_one v fd)
  unfolding step
  close_one-Good v fd g = step-Good ops count start size laws v (closes fd) g

  pub vfs_open-Good :
      (v : Vfs) (m : Memory) (path : ℕ) (flags : ℤ)
      → Good ops count start size laws v
      → Good ops count start size laws (vfs_open v m path flags).1
  unfolding step
  vfs_open-Good v m path flags g = step-Good ops count start size laws v (opens m path flags) g

  -- An exact read or a skip as a value, with two sets of addresses that it leaves alone.
  pub settled :
      (Keep Keep' : ℕ → Type 0) (m0 m : Memory) (o : Option (ℤ × Vfs × Memory))
      → Settles ops count start size laws Keep m0 o
      → Settles ops count start size laws Keep' m o
      → (t : ℤ × Vfs × Memory) × (o ≡ some t)
        × Good ops count start size laws t.1
        × Kept Keep m0 t.2
        × Kept Keep' m t.2
  settled Keep Keep' m0 m none h h' = absurd h
  settled Keep Keep' m0 m (some t) (g, k) (g', k') = (t, refl, g, k, k')

  module _ (l : Locals) (p : Placed l) where
    abbrev Header : ℕ → Type 0
    Header = Inside l.phdr phdr_size

    skipped :
        (m0 : Memory) (v : Vfs) (m : Memory) (fd : ℤ)
        → Good ops count start size laws v
        → Kept (Other l) m0 m
        → (t : ℤ × Vfs × Memory) × (vfs_skip_bytes v m fd l.tmp (load32 m (l.phdr + 4)) ≡ some t)
          × Good ops count start size laws t.1
          × Kept (Other l) m0 t.2
          × Kept Header m t.2
    skipped m0 v m fd g kept =
        settled (Other l) Header m0 m _
          (vfs_skip_bytes-Settles ops count start size laws (Other l) m0 v m fd l.tmp
            (load32 m (l.phdr + 4)) g (λ a ka. ka.2) kept (load32-small m (l.phdr + 4)))
          (vfs_skip_bytes-Settles ops count start size laws Header m v m fd l.tmp
            (load32 m (l.phdr + 4)) g (λ a ka. let q = p.phdr_tmp in ground arith) (λ a ka. refl)
            (load32-small m (l.phdr + 4)))

    filled :
        (m0 : Memory) (v : Vfs) (m : Memory) (fd : ℤ)
        → Good ops count start size laws v
        → Kept (Other l) m0 m
        → Checked l m
        → (t : ℤ × Vfs × Memory) × (vfs_read_exact v m fd
              (load32 m (l.phdr + 8))
              (load32 m (l.phdr + 16))
            ≡ some t)
          × Good ops count start size laws t.1
          × Kept (Other l) m0 t.2
          × Kept Header m t.2
    filled m0 v m fd g kept c =
        let fits = c.fits in
        let above = c.above in
        let below = c.below in
        settled (Other l) Header m0 m _
          (vfs_read_exact-Settles ops count start size laws (Other l) m0 v m fd
            (load32 m (l.phdr + 8)) (load32 m (l.phdr + 16)) g (λ a ka. ground (arith, ka.0)) kept
            (load32-small m (l.phdr + 16)))
          (vfs_read_exact-Settles ops count start size laws Header m v m fd (load32 m (l.phdr + 8))
            (load32 m (l.phdr + 16)) g (λ a ka. let q = p.phdr_out in ground arith) (λ a ka. refl)
            (load32-small m (l.phdr + 16)))

    fill_segment-Confined :
        (m0 : Memory) (v : Vfs) (m : Memory) (fd seg_fd : ℤ)
        → Good ops count start size laws v
        → Kept (Other l) m0 m
        → Checked l m
        → Confined (Other l) m0 (fill_segment l v m fd seg_fd)
    unfolding fill_segment
    fill_segment-Confined m0 v m fd seg_fd g kept c =
        let (t1, e1, g1, k1, h1) = skipped m0 v m seg_fd g kept in
        let c1 = Checked-Kept l m t1.2 c h1 in
        let (t2, e2, g2, k2, h2) = filled m0 t1.1 t1.2 seg_fd g1 k1 c1 in
        let c2 = Checked-Kept l t1.2 t2.2 c1 h2 in
        elim (Bool-cases (is_ok t1.0)) [
          | inr bad ↦
              rw (fill_segment, e1, bad) (close_one-Good _ fd (close_one-Good t1.1 seg_fd g1), k1)
          | inl ok ↦ elim (Bool-cases (is_ok t2.0)) [
            | inr bad ↦
                rw (fill_segment, e1, ok, e2, bad)
                  (close_one-Good _ fd (close_one-Good t2.1 seg_fd g2), k2)
            | inl ok' ↦
                rw (fill_segment, e1, ok, e2, ok')
                  (close_one-Good t2.1 seg_fd g2, zero_rest-Kept l m0 t2.2 c2 k2)
          ]
        ]

    load_segment-Confined :
        (m0 : Memory) (v : Vfs) (m : Memory) (path : ℕ) (fd : ℤ)
        → Good ops count start size laws v
        → Kept (Other l) m0 m
        → Confined (Other l) m0 (load_segment l v m path fd)
    unfolding load_segment
    load_segment-Confined m0 v m path fd g kept =
        let memsz = load32 m (l.phdr + 20) in
        let filesz = load32 m (l.phdr + 16) in
        let vaddr = load32 m (l.phdr + 8) in
        let o = vfs_open v m path (pos 0) in
        let go = vfs_open-Good v m path (pos 0) g in
        elim (Bool-cases (load32 m l.phdr == 1)) [
          | inr skip ↦ rw (load_segment, skip) (g, kept)
          | inl load ↦ elim (Bool-cases (ltb memsz filesz)) [
            | inl bad ↦ rw (load_segment, load, bad) (close_one-Good v fd g, kept)
            | inr fits ↦ elim (Bool-cases (is_ok (validate_user_pointer vaddr memsz))) [
              | inr bad ↦ rw (load_segment, load, fits, bad) (close_one-Good v fd g, kept)
              | inl ok ↦ elim (Bool-cases (is_neg o.0)) [
                | inl bad ↦ rw (load_segment, load, fits, ok, bad) (close_one-Good o.1 fd go, kept)
                | inr given ↦
                    rw (load_segment, load, fits, ok, given)
                      (fill_segment-Confined m0 o.1 m fd o.0 go kept (checked ok fits))
              ]
            ]
          ]
        ]
      where
        checked :
            is_ok (validate_user_pointer (load32 m (l.phdr + 8)) (load32 m (l.phdr + 20))) ≡ true
            → ltb (load32 m (l.phdr + 20)) (load32 m (l.phdr + 16)) ≡ false
            → Checked l m
        checked ok fits =
            let (lo, hi) =
              valid_range (load32 m (l.phdr + 8)) (load32 m (l.phdr + 20))
                (load32-small m (l.phdr + 8)) (load32-small m (l.phdr + 20)) ok in
            record { fits = ground arith; above = lo; below = hi }

    pub load_segments-Confined :
        (left : ℕ) (m0 : Memory) (v : Vfs) (m : Memory) (path : ℕ) (fd : ℤ)
        → Good ops count start size laws v
        → Kept (Other l) m0 m
        → Confined (Other l) m0 (load_segments left l v m path fd)
    unfolding load_segments
    load_segments-Confined zero m0 v m path fd g kept = (g, kept)
    load_segments-Confined (suc left) m0 v m path fd g kept =
        let r =
          vfs_read_exact-Settles ops count start size laws (Other l) m0 v m fd l.phdr phdr_size g
            (λ a ka. ka.1) kept (omega arith) in
        let (t, e, g1, k1, h1) = settled (Other l) (Other l) m0 m0 _ r r in
        elim (Bool-cases (is_ok t.0)) [
          | inr bad ↦ rw (load_segments, e, bad) (close_one-Good t.1 fd g1, k1)
          | inl ok ↦
              rw (load_segments, e, ok)
                (rest (λ v2 m2 g2 k2. load_segments-Confined left m0 v2 m2 path fd g2 k2)
                  (load_segment l t.1 t.2 path fd) (load_segment-Confined m0 t.1 t.2 path fd g1 k1))
        ]
      where
        rest :
            ((v2 : Vfs) (m2 : Memory)
              → Good ops count start size laws v2
              → Kept (Other l) m0 m2
              → Confined (Other l) m0 (load_segments left l v2 m2 path fd))
            → (q : Progress) → Confined (Other l) m0 q
            → Confined (Other l) m0 (elim q [
              | fine v2 m2 ↦ load_segments left l v2 m2 path fd
              | failed e v2 m2 ↦ failed e v2 m2
              | spins ↦ spins
            ])
        rest later (fine v2 m2) (g2, k2) = later v2 m2 g2 k2
        rest later (failed e v2 m2) h = h
        rest later spins h = h
