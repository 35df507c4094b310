-- ===== src/Exec/Confined.antt =====
-- `sys_exec` of VinixOS/kernel/src/kernel/core/svc_handler.c against memory outside user space.
use ref_arm_os.Base.{Bool-cases, ℤ, pos, is_neg, ℕ, ◌+◌, ◌≤◌, ◌≡◌, refl, ◌∙◌, inl, inr, true, arith}
use ref_arm_os.Memory.{Memory, load32-small}
use ref_arm_os.FsOps.{FsOps, FsLaws}
use ref_arm_os.Vfs.{Vfs, vfs_open}
use ref_arm_os.Vfs.Run.{Good}
use ref_arm_os.User.{user_start, user_end, validate_user_pointer, is_ok, valid_range}
use ref_arm_os.Exec.{
  Locals, Progress, fine, failed, spins, ehdr_size, e_entry, e_phnum, validate_elf_header,
  close_one, load_segments, exec_opened, exec,
}
use ref_arm_os.Exec.Loops.{Kept, vfs_read_exact-Settles}
use ref_arm_os.Exec.Segments.{Placed, Other, Untouched, load32-Kept}
use ref_arm_os.Exec.Parts.{Confined, close_one-Good, vfs_open-Good, settled, load_segments-Confined}

module _ (ops : FsOps) (count : ℕ) (start size : ℕ → ℕ) (laws : FsLaws ops count start size) where
  module _ (l : Locals) (p : Placed l) where
    -- `sys_exec` ends, with the descriptor table well formed and these addresses as they were in
    -- `m0`; where it has loaded the program, the entry point is an address in user memory.
    abbrev pub Loads : Memory → Progress → Type 0
    Loads m0 (fine v m) =
        Good ops count start size laws v
        × Kept (Untouched l) m0 m
        × (user_start ≤ e_entry m l.ehdr)
        × (e_entry m l.ehdr + 4 ≤ user_end)
    Loads m0 (failed e v m) = Good ops count start size laws v × Kept (Untouched l) m0 m
    Loads m0 spins = ⊥

    entry_in_user :
        (m m' : Memory)
        → is_ok (validate_elf_header m l.ehdr) ≡ true
        → Kept (Other l) m m'
        → (user_start ≤ e_entry m' l.ehdr) × (e_entry m' l.ehdr + 4 ≤ user_end)
    unfolding validate_elf_header
    entry_in_user m m' ok kept =
        rw
          (load32-Kept l.ehdr ehdr_size (l.ehdr + 24) m m'
            (λ a ka. kept a (
              let q = p.ehdr_out in ground arith,
              let q = p.ehdr_phdr in ground arith,
              let q = p.ehdr_tmp in ground arith,
            ))
            (omega arith) (omega arith))
          (valid_range (e_entry m l.ehdr) 4 (load32-small m (l.ehdr + 24)) (omega arith) passed)
      where
        passed : is_ok (validate_user_pointer (e_entry m l.ehdr) 4) ≡ true
        passed = ground arith

    exec_opened-Loads :
        (v : Vfs) (m0 : Memory) (path : ℕ) (fd : ℤ)
        → Good ops count start size laws v
        → Loads m0 (exec_opened l v m0 path fd)
    unfolding exec_opened
    exec_opened-Loads v m0 path fd g =
        let r =
          vfs_read_exact-Settles ops count start size laws (Untouched l) m0 v m0 fd l.ehdr ehdr_size
            g (λ a ka. ka.1) (λ a ka. refl) (omega arith) in
        let (t, e, g1, k1, h1) =
          settled ops count start size laws (Untouched l) (Untouched l) m0 m0 _ r r in
        elim (Bool-cases (is_ok t.0)) [
          | inr bad ↦
              rw (exec_opened, e, bad) (close_one-Good ops count start size laws t.1 fd g1, k1)
          | inl ok ↦ elim (Bool-cases (is_ok (validate_elf_header t.2 l.ehdr))) [
            | inr bad ↦
                rw (exec_opened, e, ok, bad)
                  (close_one-Good ops count start size laws t.1 fd g1, k1)
            | inl valid ↦
                rw (exec_opened, e, ok, valid)
                  (rest t.2 k1 valid (load_segments (e_phnum t.2 l.ehdr) l t.1 t.2 path fd) (
                    load_segments-Confined ops count start size laws l p (e_phnum t.2 l.ehdr) t.2
                      t.1 t.2 path fd g1 (λ a ka. refl)))
          ]
        ]
      where
        rest :
            (m1 : Memory)
            → Kept (Untouched l) m0 m1
            → is_ok (validate_elf_header m1 l.ehdr) ≡ true
            → (q : Progress) → Confined ops count start size laws (Other l) m1 q
            → Loads m0 (elim q [
              | fine v2 m2 ↦ fine (close_one v2 fd) m2
              | failed e v2 m2 ↦ failed e v2 m2
              | spins ↦ spins
            ])
        rest m1 k1 valid (fine v2 m2) (g2, k2) = (
          close_one-Good ops count start size laws v2 fd g2,
          λ a ka. k2 a ka.0 ∙ k1 a ka,
          (entry_in_user m1 m2 valid k2).0,
          (entry_in_user m1 m2 valid k2).1,
        )
        rest m1 k1 valid (failed e v2 m2) (g2, k2) = (g2, λ a ka. k2 a ka.0 ∙ k1 a ka)
        rest m1 k1 valid spins h = h

    -- Over a file system that meets its laws and with a well-formed descriptor table, the program
    -- loader always ends, whatever the file holds, and keeps the table well formed. It writes to
    -- user memory and to its own local variables only, if these lie outside user memory and apart
    -- from each other. Where it succeeds, the word at the entry point lies in user memory.
    pub exec-Loads :
        (v : Vfs) (m : Memory) (path : ℕ)
        → Good ops count start size laws v
        → Loads m (exec l v m path)
    unfolding exec
    exec-Loads v m path g =
        let o = vfs_open v m path (pos 0) in
        let go = vfs_open-Good ops count start size laws v m path (pos 0) g in
        elim (Bool-cases (is_ok (validate_user_pointer path 256))) [
          | inr bad ↦ rw (exec, bad) (g, λ a ka. refl)
          | inl ok ↦ elim (Bool-cases (is_neg o.0)) [
            | inl bad ↦ rw (exec, ok, bad) (go, λ a ka. refl)
            | inr given ↦ rw (exec, ok, given) (exec_opened-Loads o.1 m path o.0 go)
          ]
        ]
