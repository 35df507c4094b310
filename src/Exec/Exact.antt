-- ===== src/Exec/Exact.antt =====
-- `vfs_read_exact` of VinixOS/kernel/src/kernel/core/svc_handler.c against the bytes of the file.
use mathlib.Core.Path.{subst}
use mathlib.Core.Bool.{false≢true}
use ref_arm_os.Base.{
  ltb, leb, Bool-cases, ℤ, pos, add32, is_pos, to_ℕ, to_u32, ℕ, zero, suc, ◌+◌, ◌-◌, ◌^◌, ◌≤◌, ◌<◌,
  ◌≡◌, refl, sym, ap, ◌∙◌, inl, inr, true, false, Option, some, arith,
}
use ref_arm_os.Errno.{e_ok, e_fail}
use ref_arm_os.Memory.{Memory}
use ref_arm_os.Vfs.{Vfs, find_fs, fd_at, bad_fd, vfs_read}
use ref_arm_os.Exec.{read_exact, vfs_read_exact}
use ref_arm_os.FsOps.{FsOps, FsLaws, Apart}
use ref_arm_os.Vfs.Stream.{
  HasRead, Advanced, gives, gives-none, gives-all, gives-rest, vfs_read-HasRead,
}
use ref_arm_os.Vfs.Run.{Good}
use ref_arm_os.Vfs.Valid.{good_fd}

-- The ways a round of the loop goes.
round_more :
    (fuel : ℕ) (v : Vfs) (m : Memory) (fd : ℤ) (dst len total p n : ℕ)
    → dst + total ≡ p
    → len - total ≡ n
    → ltb total len ≡ true
    → is_pos (vfs_read v m fd p n).0 ≡ true
    → read_exact (suc fuel) v m fd dst len total
      ≡ read_exact fuel
          (vfs_read v m fd p n).1
          (vfs_read v m fd p n).2
          fd
          dst
          len
          (add32 total (to_u32 (vfs_read v m fd p n).0))
unfolding read_exact
round_more fuel v m fd dst len total p n ep en more got =
    let got' : is_pos (vfs_read v m fd (dst + total) (len - total)).0 ≡ true = rw (ep, en) got in
    rw (more, read_exact, got') (rw (ep, en) refl)

round_stuck :
    (fuel : ℕ) (v : Vfs) (m : Memory) (fd : ℤ) (dst len total p n : ℕ)
    → dst + total ≡ p
    → len - total ≡ n
    → ltb total len ≡ true
    → is_pos (vfs_read v m fd p n).0 ≡ false
    → read_exact (suc fuel) v m fd dst len total
      ≡ some (e_fail, (vfs_read v m fd p n).1, (vfs_read v m fd p n).2)
unfolding read_exact
round_stuck fuel v m fd dst len total p n ep en more got =
    let got' : is_pos (vfs_read v m fd (dst + total) (len - total)).0 ≡ false = rw (ep, en) got in
    rw (more, read_exact, got') (rw (ep, en) refl)

round_done :
    (fuel : ℕ) (v : Vfs) (m : Memory) (fd : ℤ) (dst len total : ℕ)
    → ltb total len ≡ false
    → read_exact (suc fuel) v m fd dst len total ≡ some (e_ok, v, m)
unfolding read_exact
round_done fuel v m fd dst len total all = rw (all, read_exact) refl

module _ (ops : FsOps) (count : ℕ) (start size : ℕ → ℕ) (laws : FsLaws ops count start size) where
  -- The bytes of the file at the descriptor are all there, or some are missing.
  pub data ReadsExactly (v : Vfs) (m : Memory) (n buf len : ℕ)
      : Option (ℤ × Vfs × Memory) → Type 0 where
    complete :
        (v' : Vfs) (m' : Memory)
        → (fd_at v n).offset + len ≤ size (fd_at v n).file_index
        → Advanced v n len v'
        → ((j : ℕ)
            → j < len
            → m' (buf + j) ≡ m (start (fd_at v n).file_index + (fd_at v n).offset + j))
        → ReadsExactly v m n buf len (some (e_ok, v', m'))
    short :
        (v' : Vfs) (m' : Memory)
        → size (fd_at v n).file_index < (fd_at v n).offset + len
        → ReadsExactly v m n buf len (some (e_fail, v', m'))

  -- A read at the open descriptor `to_ℕ fd`.
  reads_at :
      (v : Vfs) (m : Memory) (fd : ℤ) (buf len : ℕ)
      → Good ops count start size laws v
      → bad_fd v fd ≡ false
      → HasRead ops count start size laws v m (to_ℕ fd) buf len (vfs_read v m fd buf len)
  reads_at v m fd buf len g ok =
      vfs_read-HasRead ops count start size laws v m fd buf len g.valid g.mounted ok

  -- At the end of the file a round reads nothing.
  at_end :
      (v : Vfs) (m : Memory) (fd : ℤ) (buf len : ℕ)
      → Good ops count start size laws v
      → bad_fd v fd ≡ false
      → size (fd_at v (to_ℕ fd)).file_index ≤ (fd_at v (to_ℕ fd)).offset
      → is_pos (vfs_read v m fd buf len).0 ≡ false
  at_end v m fd buf len g ok past =
      let none_left : gives size v (to_ℕ fd) len ≡ 0 = gives-none size v (to_ℕ fd) len past in
      rw ((reads_at v m fd buf len g ok).result, none_left) refl

  -- After a read that reaches the end of the file, the next one reads nothing.
  then_end :
      (v : Vfs) (m : Memory) (fd : ℤ) (buf len buf' len' : ℕ)
      → Good ops count start size laws v
      → bad_fd v fd ≡ false
      → (fd_at v (to_ℕ fd)).offset < size (fd_at v (to_ℕ fd)).file_index
      → size (fd_at v (to_ℕ fd)).file_index < (fd_at v (to_ℕ fd)).offset + len
      → is_pos (vfs_read (vfs_read v m fd buf len).1 (vfs_read v m fd buf len).2 fd buf' len').0
        ≡ false
  then_end v m fd buf len buf' len' g ok lt gt =
      let h = reads_at v m fd buf len g ok in
      let here = h.table (to_ℕ fd) in
      let rest = gives-rest size v (to_ℕ fd) len lt gt in
      let g' : Good ops count start size laws (vfs_read v m fd buf len).1 = record {
        valid = h.valid;
        mounted = ap find_fs h.mounts ∙ g.mounted;
      } in
      at_end (vfs_read v m fd buf len).1 (vfs_read v m fd buf len).2 fd buf' len' g' (ground arith)
        (ground (arith, rest))

  -- `vfs_read_exact` of less than 2 ^ 31 bytes at an open descriptor of a well-formed table, over a
  -- file system that meets its laws, with a buffer apart from the file's bytes: it ends, and returns
  -- `E_OK` exactly if the file has `len` bytes left there; then they are in the buffer, the offset
  -- has moved on by `len`, and no other descriptor has changed. Otherwise it returns `E_FAIL`.
  pub vfs_read_exact-ReadsExactly :
      (v : Vfs) (m : Memory) (fd : ℤ) (buf len : ℕ)
      → Good ops count start size laws v
      → bad_fd v fd ≡ false
      → len < 2 ^ 31
      → Apart buf len (start (fd_at v (to_ℕ fd)).file_index) (size (fd_at v (to_ℕ fd)).file_index)
      → ReadsExactly v m (to_ℕ fd) buf len (vfs_read_exact v m fd buf len)
  unfolding vfs_read_exact
  vfs_read_exact-ReadsExactly v m fd buf zero g ok small apart =
      rw (round_done 0 v m fd buf 0 0 refl) (
        complete v m (let h = g.valid.in_file (to_ℕ fd) (good_fd v fd g.valid ok).3 in omega arith)
          (λ j. ground arith) (λ j lt. absurd (omega arith)))
  vfs_read_exact-ReadsExactly v m fd buf (suc l) g ok small apart =
      elim (Bool-cases
        (leb ((fd_at v (to_ℕ fd)).offset + suc l) (size (fd_at v (to_ℕ fd)).file_index))) [
          | inl fits ↦ whole (ground arith)
          | inr misses ↦ elim (Bool-cases (is_pos r.0)) [
            | inr stuck ↦
                rw
                  (round_stuck (suc l) v m fd buf (suc l) 0 buf (suc l) (omega arith) (omega arith)
                    (ground arith) stuck)
                  (short r.1 r.2 (ground arith))
            | inl got ↦ partial (ground arith) got
          ]
        ]
    where
      r : ℤ × Vfs × Memory
      r = vfs_read v m fd buf (suc l)

      h : HasRead ops count start size laws v m (to_ℕ fd) buf (suc l) r
      h = reads_at v m fd buf (suc l) g ok

      whole :
          (fd_at v (to_ℕ fd)).offset + suc l ≤ size (fd_at v (to_ℕ fd)).file_index
          → ReadsExactly v m (to_ℕ fd) buf (suc l) (read_exact (suc (suc l)) v m fd buf (suc l) 0)
      whole fits =
          let all = gives-all size v (to_ℕ fd) (suc l) (omega arith) fits in
          let result : r.0 ≡ pos (suc l) = h.result ∙ ap pos all in
          rw
            (round_more (suc l) v m fd buf (suc l) 0 buf (suc l) (omega arith) (omega arith)
              (ground arith) (rw result (ground arith)))
            (rw
              (round_done l r.1 r.2 fd buf (suc l) (add32 0 (to_u32 r.0))
                (rw result (ground arith)))
              (complete r.1 r.2 fits (subst (λ k. Advanced v (to_ℕ fd) k r.1) all h.table)
                (λ j lt. h.bytes apart j (rw all lt))))

      partial :
          size (fd_at v (to_ℕ fd)).file_index < (fd_at v (to_ℕ fd)).offset + suc l
          → is_pos r.0 ≡ true
          → ReadsExactly v m (to_ℕ fd) buf (suc l) (read_exact (suc (suc l)) v m fd buf (suc l) 0)
      partial gt got =
          elim (Bool-cases (ltb (fd_at v (to_ℕ fd)).offset (size (fd_at v (to_ℕ fd)).file_index))) [
            | inr past ↦
                absurd (false≢true (sym (at_end v m fd buf (suc l) g ok (ground arith)) ∙ got))
            | inl lt ↦
                let rest = gives-rest size v (to_ℕ fd) (suc l) (ground arith) gt in
                let result : r.0 ≡ pos (gives size v (to_ℕ fd) (suc l)) = h.result in
                rw
                  (round_more (suc l) v m fd buf (suc l) 0 buf (suc l) (omega arith) (omega arith)
                    (ground arith) got)
                  (rw
                    (round_stuck l r.1 r.2 fd buf (suc l) (add32 0 (to_u32 r.0)) _ _ refl refl
                      (rw result (ground (arith, rest)))
                      (then_end v m fd buf (suc l) _ _ g ok (ground arith) gt))
                    (short _ _ gt))
          ]
