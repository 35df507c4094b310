-- ===== src/Svc/Writes.antt =====
-- Where the handlers that fill a buffer with records write.
use ref_arm_os.Base.{
  ltb, leb, if◌then◌else◌, Bool-cases, length, length-take, ℤ, pos, is_neg, is_zero, to_ℕ, to_i32,
  ℕ, zero, suc, ◌+◌, ◌*◌, ◌≤◌, ◌<◌, ◌≡◌, refl, ◌∙◌, ◌⊎◌, inl, inr, ◌||◌, Option, none, some, List,
  [], ◌∷◌, arith,
}
use ref_arm_os.Memory.{Memory, store32}
use ref_arm_os.Memory.Copy.{strcpy_frame}
use ref_arm_os.FsOps.{FsOps, FsLaws}
use ref_arm_os.Vfs.{Vfs, find_fs, file_info_size, fill_entries, listed, vfs_listdir}
use ref_arm_os.Sched.{
  Task, Sched, process_info_size, unknown, shown_name, put_process, list_tasks, scheduler_get_tasks,
}
use ref_arm_os.Exec.Loops.{Clear, Kept}

length-shown_name : (name : Option (List ℕ)) → length (shown_name name) ≤ 31
length-shown_name none = omega (arith, length-take 31 unknown)
length-shown_name (some n) = omega (arith, length-take 31 n)

put_process-frame :
    (m : Memory) (p : ℕ) (t : Task) (a : ℕ)
    → (a < p) ⊎ (p + process_info_size ≤ a)
    → put_process m p t a ≡ m a
unfolding put_process
put_process-frame m p t a out =
    ground (
      arith,
      length-shown_name t.name,
      strcpy_frame (shown_name t.name) (p + 4) (store32 m p t.id) a,
    )

list_tasks-Kept :
    (Keep : ℕ → Type 0) (m0 : Memory) (s : Sched) (es : List (Option ℕ)) (count max_count buf : ℕ)
    → (m : Memory) → Clear Keep buf (max_count * process_info_size)
    → Kept Keep m0 m
    → Kept Keep m0 (list_tasks s es count max_count buf m).1
unfolding list_tasks
list_tasks-Kept Keep m0 s [] count max_count buf m clear kept = kept
list_tasks-Kept Keep m0 s (none ∷ es) count max_count buf m clear kept =
    list_tasks-Kept Keep m0 s es count max_count buf m clear kept
list_tasks-Kept Keep m0 s (some p ∷ es) count max_count buf m clear kept =
    elim (Bool-cases (ltb count max_count)) [
      | inr full ↦ rw (list_tasks, full) kept
      | inl room ↦
          rw (list_tasks, room)
            (list_tasks-Kept Keep m0 s es (count + 1) max_count buf
              (put_process m (buf + count * process_info_size) (s.structs p)) clear
              (λ a ka.
                put_process-frame m (buf + count * process_info_size) (s.structs p) a
                  (let c = clear a ka in ground arith)
                ∙ kept a ka))
    ]

pub scheduler_get_tasks-Kept :
    (Keep : ℕ → Type 0) (s : Sched) (buf max_count : ℕ) (m : Memory)
    → Clear Keep buf (max_count * process_info_size)
    → Kept Keep m (scheduler_get_tasks s buf max_count m).1
unfolding scheduler_get_tasks
scheduler_get_tasks-Kept Keep s buf max_count m clear =
    list_tasks-Kept Keep m s s.tasks 0 max_count buf m clear (λ a ka. refl)

module _ {count : ℕ} {start size : ℕ → ℕ} (ops : FsOps) (laws : FsLaws ops count start size) where
  fill_entries-Kept :
      (Keep : ℕ → Type 0) (m0 : Memory) (left i n : ℕ) (limit : ℤ) (entries : ℕ) (m : Memory)
      → Clear Keep entries (to_ℕ limit * file_info_size)
      → Kept Keep m0 m
      → Kept Keep m0 (fill_entries ops left i n limit entries m).1
  unfolding fill_entries
  fill_entries-Kept Keep m0 zero i n limit entries m clear kept = kept
  fill_entries-Kept Keep m0 (suc left) i n limit entries m clear kept =
      elim (Bool-cases (is_neg limit || leb (to_ℕ limit) n)) [
        | inl full ↦ rw (fill_entries, full) kept
        | inr room ↦
            rw (fill_entries, room)
              (fill_entries-Kept Keep m0 left (i + 1)
                (if is_zero (ops.get_file_info (pos i) entry (entry + 32) m).0 then n + 1 else n)
                limit entries (ops.get_file_info (pos i) entry (entry + 32) m).1 clear
                (λ a ka.
                  laws.info_frame i entry (entry + 32) m a (let c = clear a ka in ground arith)
                    (let c = clear a ka in ground arith)
                  ∙ kept a ka))
      ]
    where
      entry : ℕ
      entry = entries + n * file_info_size

  pub vfs_listdir-Kept :
      (Keep : ℕ → Type 0) (v : Vfs) (m : Memory) (path entries max_entries : ℕ)
      → find_fs v.mounts ≡ some ops
      → Clear Keep entries (to_ℕ (to_i32 max_entries) * file_info_size)
      → Kept Keep m (vfs_listdir v m path entries max_entries).1
  unfolding vfs_listdir listed
  vfs_listdir-Kept Keep v m path entries max_entries mounted clear a ka =
      rw (vfs_listdir, mounted, listed)
        (ground (
          arith,
          fill_entries-Kept Keep m (to_ℕ ops.get_file_count) 0 0 (to_i32 max_entries) entries m
              clear (λ b kb. refl) a ka,
        ))
