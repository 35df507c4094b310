-- ===== src/Board/Rules.antt =====
-- What holds of a boot loader program whatever the hardware answers: a monitor watches the accesses of
-- a run, and says which are allowed and which answers are possible.
use ref_arm_os.Base.{
  ◌==◌, if◌then◌else◌, Bool-cases, ℕ, zero, suc, ◌≡◌, refl, inl, inr, Bool, true, false, Option,
  none, some,
}
use ref_arm_os.Board.{Prog, done, stop, reading, writing, await, ◌>>=◌, poll, poll_briefly}

-- An access: the address and the word that was read, or the word that is written and the address.
pub data Access : Type 0 where
  read : (a v : ℕ) → Access
  wrote : (v a : ℕ) → Access

-- `step` is the state after an access, or `none` for an access that is forbidden.
pub record Monitor (S : Type 0) : Type 1 where
  pub possible : S → (a v : ℕ) → Type 0
  pub step : S → Access → Option S

abbrev pub After : {S : Type 0} → Option S → (S → Type 0) → Type 0
After none P = ⊥
After (some s) P = P s

-- In no run of the program from the state `s` is an access forbidden, and when the program comes back
-- its result and the state meet `Q`. The reads that an `await` makes before the one that ends it
-- leave the state alone.
abbrev pub AllRuns : {S A : Type 0} → Monitor S → Prog A → (A → S → Type 0) → S → Type 0
AllRuns m (done a) Q s = Q a s
AllRuns m stop Q s = Unit {0}
AllRuns m (reading a k) Q s =
    (v : ℕ) → m.possible s a v → After (m.step s (read a v)) (AllRuns m (k v) Q)
AllRuns m (writing v a p) Q s = After (m.step s (wrote v a)) (AllRuns m p Q)
AllRuns m (await a ready p) Q s =
    ((v : ℕ) → m.possible s a v → ready v ≡ false → m.step s (read a v) ≡ some s)
    × ((v : ℕ) → m.possible s a v → ready v ≡ true → After (m.step s (read a v)) (AllRuns m p Q))

pub record Allowed {S A : Type 0} (m : Monitor S) (p : Prog A) (Q : A → S → Type 0) (s : S)
    : Type 0 where
  pub runs : AllRuns m p Q s

After-mono :
    {S : Type 0} (o : Option S) (P Q : S → Type 0) → ((s : S) → P s → Q s) → After o P → After o Q
After-mono none P Q w h = h
After-mono (some s) P Q w h = w s h

-- A step that is not forbidden.
abbrev opened :
    {S A : Type 0} (m : Monitor S) (p : Prog A) (Q : A → S → Type 0) (o : Option S)
    → After o (Allowed m p Q)
    → After o (AllRuns m p Q)
opened m p Q o h = After-mono o _ _ (λ s x. x.runs) h

-- One rule for each way to build a program; what the goal shows is implicit.
module _ {S A : Type 0} {m : Monitor S} {Q : A → S → Type 0} {s : S} where
  pub by_done : {a : A} → Q a s → Allowed m (done a) Q s
  by_done h = record { runs = h }

  pub by_stop : Allowed m stop Q s
  by_stop = record { runs = tt }

  pub by_read :
      {a : ℕ} {k : ℕ → Prog A}
      → ((v : ℕ) → m.possible s a v → After (m.step s (read a v)) (Allowed m (k v) Q))
      → Allowed m (reading a k) Q s
  by_read {a} {k} h = record {
    runs = λ v possible. opened m (k v) Q (m.step s (read a v)) (h v possible);
  }

  pub by_write :
      {v a : ℕ} {p : Prog A}
      → After (m.step s (wrote v a)) (Allowed m p Q)
      → Allowed m (writing v a p) Q s
  by_write {v} {a} {p} h = record { runs = opened m p Q (m.step s (wrote v a)) h }

  pub by_wait :
      {a : ℕ} {ready : ℕ → Bool} {p : Prog A}
      → ((v : ℕ) → m.possible s a v → ready v ≡ false → m.step s (read a v) ≡ some s)
      → ((v : ℕ) → m.possible s a v → ready v ≡ true → After (m.step s (read a v)) (Allowed m p Q))
      → Allowed m (await a ready p) Q s
  by_wait {a} {p = p} still ends = record {
    runs = (still, λ v possible e. opened m p Q (m.step s (read a v)) (ends v possible e));
  }

  pub by_if :
      (b : Bool) {p q : Prog A}
      → (b ≡ true → Allowed m p Q s)
      → (b ≡ false → Allowed m q Q s)
      → Allowed m (if b then p else q) Q s
  by_if true hp hq = hp refl
  by_if false hp hq = hq refl

module _ {S A : Type 0} (m : Monitor S) where
  AllRuns-mono :
      (p : Prog A) (P Q : A → S → Type 0) (s : S)
      → ((a : A) (s' : S) → P a s' → Q a s')
      → AllRuns m p P s
      → AllRuns m p Q s
  AllRuns-mono (done a) P Q s w h = w a s h
  AllRuns-mono stop P Q s w h = h
  AllRuns-mono (reading a k) P Q s w h = λ v possible.
      After-mono (m.step s (read a v)) _ _ (λ s' h'. AllRuns-mono (k v) P Q s' w h') (h v possible)
  AllRuns-mono (writing v a p) P Q s w h =
      After-mono (m.step s (wrote v a)) _ _ (λ s' h'. AllRuns-mono p P Q s' w h') h
  AllRuns-mono (await a ready p) P Q s w (still, next) = (
    still,
    λ v possible e.
        After-mono (m.step s (read a v)) _ _ (λ s' h'. AllRuns-mono p P Q s' w h')
          (next v possible e),
  )

module _ {S A B : Type 0} (m : Monitor S) where
  bind_lem :
      (p : Prog A) (f : A → Prog B) (Q : B → S → Type 0) (s : S)
      → AllRuns m p (λ a. AllRuns m (f a) Q) s
      → AllRuns m (p >>= f) Q s
  bind_lem (done a) f Q s h = h
  bind_lem stop f Q s h = h
  bind_lem (reading a k) f Q s h = λ v possible.
      After-mono (m.step s (read a v)) _ _ (λ s' h'. bind_lem (k v) f Q s' h') (h v possible)
  bind_lem (writing v a p) f Q s h =
      After-mono (m.step s (wrote v a)) _ _ (λ s' h'. bind_lem p f Q s' h') h
  bind_lem (await a ready p) f Q s (still, next) = (
    still,
    λ v possible e.
        After-mono (m.step s (read a v)) _ _ (λ s' h'. bind_lem p f Q s' h') (next v possible e),
  )

module _ {S A B : Type 0} {m : Monitor S} where
  pub by_bind :
      (p : Prog A) {f : A → Prog B} {Q : B → S → Type 0} {s : S}
      → Allowed m p (λ a. Allowed m (f a) Q) s
      → Allowed m (p >>= f) Q s
  by_bind p {f} {Q} {s} h = record {
    runs = bind_lem m p f Q s (
        AllRuns-mono m p (λ a. Allowed m (f a) Q) (λ a. AllRuns m (f a) Q) s (λ a s' x. x.runs)
          h.runs);
  }

-- nothing is left to do after a step
abbrev finish :
    {S A : Type 0} (m : Monitor S) (a : A) (Q : A → S → Type 0) (o : Option S)
    → After o (Q a)
    → After o (Allowed m (done a) Q)
finish m a Q o h = After-mono o _ _ (λ s x. by_done x) h

-- the reads of a wait that are not the last one
abbrev pub Still : {S : Type 0} → Monitor S → S → ℕ → (ℕ → Bool) → Type 0
Still m s a ready = (v : ℕ) → m.possible s a v → ready v ≡ false → m.step s (read a v) ≡ some s

-- what is left to show for the last one
abbrev pub Ends : {S : Type 0} → Monitor S → S → ℕ → (ℕ → Bool) → (S → Type 0) → Type 0
Ends m s a ready P = (v : ℕ) → m.possible s a v → ready v ≡ true → After (m.step s (read a v)) P

module _ {S : Type 0} {m : Monitor S} {s : S} (a : ℕ) (ready : ℕ → Bool) where
  pub by_poll :
      (t : ℕ) {Q : Bool → S → Type 0}
      → Still m s a ready
      → Ends m s a ready (Q true)
      → Q false s
      → Allowed m (poll a ready t) Q s
  unfolding poll
  by_poll zero still ends late = by_done late
  by_poll (suc t) {Q} still ends late = by_read λ v possible. elim (Bool-cases (ready v)) [
    | inl e ↦ rw (e) (finish m true Q (m.step s (read a v)) (ends v possible e))
    | inr e ↦
        rw (e, still v possible e)
          (by_if (t == 0) (λ _. by_done late) (λ _. by_poll t still ends late))
  ]

  -- a register that cannot but be ready
  pub by_poll_prompt :
      (t : ℕ) {Q : Bool → S → Type 0}
      → ((v : ℕ) → m.possible s a v → ready v ≡ true)
      → Ends m s a ready (Q true)
      → Allowed m (poll a ready (suc t)) Q s
  unfolding poll
  by_poll_prompt t {Q} prompt ends = by_read λ v possible.
      rw (prompt v possible)
        (finish m true Q (m.step s (read a v)) (ends v possible (prompt v possible)))

  pub by_poll_briefly :
      (n : ℕ) {Q : Unit {0} → S → Type 0}
      → Still m s a ready
      → Ends m s a ready (Q tt)
      → Q tt s
      → Allowed m (poll_briefly a ready n) Q s
  unfolding poll_briefly
  by_poll_briefly zero still ends late = by_done late
  by_poll_briefly (suc n) {Q} still ends late = by_read λ v possible. elim (Bool-cases (ready v)) [
    | inl e ↦ rw (e) (finish m tt Q (m.step s (read a v)) (ends v possible e))
    | inr e ↦ rw (e, still v possible e) (by_poll_briefly n still ends late)
  ]
