-- ===== src/Boot/MemoryTest.antt =====
-- The memory test of VinixOS/bootloader/src/ddr.c on a memory that keeps what is written.
use ref_arm_os.Base.{
  ◌==◌, if◌then◌else◌, Bool-cases, ℤ, pos, negsuc, is_neg, ℕ, zero, suc, ◌+◌, ◌*◌, ◌<◌, ◌≡◌, refl,
  sym, ap, ◌∙◌, ◌≢◌, inl, inr, Bool, true, false, arith,
}
use ref_arm_os.Boot.{Ram, ddr_base, ddr_fill, ddr_verify, ddr_test}

-- A word reads as it was written last, and a write changes no other word.
pub record RamLaws {R : Type 0} (ram : Ram R) : Type 0 where
  pub read_written : (a v : ℕ) (r : R) → ram.read a (ram.write a v r) ≡ v
  pub read_other : (a b v : ℕ) (r : R) → a ≢ b → ram.read b (ram.write a v r) ≡ ram.read b r

module _ {R : Type 0} (ram : Ram R) (laws : RamLaws ram) where
  fill_other :
      (p n i a : ℕ) (r : R)
      → a < ddr_base + 4 * i
      → ram.read a (ddr_fill ram p n i r) ≡ ram.read a r
  unfolding ddr_fill
  fill_other p zero i a r h = refl
  fill_other p (suc n) i a r h =
      fill_other p n (i + 1) a (ram.write (ddr_base + 4 * i) p r) (omega arith)
      ∙ laws.read_other (ddr_base + 4 * i) a p r (ground arith)

  verify-fill : (p n i : ℕ) (r : R) → ddr_verify ram p n i (ddr_fill ram p n i r) ≡ true
  unfolding ddr_verify ddr_fill
  verify-fill p zero i r = refl
  verify-fill p (suc n) i r =
      let w : R = ram.write (ddr_base + 4 * i) p r in
      let here : ram.read (ddr_base + 4 * i) (ddr_fill ram p n (i + 1) w) ≡ p =
        fill_other p n (i + 1) (ddr_base + 4 * i) w (omega arith)
        ∙ laws.read_written (ddr_base + 4 * i) p r in
      let same : (ram.read (ddr_base + 4 * i) (ddr_fill ram p n (i + 1) w) == p) ≡ true =
        ground arith in
      rw (same) (verify-fill p n (i + 1) w)

  -- On every memory that meets the laws, from any content, the test answers 0.
  pub ddr_test-passes : (r : R) → (ddr_test ram r).0 ≡ pos 0
  unfolding ddr_test
  ddr_test-passes r =
      rw
        (
          verify-fill 0xAA55AA55 1024 0 r,
          verify-fill 0x55AA55AA 1024 0 (ddr_fill ram 0xAA55AA55 1024 0 r),
        )
        refl

module _ {R : Type 0} (ram : Ram R) (p : ℕ) (r : R) where
  -- a verification that goes well has read the pattern at each of its words
  verify_each :
      (n i : ℕ)
      → ddr_verify ram p n i r ≡ true
      → (k : ℕ) → k < n
      → ram.read (ddr_base + 4 * (i + k)) r ≡ p
  unfolding ddr_verify
  verify_each zero i e k h = absurd (omega arith)
  verify_each (suc n) i e k h = elim (Bool-cases (ram.read (ddr_base + 4 * i) r == p)) [
    | inr bad ↦ absurd (ground arith)
    | inl ok ↦ by_index k h ok (ground arith) (verify_each n (i + 1))
  ]
    where
      by_index :
          (j : ℕ)
          → j < suc n
          → (ram.read (ddr_base + 4 * i) r == p) ≡ true
          → ddr_verify ram p n (i + 1) r ≡ true
          → (ddr_verify ram p n (i + 1) r ≡ true
              → (l : ℕ) → l < n
              → ram.read (ddr_base + 4 * (i + 1 + l)) r ≡ p)
          → ram.read (ddr_base + 4 * (i + j)) r ≡ p
      by_index zero b ok rest later =
          let here : i + 0 ≡ i = omega arith in
          ap (λ x. ram.read (ddr_base + 4 * x) r) here ∙ ground arith
      by_index (suc j) b ok rest later =
          let there : i + suc j ≡ i + 1 + j = omega arith in
          ap (λ x. ram.read (ddr_base + 4 * x) r) there ∙ later rest j (omega arith)

failed : negsuc 0 ≡ pos 0 → ⊥
failed e = let clash : true ≡ false = ap is_neg e in ground arith

-- the verdict of the test, from its two verifications
verdict :
    {R : Type 0} (x y : Bool) (r1 r2 : R) (out : ℤ × R)
    → out ≡ (if x then (if y then (pos 0, r2) else (negsuc 0, r2)) else (negsuc 0, r1))
    → out.0 ≡ pos 0
    → (x ≡ true) × (y ≡ true) × (out.1 ≡ r2)
verdict true true r1 r2 out d e = (refl, refl, ap (λ o. o.1) d)
verdict true false r1 r2 out d e = absurd (failed (sym (ap (λ o. o.0) d) ∙ e))
verdict false y r1 r2 out d e = absurd (failed (sym (ap (λ o. o.0) d) ∙ e))

-- On every memory, whether it keeps what is written or not, a test that answers 0 has read the first
-- pattern at each of the 1024 words after the first fill, and the second at each after the second.
pub ddr_test-Reads :
    {R : Type 0} (ram : Ram R) (r : R) (k : ℕ)
    → (ddr_test ram r).0 ≡ pos 0
    → k < 1024
    → (ram.read (ddr_base + 4 * (0 + k)) (ddr_fill ram 0xAA55AA55 1024 0 r) ≡ 0xAA55AA55)
      × (ram.read (ddr_base + 4 * (0 + k)) (ddr_test ram r).1 ≡ 0x55AA55AA)
unfolding ddr_test
ddr_test-Reads ram r k e h =
    let r1 = ddr_fill ram 0xAA55AA55 1024 0 r in
    let r2 = ddr_fill ram 0x55AA55AA 1024 0 r1 in
    let (first, second, at_end) =
      verdict (ddr_verify ram 0xAA55AA55 1024 0 r1) (ddr_verify ram 0x55AA55AA 1024 0 r2) r1 r2
        (ddr_test ram r) refl e in
    (
      verify_each ram 0xAA55AA55 r1 1024 0 first k h,
      ap (ram.read (ddr_base + 4 * (0 + k))) at_end
          ∙ verify_each ram 0x55AA55AA r2 1024 0 second k h,
    )
