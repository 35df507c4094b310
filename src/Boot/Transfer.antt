-- ===== src/Boot/Transfer.antt =====
-- What a transfer of VinixOS/bootloader/src/mmc.c leaves in memory.
use ref_arm_os.Base.{
  ℕ, zero, suc, ◌+◌, ◌*◌, ◌^◌, ◌≤◌, ◌<◌, ◌≡◌, refl, ap, ◌∙◌, ◌⊎◌, inl, inr, arith,
}
use ref_arm_os.Memory.{Memory, store32, load32}
use ref_arm_os.Memory.Words.{store32-apart, load32-store32, load32-same}
use ref_arm_os.Boot.{read_words}

-- `n` words from word `j` on stand at `buf`, and the rest of memory is that of `m`.
abbrev pub Holds : (words : ℕ → ℕ) (n j buf : ℕ) (m m' : Memory) → Type 0
Holds words n j buf m m' =
    ((i : ℕ) → i < n → load32 m' (buf + 4 * i) ≡ words (j + i))
    × ((a : ℕ) → (a < buf) ⊎ (buf + 4 * n ≤ a) → m' a ≡ m a)

first-Holds :
    (words : ℕ → ℕ) (n j buf : ℕ) (m m' : Memory)
    → ((i : ℕ) → words i < 2 ^ 32)
    → Holds words n (j + 1) (buf + 4) (store32 m buf (words j)) m'
    → Holds words (suc n) j buf m m'
first-Holds words n j buf m m' w (cells, apart) = (all_cells, λ a o. rest a o)
  where
    at_first : load32 m' buf ≡ words j
    at_first =
        load32-same (store32 m buf (words j)) m' buf (λ b lo hi. apart b (inl (omega arith)))
        ∙ load32-store32 m buf (words j) (w j)

    all_cells : (i : ℕ) → i < suc n → load32 m' (buf + 4 * i) ≡ words (j + i)
    all_cells zero h =
        let here : buf + 4 * 0 ≡ buf = omega arith in
        let same : j ≡ j + 0 = omega arith in ap (load32 m') here ∙ at_first ∙ ap words same
    all_cells (suc i) h =
        let here : buf + 4 * suc i ≡ buf + 4 + 4 * i = omega arith in
        let same : j + 1 + i ≡ j + suc i = omega arith in
        ap (load32 m') here ∙ cells i (omega arith) ∙ ap words same

    rest : (a : ℕ) → (a < buf) ⊎ (buf + 4 * suc n ≤ a) → m' a ≡ m a
    rest a (inl x) = apart a (inl (omega arith)) ∙ store32-apart m buf (words j) a (inl x)
    rest a (inr x) =
        apart a (inr (omega arith)) ∙ store32-apart m buf (words j) a (inr (omega arith))

pub read_words-Holds :
    (words : ℕ → ℕ) (n j buf : ℕ) (m : Memory)
    → ((i : ℕ) → words i < 2 ^ 32)
    → Holds words n j buf m (read_words words n j buf m)
unfolding read_words
read_words-Holds words zero j buf m w = ((λ i h. absurd (omega arith)), λ a o. refl)
read_words-Holds words (suc n) j buf m w =
    first-Holds words n j buf m _ w
      (read_words-Holds words n (j + 1) (buf + 4) (store32 m buf (words j)) w)
