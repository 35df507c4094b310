-- ===== src/Boot/Kernel.antt =====
-- The kernel that VinixOS/bootloader/src/main.c loads, against the blocks of the card.
use mathlib.Core.Path.{subst}
use ref_arm_os.Base.{
  ◌==◌, if◌then◌else◌, Bool-cases, ◌>>=◌, ℕ, zero, suc, ◌+◌, ◌*◌, ◌^◌, ◌≤◌, ◌<◌, ◌≡◌, refl, ap, ◌∙◌,
  ◌⊎◌, inl, inr, true, false, Option, none, some, arith,
}
use ref_arm_os.Memory.{Memory, load32}
use ref_arm_os.Memory.Words.{load32-same}
use ref_arm_os.Boot.{
  Card, is_brr, is_error, is_done, wait_brr, wait_done, mmc_timeout, read_words, block_arg,
  read_sectors, mmc_read_sectors, kernel_base_addr, is_kernel, boot_kernel,
}
use ref_arm_os.Boot.Transfer.{Holds, read_words-Holds}

-- Transfer `t` ends in time and without an error.
pub record Prompt (card : Card) (t : ℕ) : Type 0 where
  pub turns : ℕ
  pub in_time : turns < mmc_timeout
  pub no_error : (k : ℕ) → k < turns → is_error (card.status t k) ≡ false
  pub brr : is_brr (card.ready t turns) ≡ true
  pub reads : ℕ
  pub done_in_time : reads < mmc_timeout
  pub done_at : is_done (card.finished t reads) ≡ true

module _ (ready status : ℕ → ℕ) where
  wait_brr_lem :
      (n t i : ℕ)
      → n < t
      → ((k : ℕ) → k < n → is_error (status (i + k)) ≡ false)
      → is_brr (ready (i + n)) ≡ true
      → wait_brr ready status t i ≡ true
  unfolding wait_brr
  wait_brr_lem n zero i h f e = absurd (omega arith)
  wait_brr_lem zero (suc t) i h f e =
      let now : is_brr (ready i) ≡ true = ap (λ x. is_brr (ready x)) (omega arith) ∙ e in
      rw (now) refl
  wait_brr_lem (suc n) (suc t) i h f e =
      let fine_now : is_error (status i) ≡ false =
        ap (λ x. is_error (status x)) (omega arith) ∙ f 0 (omega arith) in
      let time_left : (t == 0) ≡ false = ground arith in
      let later : wait_brr ready status t (i + 1) ≡ true =
        wait_brr_lem n t (i + 1) (omega arith)
          (λ k b. ap (λ x. is_error (status x)) (omega arith) ∙ f (suc k) (omega arith))
          (ap (λ x. is_brr (ready x)) (omega arith) ∙ e) in
      elim (Bool-cases (is_brr (ready i))) [
        | inl b ↦ rw (b) refl
        | inr b ↦ rw (b, fine_now, time_left) later
      ]

wait_done_lem :
    (finished : ℕ → ℕ) (n t i : ℕ)
    → n < t
    → is_done (finished (i + n)) ≡ true
    → wait_done finished t i ≡ true
unfolding wait_done
wait_done_lem finished n zero i h e = absurd (omega arith)
wait_done_lem finished zero (suc t) i h e =
    let now : is_done (finished i) ≡ true = ap (λ x. is_done (finished x)) (omega arith) ∙ e in
    rw (now) refl
wait_done_lem finished (suc n) (suc t) i h e =
    let time_left : (t == 0) ≡ false = ground arith in
    let later : wait_done finished t (i + 1) ≡ true =
      wait_done_lem finished n t (i + 1) (omega arith)
        (ap (λ x. is_done (finished x)) (omega arith) ∙ e) in
    elim (Bool-cases (is_done (finished i))) [
      | inl b ↦ rw (b) refl
      | inr b ↦ rw (b, time_left) later
    ]

-- The blocks of `count` sectors stand at `buf`, and the rest of memory is that of `m`.
abbrev pub Loaded : (word_of : ℕ → ℕ → ℕ) (count buf : ℕ) (m m' : Memory) → Type 0
Loaded word_of count buf m m' =
    ((i j : ℕ) → i < count → j < 128 → load32 m' (buf + 512 * i + 4 * j) ≡ word_of i j)
    × ((a : ℕ) → (a < buf) ⊎ (buf + 512 * count ≤ a) → m' a ≡ m a)

one_block :
    (words : ℕ → ℕ → ℕ) (n buf : ℕ) (m m₁ m' : Memory)
    → Holds (words 0) 128 0 buf m m₁
    → Loaded (λ i. words (suc i)) n (buf + 512) m₁ m'
    → Loaded words (suc n) buf m m'
one_block words n buf m m₁ m' (cells, apart) (blocks, rest) = (all_blocks, all_rest)
  where
    all_blocks : (i j : ℕ) → i < suc n → j < 128 → load32 m' (buf + 512 * i + 4 * j) ≡ words i j
    all_blocks zero j h l =
        let here : buf + 512 * 0 + 4 * j ≡ buf + 4 * j = omega arith in
        ap (load32 m') here
        ∙ load32-same m₁ m' (buf + 4 * j) (λ b lo hi. rest b (inl (omega arith)))
        ∙ cells j l
        ∙ ap (words 0) (omega arith)
    all_blocks (suc i) j h l =
        let here : buf + 512 * suc i + 4 * j ≡ buf + 512 + 512 * i + 4 * j = omega arith in
        ap (load32 m') here ∙ blocks i j (omega arith) l

    all_rest : (a : ℕ) → (a < buf) ⊎ (buf + 512 * suc n ≤ a) → m' a ≡ m a
    all_rest a (inl x) = rest a (inl (omega arith)) ∙ apart a (inl x)
    all_rest a (inr x) = rest a (inr (omega arith)) ∙ apart a (inr (omega arith))

-- word `j` of the block that transfer `t + i` asks for
abbrev pub asked : Card → (start t : ℕ) → ℕ → ℕ → ℕ
asked card start t i j = card.block (block_arg card (start + (t + i))) j

Loaded-same :
    (v w : ℕ → ℕ → ℕ) (n buf : ℕ) (m m' : Memory)
    → ((i j : ℕ) → i < n → v i j ≡ w i j)
    → Loaded v n buf m m'
    → Loaded w n buf m m'
Loaded-same v w n buf m m' e (blocks, rest) = ((λ i j h l. blocks i j h l ∙ e i j h), rest)

Prompt-moved : (card : Card) (s t : ℕ) → s ≡ t → Prompt card s → Prompt card t
Prompt-moved card s t e p = subst (Prompt card) e p

Prompt-waits :
    (card : Card) (t : ℕ)
    → Prompt card t
    → (wait_brr (card.ready t) (card.status t) mmc_timeout 0 ≡ true)
      × (wait_done (card.finished t) mmc_timeout 0 ≡ true)
Prompt-waits card t p = (
  wait_brr_lem (card.ready t) (card.status t) p.turns mmc_timeout 0 p.in_time
      (λ k b. ap (λ x. is_error (card.status t x)) (omega arith) ∙ p.no_error k b)
      (ap (λ x. is_brr (card.ready t x)) (omega arith) ∙ p.brr),
  wait_done_lem (card.finished t) p.reads mmc_timeout 0 p.done_in_time
      (ap (λ x. is_done (card.finished t x)) (omega arith) ∙ p.done_at),
)

read_sectors-Loaded :
    (card : Card) (count t start buf : ℕ) (m : Memory)
    → ((arg j : ℕ) → card.block arg j < 2 ^ 32)
    → ((i : ℕ) → i < count → Prompt card (t + i))
    → (m' : Memory) × (read_sectors card count t start buf m ≡ some m')
      × Loaded (asked card start t) count buf m m'
unfolding read_sectors
read_sectors-Loaded card zero t start buf m w p =
    (m, refl, ((λ i j h. absurd (omega arith)), (λ a o. refl)))
read_sectors-Loaded card (suc n) t start buf m w p =
    let words : ℕ → ℕ = card.block (block_arg card (start + t)) in
    let m₁ : Memory = read_words words 128 0 buf m in
    let (brr, ended) =
      Prompt-waits card t (Prompt-moved card (t + 0) t (omega arith) (p 0 (omega arith))) in
    let (m', e, loaded) =
      read_sectors-Loaded card n (t + 1) start (buf + 512) m₁ w (λ i h.
        Prompt-moved card (t + suc i) (t + 1 + i) (omega arith) (p (suc i) (omega arith))) in
    let first : words ≡ asked card start t 0 =
      ap (λ x. card.block (block_arg card (start + x))) (omega arith) in
    let later : Loaded (λ i. asked card start t (suc i)) n (buf + 512) m₁ m' =
      Loaded-same (asked card start (t + 1)) (λ i. asked card start t (suc i)) n (buf + 512) m₁ m'
        (λ i j h. ap (λ x. card.block (block_arg card (start + x)) j) (omega arith)) loaded in
    (
      m',
      rw (brr, ended) e,
      one_block (asked card start t) n buf m m₁ m'
          (subst (λ f. Holds f 128 0 buf m m₁) first
            (read_words-Holds words 128 0 buf m (λ i. w (block_arg card (start + t)) i)))
          later,
    )

-- word `j` of sector `s`: a card of high capacity is addressed by the sector, another one by the byte
abbrev pub sector_word : Card → (s j : ℕ) → ℕ
sector_word card s j = card.block (if card.sdhc_card then s else s * 512) j

kernel_arg :
    (card : Card) (i : ℕ)
    → i < 2048
    → block_arg card (2048 + (0 + i)) ≡ (if card.sdhc_card then 2048 + i else (2048 + i) * 512)
unfolding block_arg
kernel_arg card i h = elim (Bool-cases card.sdhc_card) [
  | inl e ↦ rw (e) (omega arith)
  | inr e ↦ rw (e) (omega arith)
]

-- the load of the kernel, by the words of its sectors
load_kernel :
    (card : Card) (m : Memory)
    → ((arg j : ℕ) → card.block arg j < 2 ^ 32)
    → ((t : ℕ) → t < 2048 → Prompt card t)
    → (m' : Memory) × (mmc_read_sectors card 2048 2048 0x80000000 m ≡ some m')
      × Loaded (λ i j. sector_word card (2048 + i) j) 2048 0x80000000 m m'
unfolding mmc_read_sectors
load_kernel card m w p =
    let (m', e, loaded) =
      read_sectors-Loaded card 2048 0 2048 0x80000000 m w
        (λ i h. Prompt-moved card i (0 + i) (omega arith) (p i h)) in
    (
      m',
      e,
      Loaded-same (asked card 2048 0) (λ i j. sector_word card (2048 + i) j) 2048 0x80000000 m m'
          (λ i j h. ap (λ x. card.block x j) (kernel_arg card i h)) loaded,
    )

-- the check of the header, on memory that was loaded
checked : Memory → Option Memory
checked m = if is_kernel (load32 m kernel_base_addr) then some m else none

checked-pass : (m : Memory) → is_kernel (load32 m 0x80000000) ≡ true → checked m ≡ some m
unfolding checked
checked-pass m e = ap (λ b. if b then some m else none) e

checked-fail : (m : Memory) → is_kernel (load32 m 0x80000000) ≡ false → checked m ≡ none
unfolding checked
checked-fail m e = ap (λ b. if b then some m else none) e

boot_kernel-checked :
    (card : Card) (m : Memory)
    → boot_kernel card m ≡ (mmc_read_sectors card 2048 2048 0x80000000 m >>= checked)
unfolding boot_kernel checked
boot_kernel-checked card m = refl

-- For a card whose transfers all end in time without an error and give words of 32 bits, of either
-- addressing: when word 0 of sector 2048 is a branch or a load of the program counter, the boot loader
-- gets to the jump, with word `j` of sector 2048 + i at 0x80000000 + 512 * i + 4 * j for all 2048
-- sectors and with no other byte changed; when it is not, the boot loader panics.
pub boot_kernel-Loaded :
    (card : Card) (m : Memory)
    → ((arg j : ℕ) → card.block arg j < 2 ^ 32)
    → ((t : ℕ) → t < 2048 → Prompt card t)
    → ((is_kernel (sector_word card 2048 0) ≡ true)
        × (m' : Memory) × (boot_kernel card m ≡ some m')
        × Loaded (λ i j. sector_word card (2048 + i) j) 2048 0x80000000 m m')
      ⊎ ((is_kernel (sector_word card 2048 0) ≡ false) × (boot_kernel card m ≡ none))
boot_kernel-Loaded card m w p =
    let (m', e, (blocks, rest)) = load_kernel card m w p in
    let run : boot_kernel card m ≡ checked m' =
      boot_kernel-checked card m ∙ ap (λ x. x >>= checked) e in
    let first : is_kernel (load32 m' 0x80000000) ≡ is_kernel (sector_word card 2048 0) =
      ap is_kernel (blocks 0 0 (omega arith) (omega arith)) in
    elim (Bool-cases (is_kernel (sector_word card 2048 0))) [
      | inl ok ↦ inl (ok, m', run ∙ checked-pass m' (first ∙ ok), (blocks, rest))
      | inr bad ↦ inr (bad, run ∙ checked-fail m' (first ∙ bad))
    ]
