-- ===== src/Loader/Serial.antt =====
-- What the serial port of VinixOS/bootloader/src/uart.c is set to, and what it sends.
use mathlib.Core.List.{append_assoc, append-nil}
use mathlib.Core.Path.{subst}
use native.Mathlib.Nat.{div-div-eq-div-mul}
use ref_arm_os.Base.{
  ltb, ◌==◌, if◌then◌else◌, length, codes, bit_and_nibble, ℕ, zero, suc, ◌+◌, ◌-◌, ◌*◌, ◌/◌, ◌%◌,
  ◌^◌, ◌≤◌, ◌<◌, ◌≡◌, refl, sym, ap, ◌∙◌, Bool, true, false, Option, none, some, List, [], ◌∷◌,
  ◌++◌, arith,
}
use ref_arm_os.Board.{Prog, ◌>>◌, any_of}
use ref_arm_os.Board.Registers.{
  uart0_thr, uart0_dlh, uart0_fcr, uart0_lcr, uart0_mdr1, uart_lsr_rxfifoe,
}
use ref_arm_os.Board.Rules.{
  Access, Monitor, Allowed, read, wrote, by_done, by_read, by_write, by_wait, by_if, by_bind,
}
use ref_arm_os.Print
use ref_arm_os.Loader.Uart.{
  drain_rx, uart_init, put_plain, uart_putc, uart_puts, hex_digits, put_nibbles, uart_print_hex,
}

-- The registers that the set-up writes, and the bytes that were sent.
pub record Serial : Type 0 where
  pub lcr : ℕ
  pub mdr1 : ℕ
  pub dll : ℕ
  pub dlh : ℕ
  pub sent : List ℕ

-- Bit 7 of LCR puts the divisor latches at the addresses of THR and IER.
abbrev latched : Serial → Bool
latched s = any_of 0x80 s.lcr

-- the mode: 7 is disabled, 0 is oversampling by 16
abbrev with_mode : ℕ → Serial → Serial → Option Serial
with_mode mode s t = if s.mdr1 == mode then some t else none

unfoldable pub serial_step : Serial → Access → Option Serial
serial_step s (read a v) = some s
serial_step s (wrote v a) =
    if a == uart0_thr
    then (if latched s
        then with_mode 7 s (record s { dll = v })
        else with_mode 0 s (record s { sent = s.sent ++ (v ∷ []) }))
    else if a == uart0_dlh
    then (if latched s then with_mode 7 s (record s { dlh = v }) else none)
    else if a == uart0_lcr
    then some (record s { lcr = v })
    else if a == uart0_mdr1
    then some (record s { mdr1 = v })
    else if a == uart0_fcr
    then some s
    else none

-- The divisor may be written only while the port is disabled, a byte may be sent only while it is
-- enabled, and the interrupts are left alone.
abbrev pub serial : Monitor Serial
serial = record { possible = λ s a v. v < 2 ^ 32; step = serial_step }

-- 8 bits, no parity, one stop bit, and the divisor 26, with these bytes sent
abbrev pub open_port : List ℕ → Serial
open_port out = record { lcr = 3; mdr1 = 0; dll = 26; dlh = 0; sent = out }

drain_rx_rule :
    (n : ℕ) {Q : Unit {0} → Serial → Type 0} {s : Serial} → Q tt s → Allowed serial (drain_rx n) Q s
unfolding drain_rx serial_step
drain_rx_rule zero next = by_done next
drain_rx_rule (suc n) next = by_read λ v h.
    by_if (any_of uart_lsr_rxfifoe v) (λ _. by_read λ w l. drain_rx_rule n next) (λ _. by_done next)

-- From any state of the port: the divisor is written only while the port is disabled, no byte is sent
-- meanwhile and no other register is written, and at the end the port is enabled with 8 bits, no
-- parity, one stop bit and the divisor 26, which is within 0.2 % of 115200 baud at 48 MHz.
pub uart_init-Set :
    (s : Serial)
    → Allowed serial uart_init
        (λ r t.
          (t ≡ open_port s.sent)
          × (16 * 115200 * (t.dll + 256 * t.dlh) ≤ 48000000)
          × (500 * 48000000 ≤ 501 * (16 * 115200 * (t.dll + 256 * t.dlh))))
        s
unfolding uart_init serial_step
uart_init-Set s = by_write (
    by_write (
      by_bind (drain_rx 16) (
        drain_rx_rule 16 (
          by_write (
            by_write (
              by_write (
                by_write (
                  by_write (
                    by_write (
                      by_wait (λ v h e. refl)
                        (λ v h e. by_done (refl, omega arith, omega arith))))))))))))

put_plain_rule :
    (c : ℕ) {A : Type 0} {p : Prog A} {Q : A → Serial → Type 0} {out : List ℕ}
    → Allowed serial p Q (open_port (out ++ (c ∷ [])))
    → Allowed serial (put_plain c >> p) Q (open_port out)
unfolding serial_step
put_plain_rule c next =
    by_wait (λ v h e. refl) λ v h e. by_write (by_wait (λ w l f. refl) λ w l f. next)

-- the bytes of a character
abbrev wire : ℕ → List ℕ
wire c = if c == 10 then 13 ∷ c ∷ [] else c ∷ []

putc_rule :
    (c : ℕ) {Q : Unit {0} → Serial → Type 0} {out : List ℕ}
    → Q tt (open_port (out ++ wire c))
    → Allowed serial (uart_putc c) Q (open_port out)
unfolding uart_putc
putc_rule c {Q} {out} next =
    by_if (c == 10)
      (λ e.
        put_plain_rule 13
          (put_plain_rule c (by_done (subst (λ x. Q tt (open_port x)) (both_sent e) next))))
      (λ e. put_plain_rule c (by_done (subst (λ x. Q tt (open_port x)) (one_sent e) next)))
  where
    both_sent : (c == 10) ≡ true → out ++ wire c ≡ (out ++ (13 ∷ [])) ++ (c ∷ [])
    both_sent e = rw (e) (sym (append_assoc out (13 ∷ []) (c ∷ [])))

    one_sent : (c == 10) ≡ false → out ++ wire c ≡ out ++ (c ∷ [])
    one_sent e = rw (e) refl

puts_rule :
    (str : List ℕ) {Q : Unit {0} → Serial → Type 0} {out : List ℕ}
    → Q tt (open_port (out ++ Print.uart_puts str))
    → Allowed serial (uart_puts str) Q (open_port out)
unfolding uart_puts Print.uart_puts
puts_rule [] {Q} {out} next = by_done (subst (λ x. Q tt (open_port x)) (append-nil out) next)
puts_rule (c ∷ str) {Q} {out} next = by_bind (uart_putc c) (
    putc_rule c (
      puts_rule str (
        subst (λ x. Q tt (open_port x)) (sym (append_assoc out (wire c) (Print.uart_puts str)))
          next)))

-- For every string and everything sent before: on a port that is set up, the boot loader's `uart_puts`
-- adds the bytes that the kernel's `uart_puts` sends for the same string, and changes no register.
pub uart_puts-Kernel :
    (str out : List ℕ)
    → Allowed serial
        (uart_puts str)
        (λ r t. t ≡ open_port (out ++ Print.uart_puts str))
        (open_port out)
uart_puts-Kernel str out = puts_rule str refl

-- the digits of `uart_print_hex`, and what they read as
abbrev hex_value : ℕ → ℕ
hex_value c = if ltb c 58 then c - 48 else c - 55

abbrev pub upper_value : ℕ → List ℕ → ℕ
upper_value acc [] = acc
upper_value acc (c ∷ cs) = upper_value (16 * acc + hex_value c) cs

nibbles : (n val : ℕ) → List ℕ
nibbles zero val = []
nibbles (suc n) val = hex_digits (val / 2 ^ (4 * n) % 16) ∷ nibbles n val

length-nibbles : (n val : ℕ) → length (nibbles n val) ≡ n
unfolding nibbles
length-nibbles zero val = refl
length-nibbles (suc n) val = ap suc (length-nibbles n val)

nibble_value : (d : ℕ) → d < 16 → (hex_value (hex_digits d) ≡ d) × ((hex_digits d == 10) ≡ false)
nibble_value d h = ground arith

sixteen : (k m : ℕ) → m ≡ suc (suc (suc (suc k))) → 2 ^ m ≡ 2 ^ k * 16
sixteen k m e =
    let power : 2 ^ suc (suc (suc (suc k))) ≡ 2 ^ k * 16 = omega arith in ap (λ x. 2 ^ x) e ∙ power

shifted : (val n : ℕ) → val / 2 ^ (4 * suc n) ≡ val / 2 ^ (4 * n) / 16
shifted val n =
    let power : 2 ^ (4 * suc n) ≡ 2 ^ (4 * n) * 16 = sixteen (4 * n) (4 * suc n) (omega arith) in
    ap (λ x. val / x) power ∙ sym (div-div-eq-div-mul val (2 ^ (4 * n)) 16)

value-nibbles : (n val : ℕ) → upper_value (val / 2 ^ (4 * n)) (nibbles n val) ≡ val
unfolding nibbles
value-nibbles zero val = omega arith
value-nibbles (suc n) val =
    let x : ℕ = val / 2 ^ (4 * n) in
    let digit : hex_value (hex_digits (x % 16)) ≡ x % 16 =
      (nibble_value (x % 16) (omega arith)).0 in
    let total : 16 * (val / 2 ^ (4 * suc n)) + hex_value (hex_digits (x % 16)) ≡ x =
      ap (λ y. 16 * y + hex_value (hex_digits (x % 16))) (shifted val n)
      ∙ ap (λ y. 16 * (x / 16) + y) digit
      ∙ omega arith in
    ap (λ y. upper_value y (nibbles n val)) total ∙ value-nibbles n val

nibbles_rule :
    (n val : ℕ) {Q : Unit {0} → Serial → Type 0} {out : List ℕ}
    → Q tt (open_port (out ++ nibbles n val))
    → Allowed serial (put_nibbles n val) Q (open_port out)
unfolding put_nibbles nibbles
nibbles_rule zero val {Q} {out} next =
    by_done (subst (λ x. Q tt (open_port x)) (append-nil out) next)
nibbles_rule (suc n) val {Q} {out} next =
    let c : ℕ = hex_digits (val / 2 ^ (4 * n) % 16) in
    let plain : (c == 10) ≡ false = (nibble_value (val / 2 ^ (4 * n) % 16) (omega arith)).1 in
    let same : out ++ (c ∷ nibbles n val) ≡ (out ++ wire c) ++ nibbles n val =
      rw (plain) (sym (append_assoc out (c ∷ []) (nibbles n val))) in
    rw (bit_and_nibble (val / 2 ^ (4 * n))) (
      by_bind (uart_putc c)
        (putc_rule c (nibbles_rule n val (subst (λ x. Q tt (open_port x)) same next))))

-- For every word and everything sent before: on a port that is set up, `uart_print_hex` sends "0x" and
-- eight digits that read back as the word, and changes no register.
pub uart_print_hex-RoundTrip :
    (val : ℕ) (out : List ℕ)
    → val < 2 ^ 32
    → Allowed serial
        (uart_print_hex val)
        (λ r t.
          (ds : List ℕ) × (t ≡ open_port (out ++ (48 ∷ 120 ∷ ds)))
          × (length ds ≡ 8)
          × (upper_value 0 ds ≡ val))
        (open_port out)
unfolding uart_print_hex Print.uart_puts
uart_print_hex-RoundTrip val out h =
    let none_left : val / 2 ^ 32 ≡ 0 = omega arith in
    by_bind (uart_puts (codes "0x")) (
      puts_rule (codes "0x") (
        nibbles_rule 8 val (
          nibbles 8 val,
          ap open_port (append_assoc out (48 ∷ 120 ∷ []) (nibbles 8 val)),
          length-nibbles 8 val,
          ap (λ x. upper_value x (nibbles 8 val)) (sym none_left) ∙ value-nibbles 8 val,
        )))
