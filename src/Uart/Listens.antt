-- ===== src/Uart/Listens.antt =====
-- What the port of VinixOS/kernel/src/drivers/uart.c is set to, and what it sends.
use mathlib.Core.List.{append_assoc, append-nil}
use mathlib.Core.Path.{subst}
use ref_arm_os.Base.{
  ltb, leb, ◌==◌, if◌then◌else◌, Bool-cases, length, bit_and_seven, ℕ, ◌^◌, ◌≡◌, refl, sym, ap, ◌⊎◌,
  inl, inr, Bool, true, false, not, ◌&&◌, ◌||◌, Option, none, some, List, [], ◌∷◌, ◌++◌, arith,
}
use ref_arm_os.Board.{Prog, ◌>>◌, any_of, none_of}
use ref_arm_os.Board.Registers.{cm_wkup_uart0_clkctrl}
use ref_arm_os.Board.Rules.{
  Access, Monitor, Allowed, read, wrote, by_done, by_read, by_write, by_wait,
}
use ref_arm_os.Print
use ref_arm_os.Uart.Port.{
  cm_per_uart0_clkctrl, uart_thr, uart_ier, uart_fcr, uart_lcr, uart_lsr, uart_scr, lsr_thre,
  uart0_irq, set_up_rx, uart_enable_rx_interrupt, uart_putc, uart_puts,
}
use ref_arm_os.Irq.{Desc, max_irqs, intc_enable_irq, desc, is_registered}
use ref_arm_os.Irq.Dispatch.{irq_register_handler_lem}

-- What is set, whether the module clock of UART0 runs, whether the wait on the register that the code
-- calls CM_PER_UART0_CLKCTRL has ended, whether THR was seen to be empty, what was sent, and whether
-- the controller lets the interrupt through.
pub record Port : Type 0 where
  pub lcr : ℕ
  pub ier : ℕ
  pub clocked : Bool
  pub waited : Bool
  pub room : Bool
  pub sent : List ℕ
  pub unmasked : Bool

-- Bit 7 of LCR puts the divisor latches at the addresses of THR and IER.
abbrev pub latched : Port → Bool
latched s = any_of 0x80 s.lcr

-- a register of the port, from RHR on
abbrev of_port : ℕ → Bool
of_port a = leb 0x44E09000 a && ltb a 0x44E0A000

unfoldable pub port_step : Port → Access → Option Port
port_step s (read a v) =
    if of_port a && not s.clocked
    then none
    else if a == cm_per_uart0_clkctrl
    then (if none_of 0x30000 v then some (record s { waited = true }) else some s)
    else if a == uart_lsr
    then (if any_of lsr_thre v then some (record s { room = true }) else some s)
    else some s
port_step s (wrote v a) =
    if a == cm_wkup_uart0_clkctrl
    then some (record s { clocked = false })
    else if a == cm_per_uart0_clkctrl
    then some (record s { waited = false })
    else if a == 0x482000C8
    then (if v == 2 ^ 8 && s.ier == 1 then some (record s { unmasked = true }) else none)
    else if not s.clocked
    then none
    else if a == uart_thr
    then (if s.room && not (latched s)
        then some (record s { room = false; sent = s.sent ++ (v ∷ []) })
        else none)
    else if not s.waited
    then none
    else if a == uart_ier
    then (if latched s then none else some (record s { ier = v }))
    else if a == uart_lcr
    then some (record s { lcr = v })
    else if a == uart_fcr || a == uart_scr
    then some s
    else none

-- A register of the port is touched only while the clock of UART0 runs, which a write to its control
-- register CM_WKUP_UART0_CLKCTRL would put in doubt; the set-up registers are written only after the
-- code's own wait, which is for another clock; THR only when it was seen to be empty; IER and THR only
-- while the divisor latches are away; the interrupt is let through only once the port raises it. LCR
-- reads as it was written.
abbrev pub port : Monitor Port
port = record { possible = λ s a v. a ≡ uart_lcr → v ≡ s.lcr; step = port_step }

abbrev listening : Port → Port
listening s = record s { waited = true; ier = 1 }

-- A port that can send: its clock runs and the divisor latches are away.
abbrev pub CanSend : Port → Type 0
CanSend s = (s.clocked ≡ true) × (latched s ≡ false)

abbrev on : Port → Port
on s = record s { clocked = true }

-- what holds of the port with its clock written out
with_clock : (P : Port → Type 0) (s : Port) → s.clocked ≡ true → P (on s) → P s
with_clock P s e h = subst P (sym (ap (λ b. record s { clocked = b }) e)) h

set_up_rx_rule :
    {A : Type 0} {p : Prog A} {Q : A → Port → Type 0} (s : Port)
    → latched s ≡ false
    → Allowed port p Q (listening (on s))
    → Allowed port (set_up_rx >> p) Q (on s)
unfolding set_up_rx port_step
set_up_rx_rule s plain next = by_write (
    by_wait (λ v h e. rw (e) refl)
      (λ v h e. rw (e) (
        by_read λ lcr_save same. rw (same refl) (
          by_write (
            by_write (
              rw (bit_and_seven s.lcr)
                (by_write (by_write (by_write (by_write (rw (plain) next)))))))))))

module _ {S : Type 0} where
  -- The handler is in the table and the interrupt is let through, or another handler keeps it.
  abbrev pub Listens : (ℕ → S → S) → List (Desc S) → Port → List (Desc S) → Port → Type 0
  Listens f table s table' t =
      (((desc table uart0_irq).handler ≡ none)
        × ((j : ℕ)
            → desc table' j ≡ (
                if uart0_irq == j
                then record { handler = some f; arg = 0; fired = 0 }
                else desc table j))
        × (t ≡ record (listening s) { unmasked = true }))
      ⊎ ((is_registered (desc table uart0_irq).handler ≡ true)
          × (table' ≡ table)
          × (t ≡ listening s))

  -- With the table of 128 handlers, on a port whose module clock, that of CM_WKUP_UART0_CLKCTRL, runs
  -- already, and whose divisor latches are away: every access is one that `port` allows, the clock of the port is left
  -- alone, and the port ends with the receive interrupt on and the line settings from before. If no
  -- handler had the interrupt, the driver's has it then, all others are as before, and the controller
  -- lets it through; else the table stays and the controller is left alone.
  pub uart_enable_rx_interrupt-Listens :
      (f : ℕ → S → S) (table : List (Desc S)) (s : Port)
      → length table ≡ max_irqs
      → CanSend s
      → Allowed port (uart_enable_rx_interrupt f table) (Listens f table s) s
  unfolding uart_enable_rx_interrupt port_step intc_enable_irq
  uart_enable_rx_interrupt-Listens f table s len (clock, plain) =
      with_clock (λ x. Allowed port (uart_enable_rx_interrupt f table) (Listens f table x) x) s
        clock
        (set_up_rx_rule s plain (elim (irq_register_handler_lem table uart0_irq f 0 len) [
          | inl (_, free, ok, there) ↦ rw (ok) (by_write (by_done (inl (free, there, refl))))
          | inr (inl far, _) ↦ absurd (omega arith)
          | inr (inr taken, kept) ↦ rw (kept) (by_done (inr (taken, refl, refl)))
        ]))

abbrev pub with_sent : Bool → List ℕ → Port → Port
with_sent r out s = record s { room = r; sent = out }

send_step :
    (c : ℕ) (s : Port)
    → latched s ≡ false
    → port_step (record (on s) { room = true }) (wrote c uart_thr)
      ≡ some (with_sent false (s.sent ++ (c ∷ [])) (on s))
unfolding port_step
send_step c s plain = rw (plain) refl

putc_rule :
    (c : ℕ) {A : Type 0} {p : Prog A} {Q : A → Port → Type 0} (s : Port)
    → latched s ≡ false
    → Allowed port p Q (with_sent false (s.sent ++ (c ∷ [])) (on s))
    → Allowed port (uart_putc c >> p) Q (on s)
unfolding uart_putc port_step
putc_rule c s h next =
    by_wait (λ v _ e. rw (e) refl) (λ v _ e. rw (e) (by_write (rw (send_step c s h) next)))

puts_rule :
    (str : List ℕ) {Q : Unit {0} → Port → Type 0} (s : Port)
    → latched s ≡ false
    → ((r : Bool) → Q tt (with_sent r (s.sent ++ Print.uart_puts str) (on s)))
    → Allowed port (uart_puts str) Q (on s)
unfolding uart_putc uart_puts Print.uart_puts
puts_rule [] {Q} s h next =
    by_done (subst (λ x. Q tt (with_sent s.room x (on s))) (append-nil s.sent) (next s.room))
puts_rule (c ∷ str) {Q} s h next = elim (Bool-cases (c == 10)) [
  | inl e ↦
      let sent : s.sent ++ Print.uart_puts (c ∷ str)
          ≡ ((s.sent ++ (13 ∷ [])) ++ (c ∷ [])) ++ Print.uart_puts str =
        rw (e, append_assoc (s.sent ++ (13 ∷ [])) (c ∷ []) (Print.uart_puts str))
          (sym (append_assoc s.sent (13 ∷ []) (c ∷ Print.uart_puts str))) in
      rw (e) (
        putc_rule 13 s h (
          putc_rule c (with_sent false (s.sent ++ (13 ∷ [])) s) h (
            puts_rule str (with_sent false ((s.sent ++ (13 ∷ [])) ++ (c ∷ [])) s) h
              (λ r. subst (λ x. Q tt (with_sent r x (on s))) sent (next r)))))
  | inr f ↦
      let sent : s.sent ++ Print.uart_puts (c ∷ str) ≡ (s.sent ++ (c ∷ [])) ++ Print.uart_puts str =
        rw (f) (sym (append_assoc s.sent (c ∷ []) (Print.uart_puts str))) in
      rw (f) (
        putc_rule c s h (
          puts_rule str (with_sent false (s.sent ++ (c ∷ [])) (on s)) h
            (λ r. subst (λ x. Q tt (with_sent r x (on s))) sent (next r))))
]

-- On a port that can send: `uart_puts` writes to THR just the bytes that the model of the printing
-- has, each after LSR has said that THR is empty, and changes no other register.
pub uart_puts-Sends :
    (str : List ℕ) (s : Port)
    → CanSend s
    → Allowed port (uart_puts str) (λ _ t. t ≡ with_sent t.room (s.sent ++ Print.uart_puts str) s) s
uart_puts-Sends str s (clock, plain) =
    with_clock
      (λ x.
        Allowed port (uart_puts str) (λ _ t. t ≡ with_sent t.room (x.sent ++ Print.uart_puts str) x)
          x)
      s clock (puts_rule str s plain (λ r. refl))
