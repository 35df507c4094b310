-- ===== src/Uart/Drain.antt =====
-- What one receive interrupt adds to the queue.
use mathlib.Core.List.{append-nil, append_assoc}
use ref_arm_os.Base.{
  ◌==◌, if◌then◌else◌, Bool-cases, length, length-append, take, ℕ, zero, suc, ◌+◌, ◌-◌, ◌/◌, ◌%◌,
  ◌^◌, ◌≤◌, ◌≡◌, refl, sym, ap, ◌∙◌, inl, inr, not, ◌&&◌, List, [], ◌∷◌, ◌++◌, arith,
}
use Prim.Native.Nat.{bit_and}
use ref_arm_os.Uart.{
  Rx, Driver, put_char, line_error, data_ready, drain, uart_get_irq_fire_count, uart_rx_irq_handler,
}
use ref_arm_os.Uart.Queue.{IsRing, waiting, queued, length-queued, put_char-IsRing, put_char-queued}

-- The bytes that the device hands over: those read without a line error, up to the first LSR with
-- neither an error nor data.
unfoldable pub received : List (ℕ × ℕ) → List ℕ
received [] = []
received ((lsr, rhr) ∷ polls) =
    let rest = received polls in
    if line_error lsr then rest else if data_ready lsr then bit_and rhr 0xFF ∷ rest else []

take-nil : (n : ℕ) → take {A = ℕ} n [] ≡ []
take-nil zero = refl
take-nil (suc n) = refl

-- One byte more in a list of at most 255, where there is room.
bounded_push :
    (q q' rest : List ℕ) (ch : ℕ)
    → length q ≤ 255
    → q' ≡ (if length q == 255 then q else q ++ (ch ∷ []))
    → q' ++ take (255 - length q') rest ≡ q ++ take (255 - length q) (ch ∷ rest)
bounded_push q q' rest ch le e = elim (Bool-cases (length q == 255)) [
  | inl full ↦
      let same : q' ≡ q = rw full at e in let n : 255 - length q ≡ 0 = ground arith in rw (same, n)
  | inr room ↦
      let longer : q' ≡ q ++ (ch ∷ []) = rw room at e in
      let n : 255 - length q ≡ suc (254 - length q) = ground arith in
      let n' : 255 - length (q ++ (ch ∷ [])) ≡ 254 - length q =
        omega (arith, length-append q (ch ∷ [])) in
      rw (longer, n', n) (append_assoc q (ch ∷ []) (take (254 - length q) rest))
]

put-take :
    (b : Rx) (ch : ℕ) (rest : List ℕ)
    → IsRing b
    → queued (put_char b ch) ++ take (255 - waiting (put_char b ch)) rest
      ≡ queued b ++ take (255 - waiting b) (ch ∷ rest)
put-take b ch rest w =
    ap (λ n. queued (put_char b ch) ++ take (255 - n) rest) (sym (length-queued (put_char b ch)))
    ∙ bounded_push (queued b) (queued (put_char b ch)) rest ch (omega (arith, length-queued b)) (
        (put_char-queued b ch w).0
        ∙ ap (λ n. if n == 255 then queued b else queued b ++ (ch ∷ [])) (sym (length-queued b)))
    ∙ ap (λ n. queued b ++ take (255 - n) (ch ∷ rest)) (length-queued b)

-- A run of the handler's loop appends what the device hands over, in order, as far as it fits into
-- the 255 places of the ring, and keeps the ring well formed.
pub drain-queued :
    (b : Rx) (polls : List (ℕ × ℕ))
    → IsRing b
    → (queued (drain b polls) ≡ queued b ++ take (255 - waiting b) (received polls))
      × IsRing (drain b polls)
unfolding drain received
drain-queued b [] w = (rw (take-nil (255 - waiting b), append-nil), w)
drain-queued b ((lsr, rhr) ∷ polls) w = elim (Bool-cases (line_error lsr)) [
  | inl e ↦ rw e (drain-queued b polls w)
  | inr clean ↦ elim (Bool-cases (data_ready lsr)) [
    | inl d ↦
        let (q, r) =
          drain-queued (put_char b (bit_and rhr 0xFF)) polls
            (put_char-IsRing b (bit_and rhr 0xFF) w) in
        rw (clean, d) (q ∙ put-take b (bit_and rhr 0xFF) (received polls) w, r)
    | inr none_left ↦ rw (clean, none_left) (rw (take-nil (255 - waiting b), append-nil), w)
  ]
]

-- the bytes that the device hands over to a run of the handler: none where no interrupt is pending,
-- nor where it is a line status without data
abbrev pub handed_over : (iir lsr : ℕ) → List (ℕ × ℕ) → List ℕ
handed_over iir lsr polls =
    if not (bit_and iir 1 == 0)
    then []
    else if (bit_and iir 0x3E / 2 == 6) && not (data_ready lsr)
    then []
    else received polls

-- A run of the receive handler on a ring that is well formed: what the device hands over is appended
-- to the queue, in order, as far as it fits into the 255 places; the ring stays well formed; and the
-- run is counted, modulo 2 ^ 32.
pub uart_rx_irq_handler-queued :
    (d : Driver) (iir lsr : ℕ) (polls : List (ℕ × ℕ))
    → IsRing d.rx_buffer
    → (queued (uart_rx_irq_handler d iir lsr polls).rx_buffer
        ≡ queued d.rx_buffer ++ take (255 - waiting d.rx_buffer) (handed_over iir lsr polls))
      × IsRing (uart_rx_irq_handler d iir lsr polls).rx_buffer
      × (uart_get_irq_fire_count (uart_rx_irq_handler d iir lsr polls)
          ≡ (d.uart_irq_fire_count + 1) % 2 ^ 32)
unfolding uart_rx_irq_handler uart_get_irq_fire_count
uart_rx_irq_handler-queued d iir lsr polls w =
    let nothing : queued d.rx_buffer ≡ queued d.rx_buffer ++ take (255 - waiting d.rx_buffer) [] =
      rw (take-nil (255 - waiting d.rx_buffer), append-nil) refl in
    elim (Bool-cases (bit_and iir 1 == 0)) [
      | inr idle ↦ rw (idle) (nothing, w, refl)
      | inl pending ↦ elim (Bool-cases ((bit_and iir 0x3E / 2 == 6) && not (data_ready lsr))) [
        | inl bare ↦ rw (pending, bare) (nothing, w, refl)
        | inr bytes ↦
            let (q, r) = drain-queued d.rx_buffer polls w in rw (pending, bytes) (q, r, refl)
      ]
    ]
