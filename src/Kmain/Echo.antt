-- ===== src/Kmain/Echo.antt =====
-- kmain.c: the echo of characters and the loop over the pending interrupts.
use osa_kernel_arm_boot_step.Prelude.{
  ℕ, zero, suc, ◌%◌, ◌^◌, ◌<◌, ◌≡◌, refl, sym, ap, ◌∙◌, true, none, some, List, [], ◌∷◌, ◌++◌, ◌==◌,
  if◌then◌else◌, arith, Bool-cases, inl, inr, All, length,
}
use osa_kernel_arm_boot_step.Mmio.{get_bit32, History, Io, read, write, at}
use osa_kernel_arm_boot_step.Uart.{dr, fr, bit_rxfe, uart_send, uart_receive}
use osa_kernel_arm_boot_step.Uart.Send.{has_room, uart_send-polls}
use osa_kernel_arm_boot_step.PendingList
use osa_kernel_arm_boot_step.PendingList.{
  Allocator, Pending, Entry, Result, ok, get_and_remove_pending_irq,
}
use osa_kernel_arm_boot_step.PendingList.Queue.{Represents}
use osa_kernel_arm_boot_step.PendingList.Removal.{
  get_and_remove_pending_irq-cons, get_and_remove_pending_irq-nil,
}
use osa_kernel_arm_boot_step.Kmain.{
  Board, Kernel, handler_uart0_irq, handle_loop, poll_once, uart0_irq, lift,
}

-- The accesses of `uart_send` for one byte, where the first poll finds room.
abbrev pub sent : (uart c : ℕ) → History → History
sent uart c h = write 32 (at uart dr) (c % 2 ^ 8 % 2 ^ 32) ∷ read 32 (at uart fr) ∷ h

abbrev pub sent_all : (uart : ℕ) → List ℕ → History → History
sent_all uart [] h = h
sent_all uart (c ∷ s) h = sent_all uart s (sent uart c h)

-- What the echo of a character sends: a carriage return comes with a line feed.
abbrev pub echo : ℕ → List ℕ
echo c = if c == 13 then 13 ∷ 10 ∷ [] else c ∷ []

abbrev pub echo_all : List Entry → List ℕ
echo_all [] = []
echo_all (e ∷ es) = echo e.received_char ++ echo_all es

pub sent_all-append :
    (uart : ℕ) (s t : List ℕ) (h : History)
    → sent_all uart (s ++ t) h ≡ sent_all uart t (sent_all uart s h)
sent_all-append uart [] t h = refl
sent_all-append uart (c ∷ s) t h = sent_all-append uart s t (sent uart c h)

-- An entry of the receive interrupt whose handler is the echo.
abbrev pub IsEcho : Board → Entry → Type 0
IsEcho b e = (e.irq_id ≡ uart0_irq) × ((c : ℕ) → b.call e.handler c ≡ handler_uart0_irq b c)

pub lift-some :
    {A : Type 0} (b : Board) (a : Allocator) (m : Io A) (k : Kernel b a)
    (next : A → Kernel b a → Result (Kernel b a)) (x : A) (h : History)
    → m k.io ≡ some (x, h)
    → lift b a m k next ≡ next x (record k { io = h })
lift-some b a m k next x h e =
    ap (λ r. elim r [ none ↦ PendingList.out_of_fuel | some (y, g) ↦ next y (record k { io = g }) ])
      e

module _ (b : Board) (ready : (h : History) → has_room b.dev b.stdout h ≡ true)
    (polls : 0 < b.fuel) where
  send-sent :
      (c : ℕ) (h : History) → uart_send b.dev b.stdout b.fuel c h ≡ some (tt, sent b.stdout c h)
  send-sent c h =
      uart_send-polls b.dev b.stdout 0 b.fuel c h polls (λ k hk. absurd (omega arith)) (ready h)

  pub handler-echo :
      (c : ℕ) (h : History) → handler_uart0_irq b c h ≡ some (tt, sent_all b.stdout (echo c) h)
  unfolding handler_uart0_irq
  handler-echo c h = elim (Bool-cases (c == 13)) [
    | inl e ↦ rw (e, send-sent 13 h, send-sent 10 (sent b.stdout 13 h)) refl
    | inr e ↦ rw (e, send-sent c h) refl
  ]

  -- If the transmit FIFO always has room, a round of `poll` ends: it sends the echo of the byte that
  -- it receives, and only reads the flags if there is none.
  pub poll_once-echo :
      (h : History)
      → poll_once b h
        ≡ some (
          tt,
          if get_bit32 (b.dev 32 (at b.stdin fr) h % 2 ^ 32) bit_rxfe == 0
              then sent_all b.stdout
                  (echo (b.dev 32 (at b.stdin dr) (read 32 (at b.stdin fr) ∷ h) % 2 ^ 32 % 2 ^ 8))
                  (read 32 (at b.stdin dr) ∷ read 32 (at b.stdin fr) ∷ h)
              else read 32 (at b.stdin fr) ∷ h,
        )
  unfolding poll_once uart_receive
  poll_once-echo h =
      let char : ℕ = b.dev 32 (at b.stdin dr) (read 32 (at b.stdin fr) ∷ h) % 2 ^ 32 % 2 ^ 8 in
      let taken : History = read 32 (at b.stdin dr) ∷ read 32 (at b.stdin fr) ∷ h in
      elim (Bool-cases (get_bit32 (b.dev 32 (at b.stdin fr) h % 2 ^ 32) bit_rxfe == 0)) [
        | inl e ↦ rw e (handler-echo char taken)
        | inr e ↦ rw e refl
      ]

  module _ (a : Allocator) where
    -- If the transmit FIFO always has room and there is a round for each entry and one more, the
    -- loop over a queue of receive interrupts whose handler is the echo ends with an empty queue,
    -- and its accesses are those that send the echo of the received characters in their order.
    pub handle_loop-echo :
        (es : List Entry) (fuel : ℕ) (k : Kernel b a)
        → length es < fuel
        → Represents a k.pending k.store es
        → All (IsEcho b) es
        → (k' : Kernel b a) × (handle_loop b a fuel k ≡ ok k')
          × Represents a k'.pending k'.store []
          × (k'.io ≡ sent_all b.stdout (echo_all es) k.io)
    unfolding handle_loop
    handle_loop-echo es zero k f r all = absurd (omega arith)
    handle_loop-echo [] (suc fuel) k f r all =
        (k, rw (handle_loop, get_and_remove_pending_irq-nil a k.pending k.store r) refl, r, refl)
    handle_loop-echo (e ∷ es) (suc fuel) k f r ((irq, call), all) =
        let (q, t, taken, rest) = get_and_remove_pending_irq-cons a k.pending k.store e es r in
        let after : Kernel b a = record {
          pending = q;
          store = t;
          io = sent_all b.stdout (echo e.received_char) k.io;
        } in
        let (k', ends, empty, order) = handle_loop-echo es fuel after (omega arith) rest all in
        let waiting : Kernel b a = record { pending = q; store = t; io = k.io } in
        (
          k',
          rw (handle_loop, taken, irq, call e.received_char)
              (lift-some b a (handler_uart0_irq b e.received_char) waiting
                  (λ _ l. handle_loop b a fuel l) tt _ (handler-echo e.received_char k.io)
                ∙ ends),
          empty,
          order ∙ sym (sent_all-append b.stdout (echo e.received_char) (echo_all es) k.io),
        )
