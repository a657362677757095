-- ===== src/Kmain/Counter.antt =====
-- kmain.c: `handlAllPendingIrq`, with the message about the timer's counter in front of the loop.
use osa_kernel_arm_boot_step.Prelude.{
  ℕ, ◌+◌, ◌%◌, ◌^◌, ◌<◌, ◌≡◌, refl, ◌∙◌, true, some, List, [], ◌∷◌, ◌++◌, arith, All,
}
use osa_kernel_arm_boot_step.Mmio.{History, read, at}
use osa_kernel_arm_boot_step.Uart.{uart_send}
use osa_kernel_arm_boot_step.Uart.Send.{has_room, uart_send-polls}
use osa_kernel_arm_boot_step.Timer.{arm_pwt_base_offset, off_counter}
use osa_kernel_arm_boot_step.Kprintf.Digits.{Bytes}
use osa_kernel_arm_boot_step.Kprintf.Digits.Value.{value}
use osa_kernel_arm_boot_step.Kprintf.Spec.{word, Args}
use osa_kernel_arm_boot_step.Kprintf.Print.{printed, kprintf}
use osa_kernel_arm_boot_step.Kprintf.Print.Values.{kprintf-unsigned, hexadecimal}
use osa_kernel_arm_boot_step.PendingList.{Allocator, Entry, ok}
use osa_kernel_arm_boot_step.PendingList.Queue.{Represents, Represents-length}
use osa_kernel_arm_boot_step.Kmain.{
  Board, Kernel, put_text, kprintf_out, show_counter, counter_format, handl_all_pending_irq,
  handle_loop,
}
use osa_kernel_arm_boot_step.Kmain.Echo.{
  sent, sent_all, echo_all, IsEcho, lift-some, handle_loop-echo,
}

-- The text in front of the counter's digits.
abbrev pub counter_label : Bytes
counter_label =
    b'+' ∷ b'+' ∷ b'+' ∷ b' ' ∷ b'c' ∷ b'o' ∷ b'u' ∷ b'n' ∷ b't' ∷ b'e' ∷ b'r' ∷ b' ' ∷ b'=' ∷ b' '
    ∷ b'0' ∷ b'x' ∷ []

-- The message with the digits of the counter.
abbrev pub counter_message : Bytes → Bytes
counter_message d = counter_label ++ (d ++ 10 ∷ [])

-- The register with the counter, and its value after a history.
abbrev pub counter_at : Board → ℕ
counter_at b = at ((b.periph + arm_pwt_base_offset) % 2 ^ 32) off_counter

abbrev pub counter : Board → History → ℕ
counter b h = b.dev 32 (counter_at b) h % 2 ^ 32

module _ (b : Board) (ready : (h : History) → has_room b.dev b.uart0 h ≡ true)
    (polls : 0 < b.fuel) where
  pub put_text-sent : (s : Bytes) (h : History) → put_text b s h ≡ some (tt, sent_all b.uart0 s h)
  unfolding put_text
  put_text-sent [] h = refl
  put_text-sent (c ∷ s) h =
      let first : uart_send b.dev b.uart0 b.fuel c h ≡ some (tt, sent b.uart0 c h) =
        uart_send-polls b.dev b.uart0 0 b.fuel c h polls (λ k hk. absurd (omega arith)) (ready h) in
      rw first (put_text-sent s (sent b.uart0 c h))

  pub kprintf_out-sent :
      (fmt text : Bytes) (args : Args) (stores : List (ℕ × ℕ)) (h : History)
      → kprintf fmt args ≡ printed text stores
      → kprintf_out b fmt args h ≡ some (tt, sent_all b.uart0 text h)
  unfolding kprintf_out
  kprintf_out-sent fmt text args stores h e = rw (kprintf_out, e) (put_text-sent text h)

  -- The message is the label, the counter's value in base 16, and a line feed.
  pub show_counter-sent :
      (h : History)
      → (d : Bytes) × (show_counter b h
          ≡ some (tt, sent_all b.uart0 (counter_message d) (read 32 (counter_at b) ∷ h)))
        × (value 16 0 d ≡ counter b h % 2 ^ 32)
  unfolding show_counter
  show_counter-sent h =
      let (d, text, val) =
        kprintf-unsigned hexadecimal counter_label (10 ∷ []) (counter b h) [] (omega arith)
          (omega arith) in
      (
        d,
        kprintf_out-sent counter_format _ (word (counter b h) ∷ []) [] (read 32 (counter_at b) ∷ h)
            text,
        val,
      )

-- Both transmit FIFOs always have room, and `uart_send` polls at least once.
pub record HasRoom (b : Board) : Type 0 where
  pub uart0 : (h : History) → has_room b.dev b.uart0 h ≡ true
  pub stdout : (h : History) → has_room b.dev b.stdout h ≡ true
  pub polls : 0 < b.fuel

module _ (b : Board) (a : Allocator) (room : HasRoom b) where
  -- If both transmit FIFOs always have room, `handlAllPendingIrq` ends with an empty queue: behind
  -- the read of the counter and its message, its accesses send the echo of the queued characters in
  -- their order.
  pub handl_all_pending_irq-echo :
      (k : Kernel b a) (es : List Entry)
      → Represents a k.pending k.store es
      → All (IsEcho b) es
      → (k' : Kernel b a) × (d : Bytes) × (handl_all_pending_irq b a k ≡ ok k')
        × Represents a k'.pending k'.store []
        × (k'.io
            ≡ sent_all b.stdout
                (echo_all es)
                (sent_all b.uart0 (counter_message d) (read 32 (counter_at b) ∷ k.io)))
        × (value 16 0 d ≡ counter b k.io % 2 ^ 32)
  unfolding handl_all_pending_irq
  handl_all_pending_irq-echo k es r all =
      let (d, shown, val) = show_counter-sent b room.uart0 room.polls k.io in
      let io = sent_all b.uart0 (counter_message d) (read 32 (counter_at b) ∷ k.io) in
      let (k', ends, empty, order) =
        handle_loop-echo b room.stdout room.polls a es (k.pending.nb_pending_irq_request + 1)
          (record k { io = io }) (omega (arith, Represents-length a k.pending k.store es r)) r
          all in
      (
        k',
        d,
        lift-some b a (show_counter b) k
              (λ _ l. handle_loop b a (l.pending.nb_pending_irq_request + 1) l) tt io shown
            ∙ ends,
        empty,
        order,
        val,
      )
