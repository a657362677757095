-- ===== src/Kmain/Arrival.antt =====
-- kmain.c: the interrupt handler for a received character and for a spurious interrupt.
use osa_kernel_arm_boot_step.Prelude.{
  ℕ, ◌%◌, ◌^◌, ◌<◌, ◌≡◌, refl, ◌∙◌, Bool, true, false, Option, none, some, ◌==◌, if◌then◌else◌,
  Bool-cases, inl, inr, List, [], ◌∷◌, ◌++◌, arith, length,
}
use osa_kernel_arm_boot_step.Mmio.{History, read, write, at, get_bit32}
use osa_kernel_arm_boot_step.Uart.{dr, fr, mis, icr, bit_rxfe, bit_rxim, uart_receive}
use osa_kernel_arm_boot_step.Uart.Irqs.{uart_ack_irqs_lem}
use osa_kernel_arm_boot_step.Uart.Send.{has_room}
use osa_kernel_arm_boot_step.Kmain.Echo.{sent_all}
use osa_kernel_arm_boot_step.Kmain.Counter.{put_text-sent}
use osa_kernel_arm_boot_step.Gic.{
  gic_base, iar, eoir, ack_intid, ack_cpuid, ack_value, is_spurious, cortex_a9_gic_get_current_irq,
  cortex_a9_gic_acknowledge_irq,
}
use osa_kernel_arm_boot_step.Kmem.State.{Ptr}
use osa_kernel_arm_boot_step.PendingList.{
  Allocator, Entry, Pending, ok, max_nbr_pending_irq, sizeof_node, is_full_pending_irq_list,
}
use osa_kernel_arm_boot_step.PendingList.Queue.{
  Represents, Represents-length, add_pending_irq-append,
}
use osa_kernel_arm_boot_step.Kmain.{
  Board, Kernel, uart0_case, current_irq, irq_handler, enqueue, uart0_irq, lift,
}

-- The list counts its entries.
list_free :
    (a : Allocator) (q : Pending) (s : Allocator.Store a) (es : List Entry)
    → Represents a q s es
    → length es < max_nbr_pending_irq
    → is_full_pending_irq_list q ≡ false
unfolding is_full_pending_irq_list
list_free a q s es r room =
    let nb : q.nb_pending_irq_request ≡ length es = Represents-length a q s es r in ground arith

module _ (b : Board) (a : Allocator) where
  open a use {Store, kmalloc}

  -- The history behind the read of the acknowledge register, and behind that of the flags.
  abbrev pub read_iar : History → History
  read_iar h = read 32 (at (gic_base b.periph) iar) ∷ h

  abbrev pub read_flags : History → History
  read_flags h = read 32 (at b.stdin fr) ∷ read_iar h

  -- The value of the acknowledge register, whether there is a byte in the receive FIFO, and the
  -- character that the handler takes, a dot if there is none.
  abbrev pub raised : History → ℕ
  raised h = b.dev 32 (at (gic_base b.periph) iar) h % 2 ^ 32

  abbrev pub has_byte : History → Bool
  has_byte h = get_bit32 (b.dev 32 (at b.stdin fr) (read_iar h) % 2 ^ 32) bit_rxfe == 0

  abbrev pub char : History → ℕ
  char h = if has_byte h then b.dev 32 (at b.stdin dr) (read_flags h) % 2 ^ 32 % 2 ^ 8 else b'.'

  -- The history behind `uart_receive`, and behind `addPendingIrq`, where the allocator may print.
  abbrev pub taken : History → History
  taken h = if has_byte h then read 32 (at b.stdin dr) ∷ read_flags h else read_flags h

  abbrev pub added : Store → History → History
  added s h = sent_all b.uart0 (a.message sizeof_node s) (taken h)

  pub current_irq-spurious :
      (k : Kernel b a)
      → is_spurious (ack_intid (raised k.io)) ≡ true
      → current_irq b a k ≡ ok (record k { io = read_iar k.io })
  unfolding current_irq cortex_a9_gic_get_current_irq
  current_irq-spurious k sp = rw sp refl

  pub not_full :
      (k : Kernel b a) (es : List Entry)
      → Represents a k.pending k.store es
      → length es < max_nbr_pending_irq
      → irq_handler b a k ≡ current_irq b a k
  unfolding irq_handler
  not_full k es r room = rw (irq_handler, list_free a k.pending k.store es r room) refl

  -- With room in the list, the handler of a spurious interrupt leaves the kernel as it is and does
  -- nothing but read the acknowledge register.
  pub irq_handler-spurious :
      (k : Kernel b a) (es : List Entry)
      → Represents a k.pending k.store es
      → length es < max_nbr_pending_irq
      → is_spurious (ack_intid (raised k.io)) ≡ true
      → irq_handler b a k ≡ ok (record k { io = read_iar k.io })
  irq_handler-spurious k es r room sp = not_full k es r room ∙ current_irq-spurious k sp

  abbrev pub arrived : History → Entry
  arrived h = record { irq_id = uart0_irq; received_char = char h; handler = b.handler_address }

  char-received :
      (h : History)
      → (d : Option ℕ) × (uart_receive b.dev b.stdin (read_iar h) ≡ some (d, taken h))
        × ((elim d [ none ↦ b'.' | some x ↦ x ]) ≡ char h)
  unfolding uart_receive
  char-received h = elim (Bool-cases (has_byte h)) [
    | inl e ↦
        (some (b.dev 32 (at b.stdin dr) (read_flags h) % 2 ^ 32 % 2 ^ 8), rw e refl, rw e refl)
    | inr e ↦ (none, rw e refl, rw e refl)
  ]

  module _ (ready : (h : History) → has_room b.dev b.uart0 h ≡ true) (polls : 0 < b.fuel) where
    pub current_irq-arrival :
        (k : Kernel b a) (es : List Entry) (p : Ptr) (t : Store)
        → Represents a k.pending k.store es
        → length es < max_nbr_pending_irq
        → kmalloc sizeof_node k.store ≡ some (p, t)
        → ack_intid (raised k.io) ≡ uart0_irq
        → (k' : Kernel b a) × (x : ℕ) × (current_irq b a k ≡ ok k')
          × Represents a k'.pending k'.store (es ++ arrived k.io ∷ [])
          × (k'.io
              ≡ write 32
                  (at (gic_base b.periph) eoir)
                  (ack_value uart0_irq (ack_cpuid (raised k.io)) % 2 ^ 32)
                ∷ write 32 (at b.stdin icr) x
                ∷ read 32 (at b.stdin mis)
                ∷ added k.store k.io)
          × (get_bit32 x bit_rxim ≡ 0)
    unfolding current_irq uart0_case cortex_a9_gic_get_current_irq cortex_a9_gic_acknowledge_irq
    current_irq-arrival k es p t r room node irq =
        let (q, links, longer) =
          add_pending_irq-append a k.pending k.store t (arrived k.io) es p r room node in
        let free = list_free a k.pending k.store es r room in
        let (d, got, c) = char-received k.io in
        let put = put_text-sent b ready polls (a.message sizeof_node k.store) (taken k.io) in
        let (x, ack, zero_bit, low, high) = uart_ack_irqs_lem b.dev b.stdin (added k.store k.io) in
        let acknowledged : History =
          write 32 (at (gic_base b.periph) eoir)
            (ack_value uart0_irq (ack_cpuid (raised k.io)) % 2 ^ 32)
          ∷ write 32 (at b.stdin icr) x
          ∷ read 32 (at b.stdin mis)
          ∷ added k.store k.io in
        (
          record { pending = q; store = t; io = acknowledged },
          x,
          rw (irq, lift, got, enqueue, free, lift, put, irq, c, links, lift, ack, irq) refl,
          longer,
          refl,
          zero_bit,
        )

    -- If UART0 has room to send, the list has room and the allocator has a node, an interrupt of the
    -- serial line ends with the received byte, or a dot if the receive FIFO is empty, as the last of
    -- the queue. Behind the reads of the acknowledge register, of the flags and of the byte, the
    -- accesses send what the allocator prints, write the device's clear register with a zero for the
    -- receive interrupt, and end with the acknowledgement of the interrupt at the controller.
    pub irq_handler-arrival :
        (k : Kernel b a) (es : List Entry) (p : Ptr) (t : Store)
        → Represents a k.pending k.store es
        → length es < max_nbr_pending_irq
        → kmalloc sizeof_node k.store ≡ some (p, t)
        → ack_intid (raised k.io) ≡ uart0_irq
        → (k' : Kernel b a) × (x : ℕ) × (irq_handler b a k ≡ ok k')
          × Represents a k'.pending k'.store (es ++ arrived k.io ∷ [])
          × (k'.io
              ≡ write 32
                  (at (gic_base b.periph) eoir)
                  (ack_value uart0_irq (ack_cpuid (raised k.io)) % 2 ^ 32)
                ∷ write 32 (at b.stdin icr) x
                ∷ read 32 (at b.stdin mis)
                ∷ added k.store k.io)
          × (get_bit32 x bit_rxim ≡ 0)
    irq_handler-arrival k es p t r room node irq =
        let (k', x, runs, longer, io, zero_bit) = current_irq-arrival k es p t r room node irq in
        (k', x, not_full k es r room ∙ runs, longer, io, zero_bit)
