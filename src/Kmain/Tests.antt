-- ===== src/Kmain/Tests.antt =====
-- The interrupt handler and the echo on a device with room and a character, and two pending keys.
use osa_kernel_arm_boot_step.Prelude.{
  some, ℕ, ◌≡◌, refl, true, false, none, [], ◌∷◌, ◌++◌, ◌==◌, if◌then◌else◌, update, arith,
}
use osa_kernel_arm_boot_step.Kmem.State.{null}
use osa_kernel_arm_boot_step.Mmio.{Device, read, write, at, get_bit32}
use osa_kernel_arm_boot_step.Uart.{mis, icr, dr, bit_rxim}
use osa_kernel_arm_boot_step.PendingList.{Entry, Pending, ok, init_irq_pending_list}
use osa_kernel_arm_boot_step.PendingList.Bump.{Bumped, bump}
use osa_kernel_arm_boot_step.PendingList.Queue.{Represents, empty-Represents}
use osa_kernel_arm_boot_step.Kmain.{Board, Kernel, handler_uart0_irq, handle_loop, irq_handler}
use osa_kernel_arm_boot_step.Kmain.Echo.{sent_all, handle_loop-echo}
use osa_kernel_arm_boot_step.Kprintf.Digits.{codes}
use osa_kernel_arm_boot_step.Kmain.Counter.{HasRoom}
use osa_kernel_arm_boot_step.Kmain.Poll.{poll_round, poll_round-echo}
use osa_kernel_arm_boot_step.Kmain.Arrival.{irq_handler-arrival, read_flags}

-- The acknowledge register has the serial line's interrupt, the data register the letter A.
abbrev device : ℕ → Device
device irq w addr h = if addr == 0x1E00010C then irq else if addr == 0x10009000 then 65 else 0

abbrev bare : ℕ → Board
bare irq = record {
  dev = device irq;
  periph = 0x1E000000;
  uart0 = 0x10009000;
  stdin = 0x10009000;
  stdout = 0x1000A000;
  fuel = 1;
  handler_address = 0x8000;
  call = λ p c h. none;
}

abbrev board : ℕ → Board
board irq = record (bare irq) { call = λ p c. handler_uart0_irq (bare irq) c }

abbrev return_key : Entry
return_key = record { irq_id = 37; received_char = 13; handler = 0x8000 }

abbrev key_b : Entry
key_b = record { irq_id = 37; received_char = b'b'; handler = 0x8000 }

abbrev two_keys : Pending
two_keys = record {
  node = λ p.
      if p == 2
      then record { entry = key_b; next = 1 }
      else record { entry = return_key; next = null };
  irq_pending_list = 2;
  nb_pending_irq_request = 2;
}

abbrev two_used : Bumped
two_used = (2, λ p. true)

abbrev unused : Bumped
unused = (0, λ p. false)

two_keys-Represents : Represents bump two_keys two_used (return_key ∷ key_b ∷ [])
two_keys-Represents = record {
  nodes = 2 ∷ 1 ∷ [];
  chain = (refl, omega arith, (omega arith, tt), (refl, omega arith, tt, refl));
  count = refl;
  in_use = (refl, (refl, tt));
  memory = omega arith;
  entries = refl;
}

call-echo : (c : ℕ) → (board 37).call 0x8000 c ≡ handler_uart0_irq (board 37) c
unfolding handler_uart0_irq
call-echo c = refl

abbrev waiting : Kernel (board 37) bump
waiting = record { pending = two_keys; store = two_used; io = [] }

handle_loop-echo_example :
    (k' : Kernel (board 37) bump) × (handle_loop (board 37) bump 3 waiting ≡ ok k')
    × Represents bump k'.pending k'.store []
    × (k'.io ≡ sent_all 0x1000A000 (13 ∷ 10 ∷ b'b' ∷ []) [])
handle_loop-echo_example =
    handle_loop-echo (board 37) (λ h. refl) (omega arith) bump (return_key ∷ key_b ∷ []) 3 waiting
      (omega arith) two_keys-Represents ((refl, call-echo), ((refl, call-echo), tt))

abbrev idle : Kernel (board 37) bump
idle = record { pending = init_irq_pending_list two_keys; store = unused; io = [] }

irq_handler-arrival_example :
    (k' : Kernel (board 37) bump) × (x : ℕ) × (irq_handler (board 37) bump idle ≡ ok k')
    × Represents bump k'.pending k'.store
        (record { irq_id = 37; received_char = 65; handler = 0x8000 } ∷ [])
    × (k'.io
        ≡ write 32 0x1E000110 37
          ∷ write 32 (at 0x10009000 icr) x
          ∷ read 32 (at 0x10009000 mis)
          ∷ read 32 (at 0x10009000 dr)
          ∷ read_flags (board 37) bump [])
    × (get_bit32 x bit_rxim ≡ 0)
irq_handler-arrival_example =
    irq_handler-arrival (board 37) bump (λ h. refl) (omega arith) idle [] 1
      (1, update (λ p. false) 1 true) (empty-Represents bump two_keys unused (omega arith))
      (omega arith) refl refl

roomy : HasRoom (board 37)
roomy = record { uart0 = λ h. refl; stdout = λ h. refl; polls = omega arith }

-- The count was at its limit.
poll_round-echo_example :
    poll_round (board 37) 60000000 []
    ≡ some (
      0,
      sent_all 0x1000A000 (65 ∷ []) (
          read 32 0x10009000
          ∷ read 32 0x10009018
          ∷ sent_all 0x10009000 (codes "Zzzz..." ++ 10 ∷ 13 ∷ []) []),
    )
poll_round-echo_example = poll_round-echo (board 37) roomy 60000000 []
