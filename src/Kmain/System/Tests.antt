-- ===== src/Kmain/System/Tests.antt =====
-- The system on a board whose acknowledge register has the serial line's interrupt for ever, and
-- whose data register has the letter A.
use osa_kernel_arm_boot_step.Prelude.{
  ℕ, ◌≤◌, ◌≡◌, refl, true, false, none, some, [], ◌∷◌, ◌==◌, if◌then◌else◌, update, arith,
}
use mathlib.Core.Logic.{inr}
use osa_kernel_arm_boot_step.Kmem.State.{null}
use osa_kernel_arm_boot_step.Mmio.{Device, read, write, at}
use osa_kernel_arm_boot_step.Uart.{dr, fr, mis, icr, uart_receive, uart_ack_irqs}
use osa_kernel_arm_boot_step.Gic.{cortex_a9_gic_get_current_irq, cortex_a9_gic_acknowledge_irq}
use osa_kernel_arm_boot_step.PendingList.{
  Pending, ok, add_pending_irq, init_irq_pending_list, is_full_pending_irq_list,
  max_nbr_pending_irq,
}
use osa_kernel_arm_boot_step.Kmem.State.{Linker, Mem}
use osa_kernel_arm_boot_step.Kmem.Sound.{IsRegion}
use osa_kernel_arm_boot_step.Kmem.Init.{empty_valloc}
use osa_kernel_arm_boot_step.PendingList.{Allocator}
use osa_kernel_arm_boot_step.PendingList.Kheap.{kheap}
use osa_kernel_arm_boot_step.PendingList.Bump.{Bumped, bump}
use osa_kernel_arm_boot_step.PendingList.Queue.{empty-Represents}
use osa_kernel_arm_boot_step.Kmain.{
  Board, Kernel, put_text, handler_uart0_irq, irq_handler, current_irq, uart0_case,
}
use osa_kernel_arm_boot_step.Kmain.Boot.{Startup}
use osa_kernel_arm_boot_step.Kmain.System.{IsApart, Environment, interrupt, Reach, here, next}
use osa_kernel_arm_boot_step.Kmain.System.Served.{Served}
use osa_kernel_arm_boot_step.Kmain.System.Steps.{Reach-le-max, irq_handler-ends}

abbrev device : Device
device w addr h = if addr == 0x1E00010C then 37 else if addr == 0x10009000 then 65 else 0

abbrev bare : Board
bare = record {
  dev = device;
  periph = 0x1E000000;
  uart0 = 0x10009000;
  stdin = 0x10009000;
  stdout = 0x10009000;
  fuel = 1;
  handler_address = 0x8000;
  call = λ p c h. none;
}

abbrev board : Board
board = record bare { call = λ p c. handler_uart0_irq bare c }

board-IsApart : IsApart board
board-IsApart = record {
  in_flags_out = refl;
  in_flags_uart0 = refl;
  in_flags_in = refl;
  in_status = refl;
  in_counter = refl;
  in_iar = refl;
  status_flags_out = refl;
  status_flags_uart0 = refl;
  status_flags_in = refl;
  status_counter = refl;
  status_iar = refl;
  iar_flags_uart0 = refl;
  iar_flags_in = refl;
  out_icr = refl;
  out_eoir = refl;
}

call-echo : (c : ℕ) → board.call 0x8000 c ≡ handler_uart0_irq board c
unfolding handler_uart0_irq
call-echo c = refl

environment : (a : Allocator) → Environment board a
environment a = record {
  room = record { uart0 = λ h. refl; stdout = λ h. refl; polls = omega arith };
  apart = board-IsApart;
  handler = call-echo;
  known = λ h. inr refl;
}

abbrev unused : Bumped
unused = (0, λ p. false)

abbrev no_keys : Pending
no_keys = record {
  node = λ p. record { entry = record { irq_id = 0; received_char = 0; handler = 0 }; next = null };
  irq_pending_list = null;
  nb_pending_irq_request = 0;
}

abbrev booted : Kernel board bump
booted = record { pending = init_irq_pending_list no_keys; store = unused; io = [] }

-- The kernel behind the first interrupt.
abbrev one_key : Kernel board bump
one_key = record {
  pending = record {
    node = update no_keys.node 1 (record {
      entry = record { irq_id = 37; received_char = 65; handler = 0x8000 };
      next = null;
    });
    irq_pending_list = 1;
    nb_pending_irq_request = 1;
  };
  store = (1, update (λ p. false) 1 true);
  io =
      write 32 0x1E000110 37
      ∷ write 32 (at 0x10009000 icr) 0
      ∷ read 32 (at 0x10009000 mis)
      ∷ read 32 (at 0x10009000 dr)
      ∷ read 32 (at 0x10009000 fr)
      ∷ read 32 0x1E00010C
      ∷ [];
}

first_interrupt : irq_handler board bump booted ≡ ok one_key
unfolding put_text irq_handler is_full_pending_irq_list current_irq uart0_case
    cortex_a9_gic_get_current_irq cortex_a9_gic_acknowledge_irq uart_receive uart_ack_irqs
    add_pending_irq init_irq_pending_list
first_interrupt = refl

one_step : Reach board bump booted one_key
one_step = next here (interrupt first_interrupt)

Reach-le-max_example : one_key.pending.nb_pending_irq_request ≤ max_nbr_pending_irq
Reach-le-max_example =
    Reach-le-max board bump (environment bump) booted one_key
      (empty-Represents bump no_keys unused (omega arith)) one_step

irq_handler-ends_example : (l : Kernel board bump) × (irq_handler board bump one_key ≡ ok l)
irq_handler-ends_example =
    irq_handler-ends board bump (environment bump) booted one_key
      (empty-Represents bump no_keys unused (omega arith)) one_step

-- The boot of a board without a heap to initialise, and with user programs that do nothing.
abbrev startup : Startup bump
startup = record {
  local_echo = true;
  space_valloc_init = λ s. some s;
  init_message = λ s. [];
  umain = λ pid h. some (tt, h);
}

-- The boot on a heap of four pages.
abbrev linker : Linker
linker = record { kheap_low = 0x10000; kheap_high = 0x14000; alloc_addr = 0x8000 }

linker-IsRegion : IsRegion linker
linker-IsRegion = record {
  aligned = refl;
  not_null = omega arith;
  some_page = omega arith;
  top = omega arith;
  pages = omega arith;
}

abbrev blank : Mem
blank = record {
  chunk = λ p. record { size = 0; next = 0 };
  page = λ p. record {
    start = 0;
    end = 0;
    nchunks = 0;
    offset = 0;
    free = 0;
    next = 0;
    allocator = 0;
  };
  alloc = empty_valloc linker;
}

abbrev on_heap : Allocator
on_heap = kheap linker linker-IsRegion
