-- ===== src/Kmain/System.antt =====
-- kmain.c: the kernel after its boot as a system of steps. A step is an interrupt, or a round of the
-- main loop in `kmain`; the handler and the round run to their end. What was received and what was
-- sent is read off the history of accesses.
pub mod Traffic
pub mod Served
pub mod Steps
mod Tests
use osa_kernel_arm_boot_step.Prelude.{
  ℕ, ◌+◌, ◌%◌, ◌^◌, ◌<◌, ◌≡◌, Bool, true, false, not, some, List, [], ◌∷◌, ◌++◌, ◌==◌, ◌&&◌,
  if◌then◌else◌,
}
use mathlib.Core.List.{map}
use mathlib.Core.Logic.{◌⊎◌}
use osa_kernel_arm_boot_step.Kmem.State.{Ptr}
use osa_kernel_arm_boot_step.Mmio.{History, read, write, at}
use osa_kernel_arm_boot_step.Uart.{dr, fr, mis, icr}
use osa_kernel_arm_boot_step.Gic.{gic_base, iar, eoir, ack_intid, is_spurious}
use osa_kernel_arm_boot_step.PendingList.{Allocator, ok, sizeof_node}
use osa_kernel_arm_boot_step.Kmain.{
  Board, Kernel, uart0_irq, handler_uart0_irq, irq_handler, handl_all_pending_irq,
}
use osa_kernel_arm_boot_step.Kmain.Arrival.{raised}
use osa_kernel_arm_boot_step.Kmain.Counter.{HasRoom, counter_at, counter_message}
use osa_kernel_arm_boot_step.Kprintf.Digits.{Bytes}
use osa_kernel_arm_boot_step.Kprintf.Digits.Value.{value}

-- Whether the data register was read since the last read of the acknowledge register.
unfoldable pub took : Board → History → Bool
took b [] = false
took b (write _ _ _ ∷ h) = took b h
took b (read w x ∷ h) =
    let before = took b h in
    if x == at b.stdin dr then true else if x == at (gic_base b.periph) iar then false else before

-- The characters that the interrupts of the serial line brought, in their order: the bytes that were
-- read from the data register of `stdin`, and a dot for an interrupt that found none. The handler is
-- the one that reads the register of the raised interrupts.
unfoldable pub received : Board → History → List ℕ
unfolding took
received b [] = []
received b (write _ _ _ ∷ h) = received b h
received b (read w x ∷ h) =
    let before = received b h in
    if (w == 32) && (x == at b.stdin dr)
    then before ++ (b.dev 32 (at b.stdin dr) h % 2 ^ 32 % 2 ^ 8) ∷ []
    else if (w == 32) && (x == at b.stdin mis) && not (took b h)
    then before ++ b'.' ∷ []
    else before

-- The values that were written to the data register of `stdout`, in their order.
unfoldable pub transmitted : Board → History → List ℕ
transmitted b [] = []
transmitted b (read _ _ ∷ h) = transmitted b h
transmitted b (write w x v ∷ h) =
    let before = transmitted b h in
    if (w == 32) && (x == at b.stdout dr) then before ++ v ∷ [] else before

-- `stdout` is UART0, as it is with LOCAL_ECHO, so what `kprintf` prints goes there too.
abbrev pub is_local : Board → Bool
is_local b = at b.uart0 dr == at b.stdout dr

-- A text on `stdout` in which the bytes `s` were echoed. Where the line is UART0, messages about
-- the counter, and those of the allocator, stand between them.
pub data Output (b : Board) (a : Allocator) : (text s : List ℕ) → Type 0 where
  nothing : Output b a [] []
  echoed : {text s : List ℕ} (c : List ℕ) → Output b a text s → Output b a (text ++ c) (s ++ c)
  message :
      {text s : List ℕ} (d : Bytes) (n : ℕ)
      → is_local b ≡ true
      → value 16 0 d ≡ n % 2 ^ 32
      → Output b a text s
      → Output b a (text ++ map (λ c. c % 2 ^ 8) (counter_message d)) s
  allocator_message :
      {text s : List ℕ} (store : Allocator.Store a)
      → is_local b ≡ true
      → Output b a text s
      → Output b a (text ++ map (λ c. c % 2 ^ 8) (a.message sizeof_node store)) s

-- The registers are at different addresses, as far as it matters for what is read off a history.
pub record IsApart (b : Board) : Type 0 where
  pub in_flags_out : (at b.stdout fr == at b.stdin dr) ≡ false
  pub in_flags_uart0 : (at b.uart0 fr == at b.stdin dr) ≡ false
  pub in_flags_in : (at b.stdin fr == at b.stdin dr) ≡ false
  pub in_status : (at b.stdin mis == at b.stdin dr) ≡ false
  pub in_counter : (counter_at b == at b.stdin dr) ≡ false
  pub in_iar : (at (gic_base b.periph) iar == at b.stdin dr) ≡ false
  pub status_flags_out : (at b.stdout fr == at b.stdin mis) ≡ false
  pub status_flags_uart0 : (at b.uart0 fr == at b.stdin mis) ≡ false
  pub status_flags_in : (at b.stdin fr == at b.stdin mis) ≡ false
  pub status_counter : (counter_at b == at b.stdin mis) ≡ false
  pub status_iar : (at (gic_base b.periph) iar == at b.stdin mis) ≡ false
  pub iar_flags_uart0 : (at b.uart0 fr == at (gic_base b.periph) iar) ≡ false
  pub iar_flags_in : (at b.stdin fr == at (gic_base b.periph) iar) ≡ false
  pub out_icr : (at b.stdin icr == at b.stdout dr) ≡ false
  pub out_eoir : (at (gic_base b.periph) eoir == at b.stdout dr) ≡ false

-- What the steps rely on: room in the transmit FIFOs, the handler's address, and no interrupt but the
-- serial line's.
pub record Environment (b : Board) (a : Allocator) : Type 0 where
  pub room : HasRoom b
  pub apart : IsApart b
  pub handler : (c : ℕ) → b.call b.handler_address c ≡ handler_uart0_irq b c
  pub known :
      (h : History)
      → (is_spurious (ack_intid (raised b a h)) ≡ true) ⊎ (ack_intid (raised b a h) ≡ uart0_irq)

-- One interrupt, or one round of the main loop.
pub data Step (b : Board) (a : Allocator) : Kernel b a → Kernel b a → Type 0 where
  interrupt : {k l : Kernel b a} → irq_handler b a k ≡ ok l → Step b a k l
  main_round : {k l : Kernel b a} → handl_all_pending_irq b a k ≡ ok l → Step b a k l

pub data Reach (b : Board) (a : Allocator) (k : Kernel b a) : Kernel b a → Type 0 where
  here : Reach b a k k
  next : {l m : Kernel b a} → Reach b a k l → Step b a l m → Reach b a k m
