-- ===== src/Kmain/Boot/Ends.antt =====
-- kmain.c: the boot comes to its loop.
use osa_kernel_arm_boot_step.Prelude.{
  ap, ◌∙◌, ℕ, suc, ◌+◌, ◌-◌, ◌^◌, ◌<◌, ◌≤◌, ◌≡◌, refl, Bool, true, false, some, List, [], arith,
  if◌then◌else◌,
}
use osa_kernel_arm_boot_step.Mmio.{History, Io, pure, ◌>>=◌, Device}
use osa_kernel_arm_boot_step.Uart.{uart_init, uart_send_string, uart_enable_irqs}
use osa_kernel_arm_boot_step.Uart.Send.{has_room, uart_send_string-sent}
use osa_kernel_arm_boot_step.Gid.{gid_base, cortex_a9_gid_init, cortex_a9_gid_enable_irq}
use osa_kernel_arm_boot_step.Gid.Init.{gid_init-IsReset}
use osa_kernel_arm_boot_step.Gic.{cortex_a9_gic_init}
use osa_kernel_arm_boot_step.Timer.{set_timmer}
use osa_kernel_arm_boot_step.Timer.Control.{set_timmer-control}
use osa_kernel_arm_boot_step.PendingList.{max_nbr_pending_irq, Allocator, ok, init_irq_pending_list}
use osa_kernel_arm_boot_step.PendingList.Queue.{Represents, empty-Represents}
use osa_kernel_arm_boot_step.Kmain.{Board, Kernel, put_text}
use osa_kernel_arm_boot_step.Kmain.Counter.{HasRoom, put_text-sent}
use osa_kernel_arm_boot_step.Kmain.Boot.{Startup, say, irq_init, init_uarts, greet, start_up, kmain}

-- From any history, the run ends.
abbrev pub Ends : {A : Type 0} → Io A → Type 0
Ends {A} m = (h : History) → (x : A) × (h' : History) × (m h ≡ some (x, h'))

Ends-bind :
    {A B : Type 0} (m : Io A) (k : A → Io B) → Ends m → ((x : A) → Ends (k x)) → Ends (m >>= k)
Ends-bind m k em ek h = let (x, h1, e) = em h in let (y, h2, f) = ek x h1 in (y, h2, rw e f)

Ends-if : (local : Bool) (m : Io (Unit {0})) → Ends m → Ends (if local then pure tt else m)
Ends-if true m em h = (tt, h, refl)
Ends-if false m em h = em h

Ends-string :
    (dev : Device) (uart fuel : ℕ) (s : List ℕ)
    → ((g : History) → has_room dev uart g ≡ true)
    → 0 < fuel
    → Ends (uart_send_string dev uart fuel s)
Ends-string dev uart fuel s ready polls h =
    let same : fuel ≡ suc (fuel - 1) = omega (arith, polls) in
    let (h', run, sent) = uart_send_string-sent dev uart (fuel - 1) s h ready in
    (tt, h', ap (λ f. uart_send_string dev uart f s h) same ∙ run)

module _ (b : Board) where
  Ends-uart_init : (uart : ℕ) → Ends (uart_init b.dev uart)
  unfolding uart_init
  Ends-uart_init uart h = (tt, _, refl)

  Ends-enable_irqs : (irqs : ℕ) → Ends (uart_enable_irqs b.dev b.stdin irqs)
  unfolding uart_enable_irqs
  Ends-enable_irqs irqs h = (tt, _, refl)

  Ends-gic_init : Ends (cortex_a9_gic_init b.periph b.dev)
  unfolding cortex_a9_gic_init
  Ends-gic_init h = (tt, _, refl)

  Ends-gid_enable_irq : (irq : ℕ) → Ends (cortex_a9_gid_enable_irq b.periph irq)
  unfolding cortex_a9_gid_enable_irq
  Ends-gid_enable_irq irq h = (tt, _, refl)

  module _ (room : HasRoom b) where
    Ends-say : (s : List ℕ) → Ends (say b s)
    unfolding say
    Ends-say s = Ends-string b.dev b.stdout b.fuel s room.stdout room.polls

    module _ (fits : gid_base b.periph + 0x1000 ≤ 2 ^ 32) where
      Ends-gid_init : Ends (cortex_a9_gid_init b.periph b.dev)
      Ends-gid_init h =
          let (h', run, reset) = gid_init-IsReset b.periph fits b.dev h in (tt, _, run)

      Ends-irq_init : Ends (irq_init b)
      unfolding irq_init say
      Ends-irq_init = Ends-bind _ _ Ends-gid_init (λ _. Ends-bind _ _ (Ends-say _) (λ _.
          Ends-bind _ _ Ends-gic_init (λ _.
            Ends-bind _ _ (Ends-say _)
              (λ _. Ends-bind _ _ (Ends-enable_irqs _) (λ _. Ends-gid_enable_irq _)))))

      module _ {a : Allocator} (u : Startup a)
          (ready : (h : History) → has_room b.dev b.stdin h ≡ true)
          (users : (pid : ℕ) → Ends (u.umain pid)) (pos : 0 < b.periph)
          (region : b.periph + 0x7000 ≤ 2 ^ 32) where
        Ends-init_uarts : Ends (init_uarts b u)
        unfolding init_uarts
        Ends-init_uarts =
            Ends-bind _ _ (Ends-uart_init b.stdin)
              (λ _. Ends-if u.local_echo (uart_init b.dev b.stdout) (Ends-uart_init b.stdout))

        Ends-greet : Ends (greet b u)
        unfolding greet say
        Ends-greet = Ends-bind _ _ (Ends-say _) (λ _.
            Ends-bind _ _ (Ends-string b.dev b.stdin b.fuel _ ready room.polls)
              (λ _. Ends-if u.local_echo (say b _) (Ends-say _)))

        Ends-set_timmer : Ends (set_timmer b.dev b.periph b.periph (2 ^ 32 - 1) 0)
        Ends-set_timmer h =
            let (h', run, control) =
              set_timmer-control b.periph pos region b.dev b.periph (2 ^ 32 - 1) 0 h in
            (tt, h', run)

        Ends-start_up : Ends (start_up b u)
        unfolding start_up say
        Ends-start_up = Ends-bind _ _ (users 32) (λ _. Ends-bind _ _ (users 16) (λ _.
            Ends-bind _ _ (Ends-say _) (λ _. Ends-bind _ _ Ends-set_timmer (λ _. Ends-say _))))

        -- With memory for three nodes, the boot comes to its loop, with no pending interrupt.
        pub kmain-ends :
            (k : Kernel b a) (s : Allocator.Store a)
            → u.space_valloc_init k.store ≡ some s
            → a.used s + max_nbr_pending_irq ≤ a.limit
            → (k0 : Kernel b a) × (kmain b u k ≡ ok k0) × Represents a k0.pending k0.store []
        unfolding kmain
        kmain-ends k s heap memory =
            let (x1, h1, r1) = Ends-init_uarts k.io in
            let (x2, h2, r2) =
              Ends-bind (put_text b (u.init_message s))
                (λ _. greet b u >>= λ _. irq_init b >>= λ _. start_up b u)
                (λ h. (tt, _, put_text-sent b room.uart0 room.polls (u.init_message s) h))
                (λ _.
                  Ends-bind (greet b u) (λ _. irq_init b >>= λ _. start_up b u) Ends-greet
                    (λ _.
                      Ends-bind (irq_init b) (λ _. start_up b u) Ends-irq_init
                        (λ _. Ends-start_up)))
                h1 in
            (
              record { pending = init_irq_pending_list k.pending; store = s; io = h2 },
              rw (kmain, r1, heap, r2) refl,
              empty-Represents a k.pending s memory,
            )
