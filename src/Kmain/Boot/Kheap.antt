-- ===== src/Kmain/Boot/Kheap.antt =====
-- kmain.c on the kernel's own allocator: from the boot, which initialises the heap of kmem.c, to any
-- round of the main loop.
use osa_kernel_arm_boot_step.Prelude.{ℕ, ◌≡◌, Bool, Option, none, some, List, [], ◌∷◌}
use osa_kernel_arm_boot_step.Mmio.{Io}
use osa_kernel_arm_boot_step.Kmem.State.{Ptr, Mem, Linker, returned}
use osa_kernel_arm_boot_step.Kmem.Report.{init_report}
use osa_kernel_arm_boot_step.Kprintf.Digits.{Bytes}
use osa_kernel_arm_boot_step.Kmem.Sound.{IsRegion, IsSound}
use osa_kernel_arm_boot_step.Kmem.Init.{space_valloc_init}
use osa_kernel_arm_boot_step.Kmem.Init.Whole.{header_of}
use osa_kernel_arm_boot_step.Kmem.Init.Sound.{space_valloc_init-IsSound}
use osa_kernel_arm_boot_step.PendingList
use osa_kernel_arm_boot_step.PendingList.Kheap.{Kheap, raw, heap, kheap}
use osa_kernel_arm_boot_step.Kmain.Boot.{Startup}
use osa_kernel_arm_boot_step.Kmain.Boot.Ends.{Ends}

module _ (l : Linker) (r : IsRegion l) where
  -- The heap behind `space_valloc_init`.
  pub initialised : (m : Mem) → (m.alloc).nchunks ≡ 0 → Kheap l
  initialised m no_chunk =
      let x =
        returned (λ _ m'. (fs : List Ptr) × IsSound l m' [] [] (header_of l.kheap_low ∷ []) fs)
          (space_valloc_init l m) (space_valloc_init-IsSound l r m no_chunk) in
      heap x.1 [] (record {
        hs = [];
        ps = header_of l.kheap_low ∷ [];
        fs = (x.2).0;
        sound = (x.2).1;
        granted = record { room = λ c i. absurd (i tt); own = λ c y i iy lt. absurd (i tt) };
      })

  -- The boot calls it once.
  abbrev pub heap_init : Kheap l → Option (Kheap l)
  heap_init (raw m no_chunk) = some (initialised m no_chunk)
  heap_init (heap m ls w) = none

  abbrev pub heap_message : Kheap l → Bytes
  heap_message (raw m no_chunk) = []
  heap_message (heap m ls w) = init_report m

  abbrev pub kernel_startup : Bool → (ℕ → Io (Unit {0})) → Startup (kheap l r)
  kernel_startup local_echo umain = record {
    local_echo = local_echo;
    space_valloc_init = heap_init;
    init_message = heap_message;
    umain = umain;
  }
