-- ===== src/PendingList.antt =====
-- kirqPendingList.c and kirqPendingList.h: the list of interrupts that wait to be handled. New
-- entries go in front, and the oldest is taken from the back. The nodes come from the kernel's
-- allocator, which is an interface here.
pub mod Nodes
pub mod Queue
pub mod Removal
pub mod Bump
pub mod Race
pub mod Data
pub mod Kheap
mod Tests
use osa_kernel_arm_boot_step.Prelude.{
  ℕ, zero, suc, ◌+◌, ◌-◌, ◌≤◌, ◌<◌, ◌≡◌, ◌≢◌, Bool, true, false, Option, none, some, leb, ◌==◌,
  if◌then◌else◌, update,
}
use osa_kernel_arm_boot_step.Kmem.State.{Ptr, null}
use osa_kernel_arm_boot_step.Kprintf.Digits.{Bytes}

abbrev pub max_nbr_pending_irq : ℕ
max_nbr_pending_irq = 3

-- The size of `kIrqPendingList`: 4 + 1 + 4 + 4 bytes packed
abbrev pub sizeof_node : ℕ
sizeof_node = 13

-- What the list needs of `kmalloc` and `kfree`: a call of `kmalloc` that returns gives an address
-- that is not in use, and with fewer than `limit` chunks in use a call for a node returns. `none` is
-- a call that halts the kernel; `message` is what the call prints on UART0.
pub record Allocator : Type 1 where
  pub Store : Type 0
  pub kmalloc : ℕ → Store → Option (Ptr × Store)
  pub kfree : Ptr → Store → Store
  pub message : ℕ → Store → Bytes
  pub live : Store → Ptr → Bool
  pub used : Store → ℕ
  pub limit : ℕ
  pub kmalloc-ne-null :
      (n : ℕ) (s : Store) (p : Ptr) (t : Store) → kmalloc n s ≡ some (p, t) → p ≢ null
  pub kmalloc_fresh :
      (n : ℕ) (s : Store) (p : Ptr) (t : Store) → kmalloc n s ≡ some (p, t) → live s p ≡ false
  pub kmalloc-live :
      (n : ℕ) (s : Store) (p : Ptr) (t : Store) (q : Ptr)
      → kmalloc n s ≡ some (p, t)
      → live t q ≡ (if p == q then true else live s q)
  pub kfree-live :
      (p : Ptr) (s : Store) (q : Ptr) → live (kfree p s) q ≡ (if p == q then false else live s q)
  pub kmalloc-used :
      (n : ℕ) (s : Store) (p : Ptr) (t : Store) → kmalloc n s ≡ some (p, t) → used t ≤ used s + 1
  pub kfree-used : (p : Ptr) (s : Store) → live s p ≡ true → used (kfree p s) + 1 ≤ used s
  pub kmalloc_succeeds :
      (s : Store) → used s < limit → (p : Ptr) × (t : Store) × (kmalloc sizeof_node s ≡ some (p, t))

-- `kIrqPendingEntry`; the handler is the address of a function.
pub record Entry : Type 0 where
  pub irq_id : ℕ
  pub received_char : ℕ
  pub handler : Ptr

-- `kIrqPendingList`
pub record Node : Type 0 where
  pub entry : Entry
  pub next : Ptr

-- The two globals, and the nodes in memory.
pub record Pending : Type 0 where
  pub node : Ptr → Node
  pub irq_pending_list : Ptr
  pub nb_pending_irq_request : ℕ

-- Why the kernel halted, if it did.
pub data Halt : Type 0 where
  overflow : Halt
  no_memory : Halt
  unknown_irq : Halt

pub data Result (A : Type 0) : Type 0 where
  ok : A → Result A
  halted : Halt → Result A
  out_of_fuel : Result A

unfoldable pub init_irq_pending_list : Pending → Pending
init_irq_pending_list q = record q { irq_pending_list = null; nb_pending_irq_request = 0 }

unfoldable pub is_full_pending_irq_list : Pending → Bool
is_full_pending_irq_list q = leb max_nbr_pending_irq q.nb_pending_irq_request

-- The last two nodes; the walk stops at a node with no successor.
unfoldable pub walk : ℕ → (prev tmp : Ptr) → Pending → Option (Ptr × Ptr)
walk zero prev tmp q = none
walk (suc fuel) prev tmp q =
    let rest = walk fuel tmp (q.node tmp).next q in
    if (q.node tmp).next == null then some (prev, tmp) else rest

-- What `getAndRemovePendingIrq` does at the last node, behind the call of `kfree`.
unfoldable pub cut_last : (prev : Ptr) → Pending → Pending
cut_last prev q =
    let shorter = record q { nb_pending_irq_request = q.nb_pending_irq_request - 1 } in
    if prev == null
    then record shorter { irq_pending_list = null }
    else record shorter { node = update q.node prev (record (q.node prev) { next = null }) }

module _ (a : Allocator) where
  open a use {Store, kmalloc, kfree}

  unfoldable pub add_pending_irq : Entry → Pending → Store → Result (Pending × Store)
  add_pending_irq entry q s =
      let link : Ptr × Store → Result (Pending × Store) = λ (fresh, t). ok (
        record q {
          node = update q.node fresh (record { entry = entry; next = q.irq_pending_list });
          irq_pending_list = fresh;
          nb_pending_irq_request = q.nb_pending_irq_request + 1;
        },
        t,
      ) in
      if leb max_nbr_pending_irq q.nb_pending_irq_request
      then halted overflow
      else elim (kmalloc sizeof_node s) [ none ↦ halted no_memory | some r ↦ link r ]

  -- `none` is the result 0: nothing is pending.
  pub get_and_remove_pending_irq : Pending → Store → Result (Option Entry × Pending × Store)
  unfolding walk cut_last
  get_and_remove_pending_irq q s =
      if q.nb_pending_irq_request == 0
      then ok (none, q, s)
      else elim (walk q.nb_pending_irq_request null q.irq_pending_list q) [
        | none ↦ out_of_fuel
        | some (prev, tmp) ↦ ok (some (q.node tmp).entry, cut_last prev q, kfree tmp s)
      ]
