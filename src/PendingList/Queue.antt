-- ===== src/PendingList/Queue.antt =====
-- kirqPendingList.c: the queue that the linked nodes stand for, and `addPendingIrq`.
use mathlib.Core.Path.{ap₂}
use mathlib.Core.List.{map, reverse, reverse-append}
use osa_kernel_arm_boot_step.Prelude.{
  ◌+◌, ◌<◌, ◌≤◌, ◌≡◌, refl, sym, ap, ◌∙◌, true, false, some, List, [], ◌∷◌, ◌++◌, leb, update,
  length, All, Absent, arith,
}
use osa_kernel_arm_boot_step.Kmem.State.{Ptr}
use osa_kernel_arm_boot_step.Kmem.Chain.{Chain, Chain-frame, All-of_Absent}
use osa_kernel_arm_boot_step.PendingList.Nodes.{
  node_next, node_entry, length-reverse-map, map-congr, Absent-of_All, All-at,
}
use osa_kernel_arm_boot_step.PendingList.{
  Allocator, Entry, Pending, ok, max_nbr_pending_irq, sizeof_node, add_pending_irq,
  init_irq_pending_list,
}

module _ (a : Allocator) where
  open a use {Store, kmalloc, kfree, live, used}

  -- The nodes in memory hold the queue `es`, the oldest entry first, and there is memory for the
  -- nodes that the list may still get.
  pub record Represents (q : Pending) (s : Store) (es : List Entry) : Type 0 where
    pub nodes : List Ptr
    pub chain : Chain (node_next q) q.irq_pending_list nodes
    pub count : q.nb_pending_irq_request ≡ length nodes
    pub in_use : All (λ p. live s p ≡ true) nodes
    pub memory : used s + max_nbr_pending_irq ≤ a.limit + length nodes
    pub entries : reverse (map (node_entry q) nodes) ≡ es

  -- The counter is the length of the queue.
  pub Represents-length :
      (q : Pending) (s : Store) (es : List Entry)
      → Represents q s es
      → q.nb_pending_irq_request ≡ length es
  Represents-length q s es r =
      r.count ∙ sym (length-reverse-map (node_entry q) r.nodes) ∙ ap length r.entries

  -- An empty queue, where there is memory for its nodes.
  pub empty-Represents :
      (q : Pending) (s : Store)
      → used s + max_nbr_pending_irq ≤ a.limit
      → Represents (init_irq_pending_list q) s []
  unfolding init_irq_pending_list
  empty-Represents q s room = record {
    nodes = [];
    chain = refl;
    count = refl;
    in_use = tt;
    memory = omega arith;
    entries = refl;
  }

  -- There is memory for one more node.
  pub Represents-node :
      (q : Pending) (s : Store) (es : List Entry)
      → Represents q s es
      → length es < max_nbr_pending_irq
      → (p : Ptr) × (t : Store) × (kmalloc sizeof_node s ≡ some (p, t))
  Represents-node q s es r room =
      a.kmalloc_succeeds s (omega (arith, r.memory, r.count, Represents-length q s es r))

  module _ (q : Pending) (s t : Store) (e : Entry) (es : List Entry) (p : Ptr)
      (r : Represents q s es) where
    unfoldable pub linked : Pending
    linked = record q {
      node = update q.node p (record { entry = e; next = q.irq_pending_list });
      irq_pending_list = p;
      nb_pending_irq_request = q.nb_pending_irq_request + 1;
    }

    -- The older nodes are linked as before, and the new one is none of them.
    pub linked-Chain :
        kmalloc sizeof_node s ≡ some (p, t)
        → Absent p r.nodes × Chain (node_next linked) q.irq_pending_list r.nodes
    unfolding linked
    linked-Chain h =
        let fresh = Absent-of_All (live s) p r.nodes (a.kmalloc_fresh _ s p t h) r.in_use in
        (
          fresh,
          Chain-frame (node_next q) (node_next linked) q.irq_pending_list r.nodes r.chain
              (All-of_Absent _ p r.nodes fresh (λ x ne. ground arith)),
        )

    -- The new node in front of the older ones.
    pub linked-nodes :
        kmalloc sizeof_node s ≡ some (p, t)
        → Chain (node_next linked) linked.irq_pending_list (p ∷ r.nodes)
          × (linked.nb_pending_irq_request ≡ length (p ∷ r.nodes))
    unfolding linked
    linked-nodes h =
        let (fresh, older) = linked-Chain h in
        let head : node_next linked p ≡ q.irq_pending_list = ground arith in
        ((refl, a.kmalloc-ne-null _ s p t h, fresh, rw head older), omega (arith, r.count))

    pub linked-Represents : kmalloc sizeof_node s ≡ some (p, t) → Represents linked t (es ++ e ∷ [])
    unfolding linked
    linked-Represents h =
        let (fresh, older) = linked-Chain h in
        let entry : node_entry linked p ≡ e = ground arith in
        let old : map (node_entry linked) r.nodes ≡ map (node_entry q) r.nodes =
          map-congr _ _ r.nodes (All-of_Absent _ p r.nodes fresh (λ x ne. ground arith)) in
        record {
          nodes = p ∷ r.nodes;
          chain = (linked-nodes h).0;
          count = (linked-nodes h).1;
          in_use = (
            ground (arith, a.kmalloc-live _ s p t p h),
            All-at (live s) (live t) r.nodes p fresh
                (λ x ne. ground (arith, a.kmalloc-live _ s p t x h)) r.in_use,
          );
          memory = omega (arith, r.memory, a.kmalloc-used _ s p t h);
          entries =
              reverse-append (node_entry linked p ∷ []) (map (node_entry linked) r.nodes)
              ∙ ap₂ (λ (x : List Entry) y. reverse x ++ y ∷ []) old entry
              ∙ ap (λ x. x ++ e ∷ []) r.entries;
        }

    pub add_pending_irq-linked :
        length es < max_nbr_pending_irq
        → kmalloc sizeof_node s ≡ some (p, t)
        → add_pending_irq a e q s ≡ ok (linked, t)
    unfolding add_pending_irq linked
    add_pending_irq-linked room h =
        let nb : q.nb_pending_irq_request ≡ length es = Represents-length q s es r in
        let free : leb max_nbr_pending_irq q.nb_pending_irq_request ≡ false = ground arith in
        rw (free, h) refl

    -- With room in the list and a node from the allocator, the entry becomes the last of the queue.
    pub add_pending_irq-append :
        length es < max_nbr_pending_irq
        → kmalloc sizeof_node s ≡ some (p, t)
        → (q' : Pending) × (add_pending_irq a e q s ≡ ok (q', t)) × Represents q' t (es ++ e ∷ [])
    add_pending_irq-append room h = (linked, add_pending_irq-linked room h, linked-Represents h)
