-- ===== src/PendingList/Tests.antt =====
-- The queue's theorems on an empty list and on two entries.
use osa_kernel_arm_boot_step.Prelude.{
  ◌≡◌, refl, true, false, some, [], ◌∷◌, ◌==◌, if◌then◌else◌, update, arith,
}
use osa_kernel_arm_boot_step.Kmem.State.{null}
use osa_kernel_arm_boot_step.PendingList.{
  Entry, Pending, ok, add_pending_irq, get_and_remove_pending_irq, init_irq_pending_list,
}
use osa_kernel_arm_boot_step.PendingList.Bump.{Bumped, bump}
use osa_kernel_arm_boot_step.PendingList.Queue.{
  Represents, empty-Represents, add_pending_irq-append,
}
use osa_kernel_arm_boot_step.PendingList.Removal.{get_and_remove_pending_irq-cons}
use osa_kernel_arm_boot_step.PendingList.Race.{
  interrupted_removal, interrupted_removal-several, interrupted_removal-lost,
}

abbrev key_a : Entry
key_a = record { irq_id = 37; received_char = b'a'; handler = 0x8000 }

abbrev key_b : Entry
key_b = record { irq_id = 37; received_char = b'b'; handler = 0x8000 }

abbrev two_keys : Pending
two_keys = record {
  node = λ p.
      if p == 2 then record { entry = key_b; next = 1 } else record { entry = key_a; next = null };
  irq_pending_list = 2;
  nb_pending_irq_request = 2;
}

abbrev unused : Bumped
unused = (0, λ p. false)

abbrev two_used : Bumped
two_used = (2, λ p. true)

two_keys-Represents : Represents bump two_keys two_used (key_a ∷ key_b ∷ [])
two_keys-Represents = record {
  nodes = 2 ∷ 1 ∷ [];
  chain = (refl, omega arith, (omega arith, tt), (refl, omega arith, tt, refl));
  count = refl;
  in_use = (refl, (refl, tt));
  memory = omega arith;
  entries = refl;
}

add_pending_irq-append_example :
    (q' : Pending) × (add_pending_irq bump key_a (init_irq_pending_list two_keys) unused
      ≡ ok (q', (1, update (λ p. false) 1 true)))
    × Represents bump q' (1, update (λ p. false) 1 true) (key_a ∷ [])
add_pending_irq-append_example =
    add_pending_irq-append bump (init_irq_pending_list two_keys) unused
      (1, update (λ p. false) 1 true) key_a [] 1
      (empty-Represents bump two_keys unused (omega arith)) (omega arith) refl

get_and_remove_pending_irq-cons_example :
    (q' : Pending) × (t : Bumped) × (get_and_remove_pending_irq bump two_keys two_used
      ≡ ok (some key_a, q', t))
    × Represents bump q' t (key_b ∷ [])
get_and_remove_pending_irq-cons_example =
    get_and_remove_pending_irq-cons bump two_keys two_used key_a (key_b ∷ []) two_keys-Represents

abbrev key_c : Entry
key_c = record { irq_id = 37; received_char = b'c'; handler = 0x8000 }

interrupted_removal-several_example :
    (q' : Pending) × (u : Bumped) × (interrupted_removal bump key_c two_keys two_used
      ≡ ok (some key_a, q', u))
    × Represents bump q' u (key_b ∷ key_c ∷ [])
interrupted_removal-several_example =
    interrupted_removal-several bump two_keys two_used (3, update (λ p. true) 3 true) key_c 3 key_a
      key_b [] two_keys-Represents (omega arith) refl

abbrev one_key : Pending
one_key = record {
  node = λ p. record { entry = key_a; next = null };
  irq_pending_list = 1;
  nb_pending_irq_request = 1;
}

one_key-Represents : Represents bump one_key (1, λ p. true) (key_a ∷ [])
one_key-Represents = record {
  nodes = 1 ∷ [];
  chain = (refl, omega arith, tt, refl);
  count = refl;
  in_use = (refl, tt);
  memory = omega arith;
  entries = refl;
}

interrupted_removal-lost_example :
    (q' : Pending) × (u : Bumped) × (interrupted_removal bump key_b one_key (1, λ p. true)
      ≡ ok (some key_a, q', u))
    × (q'.irq_pending_list ≡ null)
    × (q'.nb_pending_irq_request ≡ 1)
    × (bump.live u 2 ≡ true)
interrupted_removal-lost_example =
    interrupted_removal-lost bump one_key (1, λ p. true) (2, update (λ p. true) 2 true) key_b 2
      key_a one_key-Represents refl
