-- ===== src/Kmain/System/Served.antt =====
-- The invariant of the steps, and that each of the two keeps it.
use mathlib.Core.List.{append-nil, append_assoc}
use mathlib.Core.Logic.{inl, inr}
use osa_kernel_arm_boot_step.Prelude.{
  ℕ, ◌^◌, ◌<◌, ◌≤◌, ◌≡◌, refl, sym, ap, ◌∙◌, true, List, [], ◌∷◌, ◌++◌, ◌==◌, leb, length,
  length-append, All, arith, Bool-cases, ◌%◌,
}
use osa_kernel_arm_boot_step.Mmio.{History, read}
use osa_kernel_arm_boot_step.PendingList.{
  Allocator, Entry, ok, max_nbr_pending_irq, sizeof_node, is_full_pending_irq_list,
}
use osa_kernel_arm_boot_step.PendingList.Queue.{Represents, Represents-length, Represents-node}
use osa_kernel_arm_boot_step.Kmain.{Board, Kernel, handl_all_pending_irq, irq_handler, current_irq}
use osa_kernel_arm_boot_step.Kmain.Echo.{echo, echo_all, sent_all, IsEcho}
use osa_kernel_arm_boot_step.Kmain.Counter.{handl_all_pending_irq-echo, counter_at, counter_message}
use osa_kernel_arm_boot_step.Kprintf.Digits.{Bytes}
use osa_kernel_arm_boot_step.Kprintf.Digits.Value.{value}
use osa_kernel_arm_boot_step.Kmain.Arrival.{
  not_full, current_irq-spurious, current_irq-arrival, arrived, has_byte, char, read_iar,
}
use osa_kernel_arm_boot_step.Kmain.System.{
  received, transmitted, is_local, Output, nothing, echoed, message, allocator_message, IsApart,
  Environment,
}
use osa_kernel_arm_boot_step.Kmain.System.Traffic.{
  local, received-added, transmitted-added, received-uart0, received-stdout, transmitted-uart0,
  transmitted-stdout,
}

-- The echo of characters in their order.
abbrev pub echoes : List ℕ → List ℕ
echoes [] = []
echoes (c ∷ s) = echo c ++ echoes s

echoes-snoc : (s : List ℕ) (c : ℕ) → echoes (s ++ c ∷ []) ≡ echoes s ++ echo c
echoes-snoc [] c = append-nil (echo c)
echoes-snoc (d ∷ s) c =
    ap (λ t. echo d ++ t) (echoes-snoc s c) ∙ sym (append_assoc (echo d) (echoes s) (echo c))

echo_all-snoc :
    (es : List Entry) (e : Entry) → echo_all (es ++ e ∷ []) ≡ echo_all es ++ echo e.received_char
echo_all-snoc [] e = append-nil (echo e.received_char)
echo_all-snoc (d ∷ es) e =
    ap (λ t. echo d.received_char ++ t) (echo_all-snoc es e)
    ∙ sym (append_assoc (echo d.received_char) (echo_all es) (echo e.received_char))

All-snoc :
    {A : Type 0} (P : A → Type 0) (xs : List A) (x : A) → All P xs → P x → All P (xs ++ x ∷ [])
All-snoc P [] x h p = (p, tt)
All-snoc P (y ∷ xs) x h p = (h.0, All-snoc P xs x h.1 p)

abbrev pub IsByte : Entry → Type 0
IsByte e = e.received_char < 2 ^ 8

echo_all-bytes : (es : List Entry) → All IsByte es → All (λ c. c < 2 ^ 8) (echo_all es)
echo_all-bytes [] h = tt
echo_all-bytes (e ∷ es) (h, hs) = elim (Bool-cases (e.received_char == 13)) [
  | inl cr ↦ rw cr (omega arith, (omega arith, echo_all-bytes es hs))
  | inr other ↦ rw other (h, echo_all-bytes es hs)
]

-- Since the kernel was `k0`, the bytes `rs` were received and `ts` was sent, of which `done` are
-- echoed bytes; the queue `es` holds the characters whose echo is still to come.
pub record Served (b : Board) (a : Allocator) (k0 k : Kernel b a) : Type 0 where
  pub rs : List ℕ
  pub ts : List ℕ
  pub done : List ℕ
  pub es : List Entry
  pub got : received b k.io ≡ received b k0.io ++ rs
  pub put : transmitted b k.io ≡ transmitted b k0.io ++ ts
  pub shape : Output b a ts done
  pub order : echoes rs ≡ done ++ echo_all es
  pub queue : Represents a k.pending k.store es
  pub handled : All (IsEcho b) es
  pub small : All IsByte es
  pub few : length es ≤ max_nbr_pending_irq

-- The message about the counter, where it goes to `stdout`.
shown-Output :
    (b : Board) (a : Allocator) (apart : IsApart b) (ts s : List ℕ) (d : Bytes) (n : ℕ)
    → value 16 0 d ≡ n % 2 ^ 32
    → Output b a ts s
    → Output b a (ts ++ local b apart (counter_message d)) s
shown-Output b a apart ts s d n val o = elim (Bool-cases (is_local b)) [
  | inl same ↦ rw same (message d n same val o)
  | inr other ↦ rw (other, append-nil ts) o
]

-- What the allocator prints, likewise.
reported-Output :
    (b : Board) (a : Allocator) (apart : IsApart b) (ts s : List ℕ) (store : Allocator.Store a)
    → Output b a ts s
    → Output b a (ts ++ local b apart (a.message sizeof_node store)) s
reported-Output b a apart ts s store o = elim (Bool-cases (is_local b)) [
  | inl same ↦ rw same (allocator_message store same o)
  | inr other ↦ rw (other, append-nil ts) o
]

char_small : (b : Board) (a : Allocator) (h : History) → char b a h < 2 ^ 8
char_small b a h = elim (Bool-cases (has_byte b a h)) [
  | inl e ↦ rw e (omega arith)
  | inr e ↦ rw e (omega arith)
]

module _ (b : Board) (a : Allocator) (env : Environment b a) (k0 : Kernel b a) where
  pub start-Served : Represents a k0.pending k0.store [] → Served b a k0 k0
  start-Served r = record {
    rs = [];
    ts = [];
    done = [];
    shape = nothing;
    es = [];
    got = sym (append-nil (received b k0.io));
    put = sym (append-nil (transmitted b k0.io));
    order = refl;
    queue = r;
    handled = tt;
    small = tt;
    few = omega arith;
  }

  -- A round of the main loop ends, and leaves nothing to be sent.
  pub main_round-Served :
      (k : Kernel b a)
      → Served b a k0 k
      → (k' : Kernel b a) × (v : Served b a k0 k') × (handl_all_pending_irq b a k ≡ ok k')
        × (v.es ≡ [])
  unfolding received transmitted
  main_round-Served k v =
      let (k', d, ends, empty, io, val) =
        handl_all_pending_irq-echo b a (env.room) k v.es v.queue v.handled in
      let start : History = read 32 (counter_at b) ∷ k.io in
      let got : received b k'.io ≡ received b k.io =
        ap (received b) io
        ∙ received-stdout b (env.apart) (echo_all v.es) (sent_all b.uart0 (counter_message d) start)
        ∙ received-uart0 b (env.apart) (counter_message d) start
        ∙ rw ((env.apart).in_counter, (env.apart).status_counter) refl in
      let shown : List ℕ = local b env.apart (counter_message d) in
      let put : transmitted b k'.io ≡ (transmitted b k.io ++ shown) ++ echo_all v.es =
        ap (transmitted b) io
        ∙ transmitted-stdout b (env.apart) (echo_all v.es)
            (sent_all b.uart0 (counter_message d) start) (echo_all-bytes v.es v.small)
        ∙ ap (λ t. t ++ echo_all v.es)
            (transmitted-uart0 b (env.apart) (counter_message d) start) in
      (
        k',
        record {
          rs = v.rs;
          ts = (v.ts ++ shown) ++ echo_all v.es;
          done = v.done ++ echo_all v.es;
          es = [];
          got = got ∙ v.got;
          put =
              put
              ∙ ap (λ t. (t ++ shown) ++ echo_all v.es) v.put
              ∙ ap (λ t. t ++ echo_all v.es) (append_assoc (transmitted b k0.io) v.ts shown)
              ∙ append_assoc (transmitted b k0.io) (v.ts ++ shown) (echo_all v.es);
          shape = echoed (echo_all v.es) (shown-Output b a env.apart v.ts v.done d _ val v.shape);
          order = v.order ∙ sym (append-nil (v.done ++ echo_all v.es));
          queue = empty;
          handled = tt;
          small = tt;
          few = omega arith;
        },
        ends,
        refl,
      )

  -- An interrupt whose handler finds room in the list.
  current-Served :
      (k : Kernel b a) (v : Served b a k0 k)
      → length v.es < max_nbr_pending_irq
      → (k' : Kernel b a) × (current_irq b a k ≡ ok k') × Served b a k0 k'
  unfolding received transmitted
  current-Served k v room = elim (env.known k.io) [
    | inl spurious ↦ (
      record k { io = read_iar b a k.io },
      current_irq-spurious b a k spurious,
      record {
        rs = v.rs;
        ts = v.ts;
        done = v.done;
        shape = v.shape;
        es = v.es;
        got = rw ((env.apart).in_iar, (env.apart).status_iar) v.got;
        put = v.put;
        order = v.order;
        queue = v.queue;
        handled = v.handled;
        small = v.small;
        few = v.few;
      },
    )
    | inr irq ↦
        let (p, t, node) = Represents-node a k.pending k.store v.es v.queue room in
        let (k', x, runs, longer, io, zero_bit) =
          current_irq-arrival b a (env.room).uart0 (env.room).polls k v.es p t v.queue room node
            irq in
        let c : ℕ = char b a k.io in
        let shown : List ℕ = local b env.apart (a.message sizeof_node k.store) in
        let got : received b k'.io ≡ received b k.io ++ c ∷ [] =
          ap (received b) io ∙ received-added b env.apart a k in
        let put : transmitted b k'.io ≡ transmitted b k.io ++ shown =
          ap (transmitted b) io
          ∙ rw ((env.apart).out_icr, (env.apart).out_eoir) (transmitted-added b env.apart a k) in
        (
          k',
          runs,
          record {
            rs = v.rs ++ c ∷ [];
            ts = v.ts ++ shown;
            done = v.done;
            shape = reported-Output b a env.apart v.ts v.done k.store v.shape;
            es = v.es ++ arrived b a k.io ∷ [];
            got = got ∙ ap (λ r. r ++ c ∷ []) v.got ∙ append_assoc (received b k0.io) v.rs (c ∷ []);
            put = put ∙ ap (λ t. t ++ shown) v.put ∙ append_assoc (transmitted b k0.io) v.ts shown;
            order =
                echoes-snoc v.rs c
                ∙ ap (λ r. r ++ echo c) v.order
                ∙ append_assoc v.done (echo_all v.es) (echo c)
                ∙ ap (λ r. v.done ++ r) (sym (echo_all-snoc v.es (arrived b a k.io)));
            queue = longer;
            handled = All-snoc (IsEcho b) v.es (arrived b a k.io) v.handled (refl, env.handler);
            small = All-snoc IsByte v.es (arrived b a k.io) v.small (char_small b a k.io);
            few = omega (arith, length-append v.es (arrived b a k.io ∷ []));
          },
        )
  ]

  full :
      (k k' : Kernel b a) (v : Served b a k0 k)
      → length v.es ≡ max_nbr_pending_irq
      → handl_all_pending_irq b a k ≡ ok k'
      → irq_handler b a k ≡ current_irq b a k'
  unfolding irq_handler is_full_pending_irq_list
  full k k' v e handled =
      let nb : k.pending.nb_pending_irq_request ≡ length v.es =
        Represents-length a _ _ v.es v.queue in
      let yes_full : leb max_nbr_pending_irq k.pending.nb_pending_irq_request ≡ true =
        ground arith in
      rw (irq_handler, yes_full, handled) refl

  -- An interrupt.
  pub interrupt-Served :
      (k : Kernel b a)
      → Served b a k0 k
      → (k' : Kernel b a) × (irq_handler b a k ≡ ok k') × Served b a k0 k'
  interrupt-Served k v = elim (Bool-cases (leb max_nbr_pending_irq (length v.es))) [
    | inl many ↦
        let (l, w, handled, empty) = main_round-Served k v in
        let none_left : length w.es ≡ 0 = ap length empty in
        let (k', runs, x) = current-Served l w (omega arith) in
        (k', full k l v (ground (arith, v.few)) handled ∙ runs, x)
    | inr room ↦
        let (k', runs, x) = current-Served k v (ground arith) in
        (k', not_full b a k v.es v.queue (ground arith) ∙ runs, x)
  ]
