-- ===== src/Kmem/Own.antt =====
-- kmem.c: the bytes that a chunk was asked for, which are its own beside all other chunks and holes.
use osa_kernel_arm_boot_step.Prelude.{
  refl, ℕ, ◌+◌, ◌≤◌, ◌<◌, ◌≡◌, ◌⊎◌, inl, inr, List, ◌∷◌, arith, Bool-cases, ◌==◌, true, false,
  update, Absent,
}
use mathlib.Core.Path.{subst}
use osa_kernel_arm_boot_step.Kmem.State.{Ptr, Mem, sizeof_chunk}
use osa_kernel_arm_boot_step.Kmem.Chain.{hole_size}
use osa_kernel_arm_boot_step.Kmem.Members.{In, In-cons}
use osa_kernel_arm_boot_step.Kmem.Sound.{IsChunk}

-- The chunk `c` is new beside the chunks `ls` and the holes `hs`, of which `hs'` are left. Its header
-- and `size` bytes end before the next header, and it begins behind the header and the bytes of any
-- chunk in use that were its own.
pub record IsOwn (m : Mem) (ls hs : List Ptr) (size : ℕ) (c : Ptr) (hs' : List Ptr) : Type 0 where
  pub old : (x : Ptr) → IsChunk (c ∷ ls) hs' x → (x ≡ c) ⊎ IsChunk ls hs x
  pub after : (x : Ptr) → IsChunk (c ∷ ls) hs' x → c < x → c + sizeof_chunk + size ≤ x
  pub before :
      (d : Ptr) (n : ℕ)
      → In d ls
      → n ≤ hole_size m d
      → ((x : Ptr) → IsChunk ls hs x → d < x → d + sizeof_chunk + n ≤ x)
      → d < c
      → d + sizeof_chunk + n ≤ c

-- A chunk `c` in use has room for the `r c` bytes that it was asked for, and its header and these
-- bytes end before the header of the next chunk or hole.
pub record IsGranted (m : Mem) (ls hs : List Ptr) (r : Ptr → ℕ) : Type 0 where
  pub room : (c : Ptr) → In c ls → r c ≤ hole_size m c
  pub own : (c x : Ptr) → In c ls → IsChunk ls hs x → c < x → c + sizeof_chunk + r c ≤ x

-- The new chunk joins those that were granted before.
pub IsOwn-IsGranted :
    (m m' : Mem) (ls hs hs' : List Ptr) (size : ℕ) (c : Ptr) (r : Ptr → ℕ)
    → IsGranted m ls hs r
    → IsOwn m ls hs size c hs'
    → Absent c ls
    → size ≤ hole_size m' c
    → ((d : Ptr) → In d ls → hole_size m' d ≡ hole_size m d)
    → IsGranted m' (c ∷ ls) hs' (update r c size)
IsOwn-IsGranted m m' ls hs hs' size c r g o out room sizes = record {
  room = λ d i. elim (Bool-cases (c == d)) [
    | inl e ↦
        let cd : c ≡ d = ground arith in subst (λ a. update r c size a ≤ hole_size m' a) cd new-room
    | inr ne ↦ rw ne (let j = still d ne i in omega (arith, g.room d j, sizes d j))
  ];
  own = λ d x i ix lt. elim (Bool-cases (c == d)) [
    | inl e ↦
        let cd : c ≡ d = ground arith in
        rw e (omega (arith, o.after x ix (omega (arith, cd, lt)), cd))
    | inr ne ↦ rw ne (
        let j = still d ne i in
        elim (o.old x ix) [
          | inl same ↦
              let step =
                o.before d (r d) j (g.room d j) (λ y iy. g.own d y j iy)
                  (omega (arith, same, lt)) in
              omega (arith, same, step)
          | inr other ↦ g.own d x j other lt
        ])
  ];
}
  where
    self : (c == c) ≡ true
    self = ground arith

    new-room : update r c size c ≤ hole_size m' c
    new-room = rw self room

    still : (d : Ptr) → (c == d) ≡ false → In d (c ∷ ls) → In d ls
    still d ne i = elim (In-cons d c ls i) [ inl e ↦ absurd (ground (arith, e, ne)) | inr j ↦ j ]

-- Fewer bytes are its own too.
pub IsOwn-mono :
    (m : Mem) (ls hs hs' : List Ptr) (n k : ℕ) (c : Ptr)
    → n ≤ k
    → IsOwn m ls hs k c hs'
    → IsOwn m ls hs n c hs'
IsOwn-mono m ls hs hs' n k c le o = record {
  old = o.old;
  after = λ x i lt. omega (arith, o.after x i lt);
  before = o.before;
}

-- A freed chunk becomes a hole, and the others keep what was granted.
pub IsGranted-freed :
    (m m' : Mem) (ls ls' hs hs' : List Ptr) (r : Ptr → ℕ)
    → ((c : Ptr) → In c ls' → In c ls)
    → ((x : Ptr) → IsChunk ls' hs' x → IsChunk ls hs x)
    → ((a : Ptr) → hole_size m' a ≡ hole_size m a)
    → IsGranted m ls hs r
    → IsGranted m' ls' hs' r
IsGranted-freed m m' ls ls' hs hs' r used old sizes g = record {
  room = λ c i. omega (arith, g.room c (used c i), sizes c);
  own = λ c x i ix lt. g.own c x (used c i) (old x ix) lt;
}

-- What the clean-up drops before is not in the way.
pub IsOwn-before :
    (m m' : Mem) (ls hs0 hs : List Ptr) (size : ℕ) (c : Ptr)
    → ((x : Ptr) → In x hs → In x hs0)
    → ((d : Ptr) → In d ls → hole_size m' d ≡ hole_size m d)
    → IsOwn m' ls hs size c hs
    → IsOwn m ls hs0 size c hs
IsOwn-before m m' ls hs0 hs size c fewer sizes o = record {
  old = λ x i. elim (o.old x i) [ inl e ↦ inl e | inr j ↦ inr (wider x j) ];
  after = o.after;
  before = λ d n i small own lt.
      o.before d n i (omega (arith, small, sizes d i)) (λ x ix. own x (wider x ix)) lt;
}
  where
    wider : (x : Ptr) → IsChunk ls hs x → IsChunk ls hs0 x
    wider x (inl i) = inl i
    wider x (inr i) = inr (fewer x i)

-- Where every chunk was asked for `n` bytes at least, so was the new one.
pub IsOwn-alike :
    (m m' : Mem) (ls hs hs' : List Ptr) (n size : ℕ) (c : Ptr)
    → IsGranted m ls hs (λ a. n)
    → IsOwn m ls hs size c hs'
    → n ≤ size
    → Absent c ls
    → size ≤ hole_size m' c
    → ((d : Ptr) → In d ls → hole_size m' d ≡ hole_size m d)
    → IsGranted m' (c ∷ ls) hs' (λ a. n)
IsOwn-alike m m' ls hs hs' n size c g o le out room sizes =
    let all =
      IsOwn-IsGranted m m' ls hs hs' n c (λ a. n) g (IsOwn-mono m ls hs hs' n size c le o) out
        (omega (arith, le, room)) sizes in
    record {
      room = λ d i. omega (arith, all.room d i, same d);
      own = λ d x i ix lt. omega (arith, all.own d x i ix lt, same d);
    }
  where
    same : (d : Ptr) → update (λ a. n) c n d ≡ n
    same d = elim (Bool-cases (c == d)) [ inl e ↦ rw e refl | inr e ↦ rw e refl ]
