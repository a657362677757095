-- ===== src/Kmem/Requests.antt =====
-- kmem.c: the allocator behind its functions: a client that asks for chunks and gives them back.
use osa_kernel_arm_boot_step.Prelude.{
  ℕ, zero, suc, ◌+◌, ◌≤◌, ◌<◌, ◌≡◌, refl, ap, ◌∙◌, List, [], ◌∷◌, Option, none, some, arith, length,
  All, inl, inr, sym, update,
}
use osa_kernel_arm_boot_step.Kmem.State.{
  Ptr, Mem, Linker, Cmd, ok, and_then, ◌>>=◌, max_hole_size, chunk_data, chunk_of,
  sizeof_space_page, Ends-mono, Safe, Safe-and_then, Safe-mono, Returns-Safe,
}
use osa_kernel_arm_boot_step.Kmem.Chain.{hole_size}
use osa_kernel_arm_boot_step.Kmem.Members.{In, In-cons, In-keep, Distinct, remove}
use mathlib.Core.Path.{subst}
use osa_kernel_arm_boot_step.Kmem.Own.{IsGranted, IsOwn-IsGranted, IsGranted-freed}
use osa_kernel_arm_boot_step.Kmem.Sound.{IsRegion, IsSound, IsChunk, pages_of, bytes}
use osa_kernel_arm_boot_step.Kmem.Bounds.{chunk-IsInside, chunk_of-chunk_data}
use osa_kernel_arm_boot_step.Kmem.Init.{space_valloc_init}
use osa_kernel_arm_boot_step.Kmem.Init.Whole.{header_of}
use osa_kernel_arm_boot_step.Kmem.Init.Sound.{space_valloc_init-IsSound}
use osa_kernel_arm_boot_step.Kmem.Malloc.{kmalloc}
use osa_kernel_arm_boot_step.Kmem.Malloc.Sound.{IsGiven, kmalloc-IsGiven}
use osa_kernel_arm_boot_step.Kmem.Free.{kfree}
use osa_kernel_arm_boot_step.Kmem.Free.Sound.{kfree-IsSound}

-- `free i` gives back the chunk that is the `i`-th of those in use, the newest first.
pub data Request : Type 0 where
  malloc : ℕ → Request
  free : ℕ → Request

abbrev pub get_elem? : List Ptr → ℕ → Option Ptr
get_elem? [] i = none
get_elem? (c ∷ ls) zero = some c
get_elem? (c ∷ ls) (suc i) = get_elem? ls i

-- The client: the headers of the chunks in use, the newest first, and what each was asked for.
pub record Client : Type 0 where
  pub chunks : List Ptr
  pub asked : Ptr → ℕ

abbrev pub no_chunks : Client
no_chunks = record { chunks = []; asked = λ c. 0 }

unfoldable pub give_back : Linker → Client → Option Ptr → Cmd Client
give_back l x none = ok x
give_back l x (some c) = do
  _ ← kfree l (chunk_data c)
  ok (record { chunks = remove c x.chunks; asked = x.asked })

-- One request.
unfoldable pub serve_one : Linker → Request → Client → Cmd Client
unfolding give_back
serve_one l (malloc n) x = do
  p ← kmalloc n
  ok (record { chunks = chunk_of p ∷ x.chunks; asked = update x.asked (chunk_of p) n })
serve_one l (free i) x = give_back l x (get_elem? x.chunks i)

unfoldable pub serve : Linker → List Request → Client → Cmd Client
serve l [] x = ok x
serve l (q ∷ qs) x = do y ← serve_one l q x; serve l qs y

-- A request for at most the largest hole.
abbrev pub IsSmall : Request → Type 0
IsSmall (malloc n) = n ≤ max_hole_size
IsSmall (free i) = Unit

pub record Sound (l : Linker) (ls : List Ptr) (m : Mem) : Type 0 where
  pub hs : List Ptr
  pub ps : List Ptr
  pub fs : List Ptr
  pub sound : IsSound l m ls hs ps fs

pub record Granted (l : Linker) (x : Client) (m : Mem) : Type 0 where
  pub base : Sound l x.chunks m
  pub granted : IsGranted m x.chunks base.hs x.asked

-- The chunks in use are distinct. The bytes that a chunk was asked for lie in the heap, in the chunk's
-- own data, and end in front of the header of any chunk behind it. The counters are the number of the
-- chunks and the sum of their sizes.
pub record AreApart (l : Linker) (x : Client) (m : Mem) : Type 0 where
  pub distinct : Distinct x.chunks
  pub room : (c : Ptr) → In c x.chunks → x.asked c ≤ hole_size m c
  pub apart : (c d : Ptr) → In c x.chunks → In d x.chunks → c < d → chunk_data c + x.asked c ≤ d
  pub inside :
      (c : Ptr)
      → In c x.chunks
      → (l.kheap_low ≤ c) × (chunk_data c + x.asked c + sizeof_space_page ≤ l.kheap_high)
  pub total : (m.alloc).nchunks ≡ length x.chunks
  pub allocated : (m.alloc).allocated ≡ bytes (hole_size m) x.chunks

Granted-AreApart : (l : Linker) (x : Client) (m : Mem) → Granted l x m → AreApart l x m
Granted-AreApart l x m v =
    let w = v.base in
    let s = w.sound in
    record {
      distinct = s.distinct;
      room = (v.granted).room;
      apart = λ c d ic id lt. omega (arith, (v.granted).own c d ic (inl id) lt);
      inside = λ c i.
          let k = chunk-IsInside l m x.chunks w.hs w.ps w.fs s.laid c (inl i) in
          (omega (arith, k.low), omega (arith, k.within, k.high, (v.granted).room c i));
      total = (s.counted).total;
      allocated = (s.counted).allocated;
    }

get_elem?-In : (ls : List Ptr) (i : ℕ) (c : Ptr) → get_elem? ls i ≡ some c → In c ls
get_elem?-In [] i c e = cc
get_elem?-In (x ∷ ls) zero c e = λ out. out.0 (ground arith)
get_elem?-In (x ∷ ls) (suc i) c e = λ out. get_elem?-In ls i c e out.1

-- What was freed was a chunk before, and so was what is left.
pub freed_before :
    (c : Ptr) (ls hs : List Ptr)
    → In c ls
    → (y : Ptr) → IsChunk (remove c ls) (c ∷ hs) y
    → IsChunk ls hs y
freed_before c ls hs ic y (inl i) = inl ((In-keep _ y ls i).1)
freed_before c ls hs ic y (inr i) = elim (In-cons y c hs i) [
  | inl e ↦ inl (subst (λ a. In a ls) (sym e) ic)
  | inr j ↦ inr j
]

-- The chunk that is given is the one of the address.
pub given-chunk :
    (l : Linker) (r : IsRegion l) (n : ℕ) (ls hs : List Ptr) (m : Mem) (p : Ptr) (m' : Mem)
    (g : IsGiven l n m ls hs p m')
    → chunk_of p ≡ g.chunk
given-chunk l r n ls hs m p m' g =
    let here : In g.chunk (g.chunk ∷ ls) = λ out. out.0 refl in
    ap chunk_of g.address
    ∙ chunk_of-chunk_data l m' (g.chunk ∷ ls) g.hs g.ps g.fs (g.sound).laid r g.chunk (inl here)

module _ (l : Linker) (r : IsRegion l) where
  pub given-Sound :
      (n : ℕ) (ls hs : List Ptr) (m : Mem) (p : Ptr) (m' : Mem)
      → IsGiven l n m ls hs p m'
      → Sound l (chunk_of p ∷ ls) m'
  given-Sound n ls hs m p m' g =
      rw (given-chunk l r n ls hs m p m' g)
        (record { hs = g.hs; ps = g.ps; fs = g.fs; sound = g.sound })

  given-Granted :
      (n : ℕ) (x : Client) (m : Mem) (v : Granted l x m) (p : Ptr) (m' : Mem)
      → IsGiven l n m x.chunks (v.base).hs p m'
      → Granted l
          (record { chunks = chunk_of p ∷ x.chunks; asked = update x.asked (chunk_of p) n })
          m'
  given-Granted n x m v p m' g = rw (given-chunk l r n x.chunks (v.base).hs m p m' g) (record {
    base = record { hs = g.hs; ps = g.ps; fs = g.fs; sound = g.sound };
    granted =
        IsOwn-IsGranted m m' x.chunks (v.base).hs g.hs n g.chunk x.asked v.granted g.own
          ((g.sound).distinct).0 g.room g.sizes;
  })

  give_back-Granted :
      (i : ℕ) (x : Client) (m : Mem) (found : Option Ptr)
      → get_elem? x.chunks i ≡ found
      → Granted l x m
      → Safe (Granted l) (give_back l x found m)
  unfolding give_back
  give_back-Granted i x m none e v = v
  give_back-Granted i x m (some c) e v =
      let w = v.base in
      let ls = x.chunks in
      let ic = get_elem?-In ls i c e in
      let left : Client = record { chunks = remove c ls; asked = x.asked } in
      Safe-and_then (λ _ m'. Granted l left m') (Granted l) (kfree l (chunk_data c) m)
        (λ _. ok left)
        (Returns-Safe
          (λ _ m'.
            IsSound l m' (remove c ls) (c ∷ w.hs) w.ps w.fs
            × ((a : Ptr) → hole_size m' a ≡ hole_size m a))
          (λ _ m'. Granted l left m') (kfree l (chunk_data c) m)
          (kfree-IsSound l r m ls w.hs w.ps w.fs w.sound c ic)
          (λ _ m' p. record {
            base = record { hs = c ∷ w.hs; ps = w.ps; fs = w.fs; sound = p.0 };
            granted =
                IsGranted-freed m m' ls (remove c ls) w.hs (c ∷ w.hs) x.asked
                  (λ a ia. (In-keep _ a ls ia).1) (λ y iy. freed_before c ls w.hs ic y iy) p.1
                  v.granted;
          }))
        (λ _ m' s. s)

  serve_one-Granted :
      (q : Request) (x : Client) (m : Mem)
      → IsSmall q
      → Granted l x m
      → Safe (Granted l) (serve_one l q x m)
  unfolding serve_one
  serve_one-Granted (malloc n) x m small v =
      let w = v.base in
      Safe-and_then (IsGiven l n m x.chunks w.hs) (Granted l) (kmalloc n m)
        (λ p. ok (record { chunks = chunk_of p ∷ x.chunks; asked = update x.asked (chunk_of p) n }))
        (Ends-mono (pages_of l ≤ suc (length x.chunks)) Unit (IsGiven l n m x.chunks w.hs)
          (IsGiven l n m x.chunks w.hs) (kmalloc n m)
          (kmalloc-IsGiven l n m x.chunks w.hs w.ps w.fs r w.sound small) (λ full. tt)
          (λ p m' g. g))
        (λ p m' g. given-Granted n x m v p m' g)
  serve_one-Granted (free i) x m small v = give_back-Granted i x m (get_elem? x.chunks i) refl v

  serve-Granted :
      (qs : List Request) (x : Client) (m : Mem)
      → All IsSmall qs
      → Granted l x m
      → Safe (Granted l) (serve l qs x m)
  unfolding serve
  serve-Granted [] x m small v = v
  serve-Granted (q ∷ qs) x m small v =
      Safe-and_then (Granted l) (Granted l) (serve_one l q x m) (λ y. serve l qs y)
        (serve_one-Granted q x m small.0 v) (λ y m' v'. serve-Granted qs y m' small.1 v')

  -- From the initialised heap, any sequence of requests for at most the largest hole and of frees
  -- of chunks in use ends: either with the panic that no memory is left, or with distinct chunks in
  -- use. The bytes that each was asked for lie in its data and in the heap, and end in front of the
  -- header of any chunk in use behind it; the counters count the chunks and add their sizes.
  pub serve-AreApart :
      (m : Mem) (qs : List Request)
      → (m.alloc).nchunks ≡ 0
      → All IsSmall qs
      → Safe (AreApart l) (and_then (space_valloc_init l m) (λ _. serve l qs no_chunks))
  serve-AreApart m qs no_chunk small =
      Safe-and_then (λ _ m'. Granted l no_chunks m') (AreApart l) (space_valloc_init l m)
        (λ _. serve l qs no_chunks)
        (Returns-Safe _ (λ _ m'. Granted l no_chunks m') (space_valloc_init l m)
          (space_valloc_init-IsSound l r m no_chunk)
          (λ _ m' e. record {
            base = record { hs = []; ps = header_of l.kheap_low ∷ []; fs = e.0; sound = e.1 };
            granted = record { room = λ c i. absurd (i tt); own = λ c y i iy lt. absurd (i tt) };
          }))
        (λ _ m' v.
          Safe-mono (Granted l) (AreApart l) (serve l qs no_chunks m')
            (serve-Granted qs no_chunks m' small v) (Granted-AreApart l))
