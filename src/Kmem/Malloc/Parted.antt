-- ===== src/Kmem/Malloc/Parted.antt =====
-- kmem.c: the upper end of a hole, which `kmalloc` makes a chunk of, beside the other chunks.
use osa_kernel_arm_boot_step.Prelude.{
  ℕ, ◌+◌, ◌≤◌, ◌<◌, ◌^◌, ◌≡◌, ◌≢◌, ◌⊎◌, refl, sym, ap, ◌∙◌, List, ◌∷◌, some, arith, ◌==◌, ltb,
  Bool-cases, inl, inr, Absent,
}
use mathlib.Core.Path.{subst}
use osa_kernel_arm_boot_step.Kmem.State.{
  Ptr, null, Mem, Linker, sizeof_chunk, min_hole_size, space_page_of,
}
use osa_kernel_arm_boot_step.Kmem.Chain.{hole_size}
use osa_kernel_arm_boot_step.Kmem.Members.{In, In-cons, Absent-of}
use osa_kernel_arm_boot_step.Kmem.Sound.{IsPlaced, IsChunk, IsSound}
use osa_kernel_arm_boot_step.Kmem.Own.{IsOwn}
use osa_kernel_arm_boot_step.Kmem.Bounds.{IsInside, chunk-IsInside}
use osa_kernel_arm_boot_step.Kmem.Layout.{IsPage-same, bytes-same}
use osa_kernel_arm_boot_step.Kmem.Malloc.{remaining_of, split_hole, use_hole}
use osa_kernel_arm_boot_step.Kmem.Malloc.Holes.{first_fit}
use osa_kernel_arm_boot_step.Kmem.Malloc.Whole.{first_fit-found, split_hole-HasLists, split_at}
use osa_kernel_arm_boot_step.Kmem.Malloc.Picked.{Picked, holes-IsSpread, take_hole-Picked}

module _ (l : Linker) (m : Mem) (ls hs ps fs : List Ptr) (s : IsSound l m ls hs ps fs) (size : ℕ)
    (q h : Ptr) (e : first_fit (hole_size m) (size + sizeof_chunk) null hs ≡ some (q, h)) where
  module _ (room : size + sizeof_chunk + min_hole_size < hole_size m h) where
    abbrev new : Ptr
    new = (split_hole size h m).0

    abbrev split : Mem
    split = (split_hole size h m).1

    hole-In : In h hs
    hole-In = (first_fit-found (hole_size m) (size + sizeof_chunk) null hs q h e).1

    hole-IsInside : IsInside l (hole_size m h) h
    hole-IsInside = chunk-IsInside l m ls hs ps fs s.laid h (inr hole-In)

    new_lem : new + size + sizeof_chunk ≡ h + hole_size m h
    new_lem =
        let i = hole-IsInside in
        omega (
          arith,
          split_at size m hs ps fs s.lists q h e (holes-IsSpread l m ls hs ps fs s) room
              (omega (arith, i.within)),
        )

    size-new : hole_size split new ≡ size
    unfolding split_hole
    size-new = let i = hole-IsInside in ground (arith, i.within)

    size-hole : hole_size split h + size + sizeof_chunk ≡ hole_size m h
    unfolding split_hole
    size-hole = let i = hole-IsInside in ground (arith, i.within)

    size-others : (c : Ptr) → h ≢ c → new ≢ c → hole_size split c ≡ hole_size m c
    unfolding split_hole
    size-others c nh nn = ground arith

    -- No chunk begins inside the hole.
    outside : (c : Ptr) → IsChunk ls hs c → h < c → h + hole_size m h ≤ c
    outside c i lt = (s.laid).apart h c (inr hole-In) i lt

    new-others : (c : Ptr) → IsChunk ls hs c → new ≢ c
    new-others c i ne =
        let far : h < c → h + hole_size m h ≤ c = outside c i in
        absurd (omega (arith, new_lem, far (omega (arith, new_lem, ne)), ne))

    used-size : (c : Ptr) → In c ls → hole_size split c ≡ hole_size m c
    used-size c i =
        size-others c (λ eq. hole-In (subst (λ a. Absent a hs) (sym eq) (s.fresh c i)))
          (new-others c (inl i))

    split-page : split.page ≡ m.page
    unfolding split_hole
    split-page = refl

    split-alloc : split.alloc ≡ m.alloc
    unfolding split_hole
    split-alloc = refl

    -- A chunk afterwards is the new one, the rest of the hole, or a chunk as before.
    data Kind (c : Ptr) : Type 0 where
      fresh_one : c ≡ new → Kind c
      rest_of_hole : c ≡ h → Kind c
      other : IsChunk ls hs c → hole_size split c ≡ hole_size m c → h ≢ c → Kind c

    Kind-old : (c : Ptr) → IsChunk ls hs c → Kind c
    Kind-old c i = elim (Bool-cases (h == c)) [
      | inl e' ↦ rest_of_hole (ground arith)
      | inr ne ↦ let nh : h ≢ c = ground arith in other i (size-others c nh (new-others c i)) nh
    ]

    kind : (c : Ptr) → IsChunk (new ∷ ls) hs c → Kind c
    kind c (inl i) = elim (In-cons c new ls i) [
      | inl e' ↦ fresh_one e'
      | inr used ↦ Kind-old c (inl used)
    ]
    kind c (inr i) = Kind-old c (inr i)

    new-page : space_page_of new ≡ space_page_of h
    new-page = let i = hole-IsInside in omega (arith, new_lem, i.within)

    placed : (c : Ptr) → Kind c → IsPlaced split ps c
    unfolding split_hole
    placed c (fresh_one e') =
        let at = (s.laid).placed h (inr hole-In) in
        rw e' (record {
          page = subst (λ a. In a ps) (sym new-page) at.page;
          within = rw (new-page) (omega (arith, new_lem, size-new, new-page, at.within));
        })
    placed c (rest_of_hole e') =
        let at = (s.laid).placed h (inr hole-In) in
        rw e' (record { page = at.page; within = omega (arith, size-hole, at.within) })
    placed c (other i same nh) =
        let at = (s.laid).placed c i in
        record { page = at.page; within = omega (arith, same, at.within) }

    apart : (c d : Ptr) → Kind c → Kind d → c < d → c + hole_size split c ≤ d
    apart c d (fresh_one ec) (fresh_one ed) lt = absurd (omega (arith, ec, ed))
    apart c d (fresh_one ec) (rest_of_hole ed) lt = absurd (omega (arith, ec, ed, new_lem))
    apart c d (fresh_one ec) (other id sd nd) lt =
        let far : h < d → h + hole_size m h ≤ d = outside d id in
        rw ec (omega (arith, size-new, new_lem, far (omega (arith, new_lem, ec))))
    apart c d (rest_of_hole ec) (fresh_one ed) lt = rw (ec, ed) (omega (arith, size-hole, new_lem))
    apart c d (rest_of_hole ec) (rest_of_hole ed) lt = absurd (omega (arith, ec, ed))
    apart c d (rest_of_hole ec) (other id sd nd) lt =
        let far : h < d → h + hole_size m h ≤ d = outside d id in
        rw ec (omega (arith, size-hole, far (omega (arith, ec))))
    apart c d (other ic sc nc) (fresh_one ed) lt = elim (Bool-cases (ltb c h)) [
      | inl below ↦
          let lt' : c < h = ground arith in
          omega (arith, sc, ed, new_lem, (s.laid).apart c h ic (inr hole-In) lt')
      | inr above ↦
          let gt : h < c = ground arith in absurd (omega (arith, outside c ic gt, ed, new_lem))
    ]
    apart c d (other ic sc nc) (rest_of_hole ed) lt =
        let lt' : c < h = omega (arith, ed) in
        omega (arith, sc, ed, (s.laid).apart c h ic (inr hole-In) lt')
    apart c d (other ic sc nc) (other id sd nd) lt = omega (arith, sc, (s.laid).apart c d ic id lt)

    new-old : (x : Ptr) → IsChunk (new ∷ ls) hs x → (x ≡ new) ⊎ IsChunk ls hs x
    new-old x (inl i) = elim (In-cons x new ls i) [ inl e' ↦ inl e' | inr used ↦ inr (inl used) ]
    new-old x (inr i) = inr (inr i)

    new-after : (x : Ptr) → (x ≡ new) ⊎ IsChunk ls hs x → new < x → new + sizeof_chunk + size ≤ x
    new-after x (inl e') lt = absurd (omega (arith, e', lt))
    new-after x (inr i) lt =
        let far : h < x → h + hole_size m h ≤ x = outside x i in
        omega (arith, new_lem, far (omega (arith, new_lem, lt)))

    new-before :
        (d : Ptr) (n : ℕ)
        → In d ls
        → ((x : Ptr) → IsChunk ls hs x → d < x → d + sizeof_chunk + n ≤ x)
        → d < new
        → d + sizeof_chunk + n ≤ new
    new-before d n i own lt = elim (Bool-cases (ltb d h)) [
      | inl below ↦
          let lt' : d < h = ground arith in omega (arith, new_lem, own h (inr hole-In) lt', room)
      | inr above ↦
          let nd : h ≢ d = λ eq. hole-In (subst (λ a. Absent a hs) (sym eq) (s.fresh d i)) in
          let gt : h < d = ground (arith, nd) in
          absurd (omega (arith, outside d (inl i) gt, lt, new_lem))
    ]

    new-IsOwn : IsOwn m ls hs size new hs
    new-IsOwn = record {
      old = new-old;
      after = λ x i. new-after x (new-old x i);
      before = λ d n i small own lt. new-before d n i own lt;
    }

    split_hole-Picked : size < 2 ^ 16 → Picked l size m ls hs new split
    split_hole-Picked short =
        let i = hole-IsInside in
        let t = s.counted in
        let b = bytes-same (hole_size m) (hole_size split) ls used-size in
        record {
          hs = hs;
          ps = ps;
          fs = fs;
          chosen = record {
            lists =
                split_hole-HasLists size m hs ps fs s.lists q h e (holes-IsSpread l m ls hs ps fs s)
                  room (omega (arith, i.within));
            laid = record {
              pages = λ p ip.
                  IsPage-same l m split p ((s.laid).pages p ip) (ap (λ g. (g p).start) split-page)
                    (ap (λ g. (g p).end) split-page) (ap (λ g. (g p).offset) split-page)
                    (ap (λ g. (g p).allocator) split-page);
              placed = λ c ic. placed c (kind c ic);
              apart = λ c d ic id lt. apart c d (kind c ic) (kind d id) lt;
            };
            counted = record {
              nchunks = λ p ip. ap (λ g. (g p).nchunks) split-page ∙ t.nchunks p ip;
              total = ap (λ a. a.nchunks) split-alloc ∙ t.total;
              allocated = ap (λ a. a.allocated) split-alloc ∙ t.allocated ∙ sym b;
            };
            distinct = (Absent-of new ls (λ i. new-others new (inl i) refl), s.distinct);
            fresh = λ c ic. elim (In-cons c new ls ic) [
              | inl e' ↦ rw e' (Absent-of new hs (λ i. new-others new (inr i) refl))
              | inr used ↦ s.fresh c used
            ];
            first = subst (λ a. In a ps) (sym (ap (λ a. a.first) split-alloc)) s.first;
            whole = s.whole;
          };
          room = omega (arith, size-new);
          own = new-IsOwn;
          kept = used-size;
        }

  pub use_hole-Picked :
      size < 2 ^ 16 → Picked l size m ls hs (use_hole size q h m).0 (use_hole size q h m).1
  unfolding use_hole
  use_hole-Picked short =
      let found = first_fit-found (hole_size m) (size + sizeof_chunk) null hs q h e in
      let i = chunk-IsInside l m ls hs ps fs s.laid h (inr found.1) in
      elim (Bool-cases (ltb min_hole_size (remaining_of size h m))) [
        | inl large ↦
            let room : size + sizeof_chunk + min_hole_size < hole_size m h =
              ground (arith, found.0, i.within) in
            rw large (split_hole-Picked room short)
        | inr small ↦ rw small (take_hole-Picked l m ls hs ps fs s size q h e)
      ]
