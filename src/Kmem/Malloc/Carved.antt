-- ===== src/Kmem/Malloc/Carved.antt =====
-- kmem.c: the chunk that `kmalloc` carves off a page, beside the chunks in use.
use osa_kernel_arm_boot_step.Prelude.{
  ℕ, ◌+◌, ◌≤◌, ◌<◌, ◌≡◌, ◌≢◌, ◌⊎◌, refl, sym, ap, ◌∙◌, List, ◌∷◌, arith, ◌==◌, ltb, Bool-cases, inl,
  inr,
}
use mathlib.Core.Path.{subst}
use osa_kernel_arm_boot_step.Kmem.State.{
  Ptr, Mem, Linker, sizeof_chunk, space_page_of, hal_page_of, Returns,
}
use osa_kernel_arm_boot_step.Kmem.Chain.{hole_size}
use osa_kernel_arm_boot_step.Kmem.Members.{In, In-cons, Absent-of}
use osa_kernel_arm_boot_step.Kmem.Sound.{page_end, IsPage, IsPlaced, IsChunk, IsSound}
use osa_kernel_arm_boot_step.Kmem.Own.{IsOwn}
use osa_kernel_arm_boot_step.Kmem.Bounds.{chunk-IsInside}
use osa_kernel_arm_boot_step.Kmem.Layout.{bytes-same}
use osa_kernel_arm_boot_step.Kmem.Malloc.{carve}
use osa_kernel_arm_boot_step.Kmem.Malloc.Paged.{carved, carved-HasLists}
use osa_kernel_arm_boot_step.Kmem.Malloc.Chosen.{Chosen}

module _ (l : Linker) (size : ℕ) (m : Mem) (ls hs ps fs : List Ptr) (s : IsSound l m ls hs ps fs)
    (page : Ptr) (here : In page ps)
    (room : (m.page page).offset + size + sizeof_chunk ≤ page_end) where
  abbrev new : Ptr
  new = hal_page_of page + (m.page page).offset

  abbrev after : Mem
  after = carved size page m

  page-IsPage : IsPage l m page
  page-IsPage = (s.laid).pages page (inl here)

  new-page : space_page_of new ≡ page
  new-page = let w = page-IsPage in omega (arith, w.header, room)

  -- Another chunk lies in front of the new one or behind it.
  data Place (c : Ptr) : Type 0 where
    in_front : c < new → c + hole_size m c + sizeof_chunk ≤ new → Place c
    behind : new < c → new + size + sizeof_chunk ≤ c → Place c

  place : (c : Ptr) → IsChunk ls hs c → Place c
  place c i = elim (Bool-cases (space_page_of c == page)) [
    | inl e ↦
        let at = (s.laid).placed c i in
        let same : space_page_of c ≡ page = ground arith in
        let w = page-IsPage in
        let off : (m.page (space_page_of c)).offset ≡ (m.page page).offset =
          ap (λ p. (m.page p).offset) same in
        in_front (omega (arith, at.within, same, off, w.header))
          (omega (arith, at.within, same, off, w.header))
    | inr ne ↦
        let k = chunk-IsInside l m ls hs ps fs s.laid c i in
        let differ : space_page_of c ≢ page = ground arith in
        let w = page-IsPage in
        elim (Bool-cases (ltb c new)) [
          | inl below ↦
              let lt : c < new = ground arith in
              in_front lt (omega (arith, lt, k.within, differ, w.header, room))
          | inr above ↦
              let ge : new ≤ c = ground arith in
              behind (omega (arith, ge, k.within, differ, w.header, room))
                (omega (arith, ge, k.within, differ, w.header, room))
        ]
  ]

  Place-differs : (c : Ptr) → Place c → new ≢ c
  Place-differs c (in_front lt fits) e = absurd (omega (arith, e))
  Place-differs c (behind lt fits) e = absurd (omega (arith, e))

  size-new : hole_size after new ≡ size
  size-new = ground (arith, room)

  size-others : (c : Ptr) → IsChunk ls hs c → hole_size after c ≡ hole_size m c
  size-others c i = let ne = Place-differs c (place c i) in ground arith

  offset-new : (after.page page).offset ≡ (m.page page).offset + size + sizeof_chunk
  offset-new = ground (arith, room)

  carved-IsPage : (p : Ptr) → IsPage l m p → IsPage l after p
  carved-IsPage p w = record {
    header = w.header;
    above = w.above;
    below = w.below;
    start = ground (arith, w.start);
    end = ground (arith, w.end);
    offset = ground (arith, w.offset, room);
    owner = ground (arith, w.owner);
  }

  carved-offset : (p : Ptr) → (m.page p).offset ≤ (after.page p).offset
  carved-offset p = ground (arith, room)

  IsPlaced-old : (c : Ptr) → IsChunk ls hs c → IsPlaced after ps c
  IsPlaced-old c i =
      let at = (s.laid).placed c i in
      record {
        page = at.page;
        within = omega (arith, at.within, size-others c i, carved-offset (space_page_of c));
      }

  -- A chunk afterwards is the new one or a chunk as before.
  kind : (c : Ptr) → IsChunk (new ∷ ls) hs c → (c ≡ new) ⊎ IsChunk ls hs c
  kind c (inl i) = elim (In-cons c new ls i) [ inl e ↦ inl e | inr used ↦ inr (inl used) ]
  kind c (inr i) = inr (inr i)

  placed : (c : Ptr) → (c ≡ new) ⊎ IsChunk ls hs c → IsPlaced after ps c
  placed c (inl e) =
      let w = page-IsPage in
      let off : (after.page (space_page_of new)).offset ≡ (after.page page).offset =
        ap (λ p. (after.page p).offset) new-page in
      rw e (record {
        page = subst (λ a. In a ps) (sym new-page) here;
        within = omega (arith, off, offset-new, size-new, w.header, room);
      })
  placed c (inr i) = IsPlaced-old c i

  apart-new : (d : Ptr) → Place d → new < d → new + size + sizeof_chunk ≤ d
  apart-new d (in_front lt' fits) lt = absurd (omega arith)
  apart-new d (behind lt' fits) lt = fits

  apart-old : (c : Ptr) → Place c → c < new → c + hole_size m c + sizeof_chunk ≤ new
  apart-old c (in_front lt' fits) lt = fits
  apart-old c (behind lt' fits) lt = absurd (omega arith)

  apart :
      (c d : Ptr)
      → (c ≡ new) ⊎ IsChunk ls hs c
      → (d ≡ new) ⊎ IsChunk ls hs d
      → c < d
      → c + hole_size after c ≤ d
  apart c d (inl ec) (inl ed) lt = absurd (omega (arith, ec, ed))
  apart c d (inl ec) (inr id) lt =
      rw ec (omega (arith, size-new, apart-new d (place d id) (omega (arith, ec))))
  apart c d (inr ic) (inl ed) lt =
      omega (arith, ed, size-others c ic, apart-old c (place c ic) (omega (arith, ed)))
  apart c d (inr ic) (inr id) lt = omega (arith, size-others c ic, (s.laid).apart c d ic id lt)

  carved-nchunks : (p : Ptr) → (after.page p).nchunks ≡ (m.page p).nchunks
  carved-nchunks p = ground arith

  after-new : (x : Ptr) → (x ≡ new) ⊎ IsChunk ls hs x → new < x → new + sizeof_chunk + size ≤ x
  after-new x (inl e) lt = absurd (omega (arith, e, lt))
  after-new x (inr i) lt = omega (arith, apart-new x (place x i) lt)

  new-IsOwn : IsOwn m ls hs size new hs
  new-IsOwn = record {
    old = kind;
    after = λ x i. after-new x (kind x i);
    before = λ d n i small own lt. omega (arith, small, apart-old d (place d (inl i)) lt);
  }

  abbrev pub IsCarved : Ptr → Mem → Type 0
  IsCarved c m' =
      Chosen l m' c ls hs ps fs
      × (hole_size m' c ≡ size)
      × (space_page_of c ≡ page)
      × ((d : Ptr) → In d ls → hole_size m' d ≡ hole_size m d)
      × IsOwn m ls hs size c hs

  pub carve-IsCarved : Returns IsCarved (carve size page m)
  unfolding carve
  carve-IsCarved =
      let b = bytes-same (hole_size m) (hole_size after) ls (λ x i. size-others x (inl i)) in
      let differs = λ (c : Ptr) (i : IsChunk ls hs c). Place-differs c (place c i) in
      (
        record {
          lists = carved-HasLists size page m hs ps fs s.lists;
          laid = record {
            pages = λ p i. carved-IsPage p ((s.laid).pages p i);
            placed = λ c i. placed c (kind c i);
            apart = λ c d ic id lt. apart c d (kind c ic) (kind d id) lt;
          };
          counted = record {
            nchunks = λ p i. carved-nchunks p ∙ (s.counted).nchunks p i;
            total = (s.counted).total;
            allocated = (s.counted).allocated ∙ sym b;
          };
          distinct = (Absent-of new ls (λ i. differs new (inl i) refl), s.distinct);
          fresh = λ c i. elim (In-cons c new ls i) [
            | inl e ↦ rw e (Absent-of new hs (λ i'. differs new (inr i') refl))
            | inr used ↦ s.fresh c used
          ];
          first = s.first;
          whole = s.whole;
        },
        size-new,
        new-page,
        λ d i. size-others d (inl i),
        new-IsOwn,
      )
