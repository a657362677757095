-- ===== src/Kmem/Layout.antt =====
-- kmem.c: the layout of the chunks where sizes and offsets stay.
use osa_kernel_arm_boot_step.Prelude.{ℕ, ◌≡◌, ◌∙◌, ◌⊎◌, refl, List, [], ◌∷◌, arith}
use osa_kernel_arm_boot_step.Kmem.State.{Ptr, Mem, Linker, space_page_of}
use osa_kernel_arm_boot_step.Kmem.Chain.{hole_size}
use osa_kernel_arm_boot_step.Kmem.Members.{In}
use osa_kernel_arm_boot_step.Kmem.Sound.{IsPage, IsChunk, IsLaid, bytes}

-- The sizes of chunks stay, and what pages have but their links and counts.
pub record SameLayout (m m' : Mem) : Type 0 where
  pub size : (a : Ptr) → hole_size m' a ≡ hole_size m a
  pub start : (a : Ptr) → (m'.page a).start ≡ (m.page a).start
  pub end : (a : Ptr) → (m'.page a).end ≡ (m.page a).end
  pub offset : (a : Ptr) → (m'.page a).offset ≡ (m.page a).offset
  pub allocator : (a : Ptr) → (m'.page a).allocator ≡ (m.page a).allocator

pub IsPage-same :
    (l : Linker) (m m' : Mem) (p : Ptr)
    → IsPage l m p
    → (m'.page p).start ≡ (m.page p).start
    → (m'.page p).end ≡ (m.page p).end
    → (m'.page p).offset ≡ (m.page p).offset
    → (m'.page p).allocator ≡ (m.page p).allocator
    → IsPage l m' p
IsPage-same l m m' p w start end offset owner = record {
  header = w.header;
  above = w.above;
  below = w.below;
  start = start ∙ w.start;
  end = end ∙ w.end;
  offset = rw offset w.offset;
  owner = owner ∙ w.owner;
}

-- Some of the chunks and some of the pages are laid out as all were.
pub IsLaid-subset :
    (l : Linker) (m m' : Mem) (ls ls' hs hs' ps ps' fs fs' : List Ptr)
    → IsLaid l m ls hs ps fs
    → SameLayout m m'
    → ((c : Ptr) → IsChunk ls' hs' c → IsChunk ls hs c)
    → ((p : Ptr) → In p ps' ⊎ In p fs' → In p ps ⊎ In p fs)
    → ((c : Ptr) → IsChunk ls' hs' c → In (space_page_of c) ps')
    → IsLaid l m' ls' hs' ps' fs'
IsLaid-subset l m m' ls ls' hs hs' ps ps' fs fs' w s chunk page on = record {
  pages = λ p here.
      IsPage-same l m m' p (w.pages p (page p here)) (s.start p) (s.end p) (s.offset p)
        (s.allocator p);
  placed = λ c here. record {
    page = on c here;
    within = rw (s.size c, s.offset (space_page_of c)) ((w.placed c (chunk c here)).within);
  };
  apart = λ c d ic id lt. rw (s.size c) (w.apart c d (chunk c ic) (chunk d id) lt);
}

pub bytes-same :
    (f g : Ptr → ℕ) (xs : List Ptr) → ((x : Ptr) → In x xs → g x ≡ f x) → bytes g xs ≡ bytes f xs
bytes-same f g [] same = refl
bytes-same f g (x ∷ xs) same =
    omega
      (arith, same x (λ out. out.0 refl), bytes-same f g xs (λ a here. same a (λ out. here out.1)))
