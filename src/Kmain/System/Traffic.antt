-- ===== src/Kmain/System/Traffic.antt =====
-- What the accesses of the kernel add to the received and to the sent bytes.
use mathlib.Core.List.{map, append-nil, append_assoc}
use osa_kernel_arm_boot_step.Prelude.{
  ℕ, ◌%◌, ◌^◌, ◌<◌, ◌≡◌, refl, sym, ◌∙◌, true, List, [], ◌∷◌, ◌++◌, ◌==◌, All, arith, false,
  if◌then◌else◌, Bool-cases, inl, inr,
}
use osa_kernel_arm_boot_step.Mmio.{History, read, at}
use osa_kernel_arm_boot_step.Uart.{dr, mis}
use osa_kernel_arm_boot_step.Gic.{gic_base, iar}
use osa_kernel_arm_boot_step.PendingList.{Allocator, sizeof_node}
use osa_kernel_arm_boot_step.Kmain.{Board, Kernel}
use osa_kernel_arm_boot_step.Kmain.Arrival.{has_byte, char, taken, added}
use osa_kernel_arm_boot_step.Kmain.Echo.{sent, sent_all}
use osa_kernel_arm_boot_step.Kmain.System.{took, received, transmitted, is_local, IsApart}

module _ (b : Board) (apart : IsApart b) where
  pub received-uart0 : (s : List ℕ) (h : History) → received b (sent_all b.uart0 s h) ≡ received b h
  unfolding received
  received-uart0 [] h = refl
  received-uart0 (c ∷ s) h =
      received-uart0 s (sent b.uart0 c h) ∙ rw (apart.in_flags_uart0, apart.status_flags_uart0) refl

  pub received-stdout :
      (s : List ℕ) (h : History) → received b (sent_all b.stdout s h) ≡ received b h
  unfolding received
  received-stdout [] h = refl
  received-stdout (c ∷ s) h =
      received-stdout s (sent b.stdout c h) ∙ rw (apart.in_flags_out, apart.status_flags_out) refl

  took-uart0 : (s : List ℕ) (h : History) → took b (sent_all b.uart0 s h) ≡ took b h
  unfolding took
  took-uart0 [] h = refl
  took-uart0 (c ∷ s) h =
      took-uart0 s (sent b.uart0 c h) ∙ rw (apart.in_flags_uart0, apart.iar_flags_uart0) refl

  -- The bytes of a text that goes to UART0, as far as they go to `stdout`.
  abbrev pub local : List ℕ → List ℕ
  local s = if is_local b then map (λ c. c % 2 ^ 8) s else []

  transmitted-elsewhere :
      (s : List ℕ) (h : History)
      → is_local b ≡ false
      → transmitted b (sent_all b.uart0 s h) ≡ transmitted b h
  unfolding transmitted
  transmitted-elsewhere [] h other = refl
  transmitted-elsewhere (c ∷ s) h other =
      transmitted-elsewhere s (sent b.uart0 c h) other ∙ rw other refl

  transmitted-local :
      (s : List ℕ) (h : History)
      → is_local b ≡ true
      → transmitted b (sent_all b.uart0 s h) ≡ transmitted b h ++ map (λ c. c % 2 ^ 8) s
  unfolding transmitted
  transmitted-local [] h same = sym (append-nil (transmitted b h))
  transmitted-local (c ∷ s) h same =
      let byte : c % 2 ^ 8 % 2 ^ 32 ≡ c % 2 ^ 8 = omega arith in
      transmitted-local s (sent b.uart0 c h) same
      ∙ rw (same, byte) (append_assoc (transmitted b h) (c % 2 ^ 8 ∷ []) (map (λ x. x % 2 ^ 8) s))

  pub transmitted-uart0 :
      (s : List ℕ) (h : History) → transmitted b (sent_all b.uart0 s h) ≡ transmitted b h ++ local s
  transmitted-uart0 s h = elim (Bool-cases (is_local b)) [
    | inl same ↦ rw same (transmitted-local s h same)
    | inr other ↦ rw other (transmitted-elsewhere s h other ∙ sym (append-nil (transmitted b h)))
  ]

  pub transmitted-stdout :
      (s : List ℕ) (h : History)
      → All (λ c. c < 2 ^ 8) s
      → transmitted b (sent_all b.stdout s h) ≡ transmitted b h ++ s
  unfolding transmitted
  transmitted-stdout [] h small = sym (append-nil (transmitted b h))
  transmitted-stdout (c ∷ s) h (small, rest) =
      let byte : c % 2 ^ 8 % 2 ^ 32 ≡ c = omega arith in
      let self : (at b.stdout dr == at b.stdout dr) ≡ true = ground arith in
      transmitted-stdout s (sent b.stdout c h) rest
      ∙ rw (self, byte) (append_assoc (transmitted b h) (c ∷ []) s)

  -- What an interrupt of the serial line brings, up to its acknowledgement at the device.
  module _ (a : Allocator) (k : Kernel b a) where
    pub received-added :
        received b (read 32 (at b.stdin mis) ∷ added b a k.store k.io)
        ≡ received b k.io ++ char b a k.io ∷ []
    unfolding received took
    received-added =
        let self : (at b.stdin dr == at b.stdin dr) ≡ true = ground arith in
        let status : (at b.stdin mis == at b.stdin mis) ≡ true = ground arith in
        let ack : (at (gic_base b.periph) iar == at (gic_base b.periph) iar) ≡ true =
          ground arith in
        let text = a.message sizeof_node k.store in
        let got = received-uart0 text (taken b a k.io) in
        let seen = took-uart0 text (taken b a k.io) in
        elim (Bool-cases (has_byte b a k.io)) [
          | inl e ↦
              rw
                (
                  apart.in_status, status, seen, got, e, self, apart.in_flags_in,
                  apart.status_flags_in, apart.in_iar, apart.status_iar,
                )
                refl
          | inr e ↦
              rw
                (
                  apart.in_status, status, seen, got, e, apart.in_flags_in, apart.status_flags_in,
                  apart.iar_flags_in, apart.in_iar, apart.status_iar, ack,
                )
                refl
        ]

    pub transmitted-added :
        transmitted b (added b a k.store k.io)
        ≡ transmitted b k.io ++ local (a.message sizeof_node k.store)
    unfolding transmitted
    transmitted-added =
        transmitted-uart0 (a.message sizeof_node k.store) (taken b a k.io)
        ∙ elim (Bool-cases (has_byte b a k.io)) [ inl e ↦ rw e refl | inr e ↦ rw e refl ]
