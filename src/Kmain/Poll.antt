-- ===== src/Kmain/Poll.antt =====
-- kmain.c: the polling loop with `zzz`, which counts its rounds.
use osa_kernel_arm_boot_step.Prelude.{
  ℕ, ◌+◌, ◌%◌, ◌^◌, [], ◌++◌, ltb, if◌then◌else◌, ◌==◌, ◌≡◌, ◌∷◌, arith, refl, some, Bool,
  Bool-cases, inl, inr,
}
use osa_kernel_arm_boot_step.Mmio.{History, read, at, get_bit32, Io, pure, ◌>>=◌, ◌>>◌}
use osa_kernel_arm_boot_step.Uart.{dr, fr, bit_rxfe}
use osa_kernel_arm_boot_step.Kmain.Echo.{sent_all, echo, poll_once-echo}
use osa_kernel_arm_boot_step.Kmain.Counter.{HasRoom, kprintf_out-sent}
use osa_kernel_arm_boot_step.Kmain.{Board, kprintf_out, poll_once}
use osa_kernel_arm_boot_step.Kprintf.Digits.{Bytes, codes}
use osa_kernel_arm_boot_step.Kprintf.Print.Conversions.{kprintf-plain}
use osa_kernel_arm_boot_step.Kmain.Boot.{line_end}

module _ (b : Board) where
  -- The static `count` before and after.
  unfoldable pub zzz : (count : ℕ) → Io ℕ
  zzz count =
      let next : ℕ = (count + 1) % 2 ^ 32 in
      if ltb 60000000 next
      then (do kprintf_out b (codes "Zzzz..." ++ line_end) []; pure 0)
      else pure next

  -- A round of the loop of `poll`.
  unfoldable pub poll_round : (count : ℕ) → Io ℕ
  poll_round count = do next ← zzz count; poll_once b; pure next

  -- Whether the round prints, the count behind it, and the history behind `zzz`.
  abbrev pub is_slow : (count : ℕ) → Bool
  is_slow count = ltb 60000000 ((count + 1) % 2 ^ 32)

  abbrev pub counted : (count : ℕ) → ℕ
  counted count = if is_slow count then 0 else (count + 1) % 2 ^ 32

  abbrev pub slept : (count : ℕ) → History → History
  slept count h = if is_slow count then sent_all b.uart0 (codes "Zzzz..." ++ line_end) h else h

  -- What the rest of the round leaves of a history: with a byte in the receive FIFO, and without.
  abbrev pub polled : History → History
  polled h =
      if get_bit32 (b.dev 32 (at b.stdin fr) h % 2 ^ 32) bit_rxfe == 0
      then sent_all b.stdout
          (echo (b.dev 32 (at b.stdin dr) (read 32 (at b.stdin fr) ∷ h) % 2 ^ 32 % 2 ^ 8))
          (read 32 (at b.stdin dr) ∷ read 32 (at b.stdin fr) ∷ h)
      else read 32 (at b.stdin fr) ∷ h

  zzz-slept :
      HasRoom b → (count : ℕ) (h : History) → zzz count h ≡ some (counted count, slept count h)
  unfolding zzz
  zzz-slept room count h = elim (Bool-cases (is_slow count)) [
    | inl e ↦
        let text : Bytes = codes "Zzzz..." ++ line_end in
        let out =
          kprintf_out-sent b room.uart0 room.polls text text [] [] h
            (kprintf-plain text [] (omega arith)) in
        rw (e, out) refl
    | inr e ↦ rw e refl
  ]

  -- If the transmit FIFOs always have room, a round of `poll` ends: every 60000001st round prints a
  -- message on UART0 and counts from 0 again; then the round sends the echo of the byte that it
  -- receives, and only reads the flags if there is none.
  pub poll_round-echo :
      HasRoom b
      → (count : ℕ) (h : History)
      → poll_round count h ≡ some (counted count, polled (slept count h))
  unfolding poll_round
  poll_round-echo room count h =
      rw (zzz-slept room count h, poll_once-echo b room.stdout room.polls (slept count h)) refl
