-- ===== src/Uart/Send.antt =====
-- pl011.c: sending bytes and strings.
use mathlib.Core.List.{reverse_aux}
use osa_kernel_arm_boot_step.Prelude.{
  ℕ, zero, suc, ◌%◌, ◌^◌, ◌<◌, ◌≡◌, refl, ap, ◌∙◌, Bool, true, false, some, List, [], ◌∷◌, ◌==◌,
  if◌then◌else◌, arith, Bool-cases, inl, inr,
}
use osa_kernel_arm_boot_step.Mmio.{
  Device, History, read, write, at, bind_result, bind_result-eq-some, written, get_bit32,
}
use osa_kernel_arm_boot_step.Uart.{dr, fr, bit_txff, uart_send, uart_send_string}

module _ (dev : Device) (uart : ℕ) where
  -- The answer of the flag register after a history: the transmit FIFO has room.
  abbrev pub has_room : History → Bool
  has_room h = get_bit32 (dev 32 (at uart fr) h % 2 ^ 32) bit_txff == 0

  abbrev pub polls : ℕ → History → History
  polls zero h = h
  polls (suc n) h = polls n (read 32 (at uart fr) ∷ h)

  -- With more rounds than `n`, `n` polls that find the FIFO full and then one that finds room,
  -- `uart_send` ends: the byte is written right after that poll, and nothing else is.
  pub uart_send-polls :
      (n fuel c : ℕ) (h : History)
      → n < fuel
      → ((k : ℕ) → k < n → has_room (polls k h) ≡ false)
      → has_room (polls n h) ≡ true
      → uart_send dev uart fuel c h
        ≡ some (tt, write 32 (at uart dr) (c % 2 ^ 8 % 2 ^ 32) ∷ polls (suc n) h)
  unfolding uart_send
  uart_send-polls n zero c h f busy room = absurd (omega arith)
  uart_send-polls zero (suc fuel) c h f busy room = rw room
  uart_send-polls (suc n) (suc fuel) c h f busy room = rw (busy 0 (omega arith)) (
      uart_send-polls n fuel c (read 32 (at uart fr) ∷ h) (omega arith)
        (λ k hk. busy (suc k) (omega arith)) room)

  -- A byte that is sent is written once to the data register.
  uart_send-written :
      (fuel c : ℕ) (h h' : History)
      → uart_send dev uart fuel c h ≡ some (tt, h')
      → written 32 (at uart dr) h' ≡ c % 2 ^ 8 ∷ written 32 (at uart dr) h
  unfolding uart_send written
  uart_send-written zero c h h' e = cc
  uart_send-written (suc fuel) c h h' e =
      ground (arith, uart_send-written fuel c (read 32 (at uart fr) ∷ h) h')

  -- The bytes of a string up to its NUL.
  abbrev pub until_nul : List ℕ → List ℕ
  until_nul [] = []
  until_nul (c ∷ s) = if c == 0 then [] else c % 2 ^ 8 ∷ until_nul s

  -- If the string is sent, its bytes up to the NUL come to the data register in their order.
  pub uart_send_string-written :
      (fuel : ℕ) (s : List ℕ) (h h' : History)
      → uart_send_string dev uart fuel s h ≡ some (tt, h')
      → written 32 (at uart dr) h' ≡ reverse_aux (until_nul s) (written 32 (at uart dr) h)
  unfolding uart_send_string
  uart_send_string-written fuel [] h h' e = ground arith
  uart_send_string-written fuel (c ∷ s) h h' e = elim (Bool-cases (c == 0)) [
    | inl stop ↦ ground arith
    | inr more ↦
        let step : bind_result (uart_send dev uart fuel c h) (λ _. uart_send_string dev uart fuel s)
            ≡ some (tt, h') =
          ground arith in
        let (_, g, sent, rest) = bind_result-eq-some _ _ step in
        let first = uart_send-written fuel c h g (unit_result _ sent) in
        rw more (uart_send_string-written fuel s g h' rest ∙ ap (reverse_aux (until_nul s)) first)
  ]
    where
      unit_result :
          {g : History} (u : Unit {0})
          → uart_send dev uart fuel c h ≡ some (u, g)
          → uart_send dev uart fuel c h ≡ some (tt, g)
      unit_result tt e = e

  -- With a device that always has room, one poll for each byte is enough.
  uart_send_string-ready :
      (fuel : ℕ) (s : List ℕ) (h : History)
      → ((g : History) → has_room g ≡ true)
      → (h' : History) × (uart_send_string dev uart (suc fuel) s h ≡ some (tt, h'))
  unfolding uart_send_string
  uart_send_string-ready fuel [] h ready = (h, refl)
  uart_send_string-ready fuel (c ∷ s) h ready =
      let g = write 32 (at uart dr) (c % 2 ^ 8 % 2 ^ 32) ∷ polls 1 h in
      let (h', rest) = uart_send_string-ready fuel s g ready in
      let sent =
        uart_send-polls 0 (suc fuel) c h (omega arith) (λ k hk. absurd (omega arith)) (ready h) in
      elim (Bool-cases (c == 0)) [ inl stop ↦ (h, rw stop) | inr more ↦ (h', rw (more, sent) rest) ]

  -- If the transmit FIFO always has room, `uart_send_string` ends with one poll for each byte, and
  -- the bytes up to the NUL have come to the data register in their order.
  pub uart_send_string-sent :
      (fuel : ℕ) (s : List ℕ) (h : History)
      → ((g : History) → has_room g ≡ true)
      → (h' : History) × (uart_send_string dev uart (suc fuel) s h ≡ some (tt, h'))
        × (written 32 (at uart dr) h' ≡ reverse_aux (until_nul s) (written 32 (at uart dr) h))
  uart_send_string-sent fuel s h ready =
      let (h', run) = uart_send_string-ready fuel s h ready in
      (h', run, uart_send_string-written (suc fuel) s h h' run)
