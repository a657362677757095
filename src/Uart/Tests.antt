-- ===== src/Uart/Tests.antt =====
-- The serial line with a device that is full at first, and with one that has room.
use mathlib.Core.List.{reverse_aux}
use osa_kernel_arm_boot_step.Prelude.{
  ℕ, ◌%◌, ◌/◌, ◌^◌, ◌≡◌, ◌<◌, refl, false, some, [], ◌∷◌, arith, zero, suc,
}
use osa_kernel_arm_boot_step.Mmio.{Device, History, read, write, at, written, get_bit32}
use osa_kernel_arm_boot_step.Uart.{
  dr, mis, icr, bit_rxim, uart_send, uart_send_string, uart_ack_irqs,
}
use osa_kernel_arm_boot_step.Uart.Send.{
  has_room, polls, uart_send-polls, until_nul, uart_send_string-sent,
}
use osa_kernel_arm_boot_step.Uart.Irqs.{uart_ack_irqs_lem}

-- The first answer is the flag of a full transmit FIFO.
abbrev full_once : Device
full_once w addr [] = 0x20
full_once w addr (_ ∷ _) = 0

busy : (k : ℕ) → k < 1 → has_room full_once 0x10009000 (polls full_once 0x10009000 k []) ≡ false
busy zero lt = refl
busy (suc k) lt = absurd (omega arith)

uart_send-polls_example :
    uart_send full_once 0x10009000 2 65 []
    ≡ some (tt, write 32 0x10009000 65 ∷ read 32 0x10009018 ∷ read 32 0x10009018 ∷ [])
uart_send-polls_example = uart_send-polls full_once 0x10009000 1 2 65 [] (omega arith) busy refl

uart_send_string-sent_example :
    (h' : History) × (uart_send_string (λ w addr h. 0) 0x10009000 1 (72 ∷ 105 ∷ 0 ∷ []) []
      ≡ some (tt, h'))
    × (written 32 (at 0x10009000 dr) h'
        ≡ reverse_aux (until_nul (λ w addr h. 0) 0x10009000 (72 ∷ 105 ∷ 0 ∷ [])) [])
unfolding written
uart_send_string-sent_example =
    uart_send_string-sent (λ w addr h. 0) 0x10009000 0 (72 ∷ 105 ∷ 0 ∷ []) [] (λ g. refl)

uart_ack_irqs_lem_example :
    (x : ℕ) × (uart_ack_irqs (λ w addr h. 0x7F) 0x10009000 []
      ≡ some (tt, write 32 (at 0x10009000 icr) x ∷ read 32 (at 0x10009000 mis) ∷ []))
    × (get_bit32 x bit_rxim ≡ 0)
    × (x % 2 ^ 4 ≡ 0xF)
    × (x / 2 ^ 5 ≡ 3)
uart_ack_irqs_lem_example = uart_ack_irqs_lem (λ w addr h. 0x7F) 0x10009000 []
