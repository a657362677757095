-- ===== src/Timer/Control.antt =====
-- The control word of the timer, and where `setTimmer` writes it.
use osa_kernel_arm_boot_step.Prelude.{
  ℕ, ◌+◌, ◌/◌, ◌%◌, ◌^◌, ◌<◌, ◌≤◌, ◌≡◌, Bool, true, false, some, ◌∷◌, ◌==◌, if◌then◌else◌, arith,
  Bool-cases, inl, inr, ◌&&◌,
}
use osa_kernel_arm_boot_step.Mmio.{Device, History, write, at, written, get_bit32}
use osa_kernel_arm_boot_step.Timer.{
  new_control, program, set_timmer, arm_pwt_base_offset, off_control, off_counter, off_load,
  bit_auto_reload, bit_interupt_enable, bit_watchdog_enable, bit_watchdog_mode,
}

-- The new control word turns the interrupt and the timer on, turns the automatic reload on if it
-- was on or several shots are wanted, and keeps every other bit.
pub new_control_bits :
    (ctrl multiple_shot : ℕ)
    → ctrl < 2 ^ 32
    → (get_bit32 (new_control ctrl multiple_shot) bit_interupt_enable ≡ 1)
      × (get_bit32 (new_control ctrl multiple_shot) bit_watchdog_enable ≡ 1)
      × (get_bit32 (new_control ctrl multiple_shot) bit_auto_reload
          ≡ (if multiple_shot == 0 then get_bit32 ctrl bit_auto_reload else 1))
      × (new_control ctrl multiple_shot / 2 ^ bit_watchdog_mode ≡ ctrl / 2 ^ bit_watchdog_mode)
      × (new_control ctrl multiple_shot < 2 ^ 32)
unfolding new_control
new_control_bits ctrl multiple_shot fits =
    (ground arith, ground arith, ground arith, ground arith, ground arith)

-- The timer's own control register.
abbrev control_of : ℕ → ℕ
control_of periph = at ((periph + arm_pwt_base_offset) % 2 ^ 32) off_control

module _ (periph : ℕ) (pos : 0 < periph) (fits : periph + 0x7000 ≤ 2 ^ 32) where
  abbrev base : ℕ
  base = (periph + arm_pwt_base_offset) % 2 ^ 32

  -- None of the three places that are written is the control register.
  apart :
      ((at base off_counter == control_of periph) ≡ false)
      × ((at base off_load == control_of periph) ≡ false)
      × ((at arm_pwt_base_offset off_control == control_of periph) ≡ false)
  apart = ground arith

  abbrev to_timer : (off value : ℕ) → History → History
  to_timer off value h = write 32 (at base off) (value % 2 ^ 32) ∷ h

  abbrev astray : ℕ → History → History
  astray value h = write 32 (at arm_pwt_base_offset off_control) (value % 2 ^ 32) ∷ h

  program-control :
      (time ctrl new : ℕ) (timer_mode reload : Bool) (h : History)
      → (h' : History) × (program base time ctrl new timer_mode reload h ≡ some (tt, h'))
        × (written 32 (control_of periph) h' ≡ written 32 (control_of periph) h)
  unfolding program written
  program-control time ctrl new true true h =
      let s = to_timer off_load time (to_timer off_counter time h) in
      elim (Bool-cases (new == ctrl)) [
        | inl same ↦ (s, rw same, rw (apart.0, apart.1))
        | inr other ↦ (astray new s, rw other, rw (apart.0, apart.1, apart.2))
      ]
  program-control time ctrl new true false h =
      let s = to_timer off_counter time h in
      elim (Bool-cases (new == ctrl)) [
        | inl same ↦ (s, rw same, rw (apart.0))
        | inr other ↦ (astray new s, rw other, rw (apart.0, apart.2))
      ]
  program-control time ctrl new false reload h =
      let s = to_timer off_load time h in
      let once : (reload && false) ≡ false = ground arith in
      elim (Bool-cases (new == ctrl)) [
        | inl same ↦ (s, rw (once, same), rw (apart.1))
        | inr other ↦ (astray new s, rw (once, other), rw (apart.1, apart.2))
      ]

  -- On a processor whose private memory region is not at address 0 and does not wrap around,
  -- `setTimmer` ends and has written nothing to the control register of the timer.
  pub set_timmer-control :
      (dev : Device) (gid time multiple_shot : ℕ) (h : History)
      → (h' : History) × (set_timmer dev gid periph time multiple_shot h ≡ some (tt, h'))
        × (written 32 (control_of periph) h' ≡ written 32 (control_of periph) h)
  unfolding set_timmer written
  set_timmer-control dev gid time multiple_shot h = program-control time _ _ _ _ _
