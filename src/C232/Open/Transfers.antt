-- ===== src/C232/Open/Transfers.antt =====
-- The transfers of the USB endpoints (src/uart/c232/usb.rs): enough are submitted before the first
-- read, and none is left at the end.
use glasgow_tool.Prelude.{
  ℕ, zero, suc, ◌+◌, ◌≤◌, ◌≡◌, refl, ◌⊎◌, inl, inr, Bool, true, false, arith, Bool-cases, ◌==◌,
}
use glasgow_tool.C232.Open.{UsbBus, usb_transfer_count, fill, reap, stop_endpoint}

module _ {W : Type 0} (bus : UsbBus W) where
  fill-lemma :
      ((w : W) → bus.pending_in (bus.submit_in w) ≡ bus.pending_in w + 1)
      → (fuel : ℕ) (w : W) → usb_transfer_count ≤ bus.pending_in w + fuel
      → usb_transfer_count ≤ bus.pending_in (fill bus fuel w)
  unfolding fill
  fill-lemma law zero w h = omega arith
  fill-lemma law (suc fuel) w h = ground (arith, fill-lemma law fuel (bus.submit_in w), law w)

  -- Eight rounds are enough for the loop of `UsbRx::new`: it ends with the transfers in flight that it
  -- is to have, if a transfer that is submitted is pending.
  pub fill_enough :
      ((w : W) → bus.pending_in (bus.submit_in w) ≡ bus.pending_in w + 1)
      → (w : W) → usb_transfer_count ≤ bus.pending_in (fill bus usb_transfer_count w)
  fill_enough law w = fill-lemma law usb_transfer_count w (omega arith)

  reap-lemma :
      (pending : W → ℕ) (complete : W → Bool × W)
      → ((w : W) → (complete w).0 ≡ true → pending w ≡ pending (complete w).1 + 1)
      → (fuel : ℕ) (w : W) → pending w ≤ fuel
      → (pending (reap bus pending complete fuel w) ≡ 0)
        ⊎ ((v : W) × ((complete v).0 ≡ false) × ((complete v).1 ≡ reap bus pending complete fuel w))
  unfolding reap
  reap-lemma pending complete law zero w h = inl (omega arith)
  reap-lemma pending complete law (suc fuel) w h = elim (Bool-cases (pending w == 0)) [
    | inl z ↦ rw z (inl (ground (arith, z)))
    | inr z ↦ elim (Bool-cases (complete w).0) [
      | inl c ↦
          rw z (rw c (reap-lemma pending complete law fuel (complete w).1 (omega (arith, law w c))))
      | inr c ↦ rw z (rw c (inr (w, c, refl)))
    ]
  ]

  -- The wait for what `cancel_all` cancelled ends with nothing pending, or with a wait that timed out,
  -- if a transfer that completed is no longer pending.
  pub stop_endpoint_done :
      (cancel : W → W) (pending : W → ℕ) (complete : W → Bool × W) (w : W)
      → ((w : W) → (complete w).0 ≡ true → pending w ≡ pending (complete w).1 + 1)
      → (pending (stop_endpoint bus cancel pending complete w) ≡ 0)
        ⊎ ((v : W) × ((complete v).0 ≡ false)
            × ((complete v).1 ≡ stop_endpoint bus cancel pending complete w))
  unfolding stop_endpoint
  stop_endpoint_done cancel pending complete w law =
      reap-lemma pending complete law (pending (cancel w)) (cancel w) (omega arith)
