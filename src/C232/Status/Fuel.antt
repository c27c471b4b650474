-- ===== src/C232/Status/Fuel.antt =====
-- The fuel of the loop over packets (src/uart/c232/usb.rs).
use glasgow_tool.Prelude.{
  ℕ, zero, suc, ◌-◌, ◌≤◌, ◌≡◌, refl, Option, List, [], ◌∷◌, arith, length, drop, length-drop,
}
use glasgow_tool.C232.Status.{FtdiLineCounters, strip_packets}

-- Any fuel from the number of bytes on gives one result: the loop never runs out of it.
pub strip_packets_fuel :
    (f g n : ℕ) (transfer payload : List ℕ) (counters : FtdiLineCounters) (previous : Option ℕ)
    → length transfer ≤ f
    → length transfer ≤ g
    → strip_packets f n transfer payload counters previous
      ≡ strip_packets g n transfer payload counters previous
unfolding strip_packets
strip_packets_fuel zero zero n t p c l hf hg = refl
strip_packets_fuel zero (suc g) n [] p c l hf hg = refl
strip_packets_fuel zero (suc g) n (x ∷ t) p c l hf hg = absurd (omega arith)
strip_packets_fuel (suc f) zero n [] p c l hf hg = refl
strip_packets_fuel (suc f) zero n (x ∷ t) p c l hf hg = absurd (omega arith)
strip_packets_fuel (suc f) (suc g) n [] p c l hf hg = refl
strip_packets_fuel (suc f) (suc g) n (x ∷ []) p c l hf hg = refl
strip_packets_fuel (suc f) (suc g) n (x ∷ y ∷ t) p c l hf hg =
    strip_packets_fuel f g n (drop (n - 2) t) _ _ _ (omega (arith, length-drop (n - 2) t))
      (omega (arith, length-drop (n - 2) t))
