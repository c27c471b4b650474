-- ===== src/Session/Rx/Laws.antt =====
-- What the RX worker relies on: the documented behaviour of a `Transport` (src/uart/transport.rs)
-- and of the output, and the relation between what arrived and what was shown.
use glasgow_tool.Prelude.{
  ℕ, ◌+◌, ◌%◌, ◌^◌, ◌≤◌, ◌≡◌, ◌⊎◌, inl, inr, ap, sym, ◌∙◌, String, List, ◌++◌, take, length,
  append_assoc, length-append, take-append_more, refl, take-all, arith, ◌+s◌,
}
use glasgow_tool.Error.{Error, access, Result, ok, err}
use glasgow_tool.Transport.{Transport}
use glasgow_tool.Session.Worker.{Host, Context, write_all_and_flush}

-- The bytes that the transport has handed over, and those that the output has taken.
pub record RxViews (W : Type 0) : Type 0 where
  pub arrived : W → List ℕ
  pub shown : W → List ℕ

-- Neither a byte arrived nor was one shown.
pub record Still {W : Type 0} (v : RxViews W) (w w' : W) : Type 0 where
  pub same_arrived : v.arrived w' ≡ v.arrived w
  pub same_shown : v.shown w' ≡ v.shown w

pub record RxLaws {W : Type 0} (transport : Transport W) (host : Host W) (v : RxViews W)
    : Type 0 where
  -- A read counts no more bytes than the buffer has, and these are the bytes that arrive.
  pub read_fits : (n : ℕ) (w : W) → (transport.read n w).0.completed ≤ n
  pub read_covers :
      (n : ℕ) (w : W) → (transport.read n w).0.completed ≤ length (transport.read n w).1
  pub arrived-read :
      (n : ℕ) (w : W)
      → v.arrived (transport.read n w).2
        ≡ v.arrived w ++ take (transport.read n w).0.completed (transport.read n w).1
  pub shown-read : (n : ℕ) (w : W) → v.shown (transport.read n w).2 ≡ v.shown w
  -- An output that succeeds took all its bytes, one that fails took a first part of them.
  pub arrived-output :
      (bytes : List ℕ) (w : W) → v.arrived (write_all_and_flush host bytes w).1 ≡ v.arrived w
  pub shown-output :
      (bytes : List ℕ) (w : W)
      → (write_all_and_flush host bytes w).0 ≡ ok tt
      → v.shown (write_all_and_flush host bytes w).1 ≡ v.shown w ++ bytes
  pub shown-output_failed :
      (bytes : List ℕ) (w : W)
      → (k : ℕ) × (k ≤ length bytes)
        × (v.shown (write_all_and_flush host bytes w).1 ≡ v.shown w ++ take k bytes)
  pub still-is_cancelled : (w : W) → Still v w (host.is_cancelled w).1
  pub still-sleep : (n : ℕ) (w : W) → Still v w (host.sleep n w)
  pub still-mark_rx : (w : W) → Still v w (host.mark_rx w)

-- From `arrived` in, `shown` out and a counter: what arrived since then was shown in order and
-- counted, all of it unless the output failed.
pub record Delivered {W : Type 0} (v : RxViews W) (arrived shown : List ℕ) (count : ℕ)
    (r : Result Error Unit) (d : Context W) : Type 0 where
  pub fresh : List ℕ
  pub passed : ℕ
  pub fits : passed ≤ length fresh
  pub came : v.arrived d.world ≡ arrived ++ fresh
  pub went : v.shown d.world ≡ shown ++ take passed fresh
  pub whole :
      (passed ≡ length fresh) × (d.statistics.rx ≡ (count + length fresh) % 2 ^ 64)
      ⊎ ((text : String) × (r ≡ err (access ("stdout write failed: " +s text))))

module _ {W : Type 0} (v : RxViews W) where
  -- A chunk delivered whole, and then more.
  pub Delivered-add :
      (bytes arrived shown arrived1 shown1 : List ℕ) (count count1 : ℕ) (r : Result Error Unit)
      (d : Context W)
      → arrived1 ≡ arrived ++ bytes
      → shown1 ≡ shown ++ bytes
      → count1 ≡ (count + length bytes) % 2 ^ 64
      → Delivered v arrived1 shown1 count1 r d
      → Delivered v arrived shown count r d
  Delivered-add bytes arrived shown arrived1 shown1 count count1 r d a s k h = record {
    fresh = bytes ++ h.fresh;
    passed = length bytes + h.passed;
    fits = omega (arith, h.fits, length-append bytes h.fresh);
    came = h.came ∙ ap (λ l. l ++ h.fresh) a ∙ append_assoc arrived bytes h.fresh;
    went =
        h.went
        ∙ ap (λ l. l ++ take h.passed h.fresh) s
        ∙ append_assoc shown bytes _
        ∙ ap (λ l. shown ++ l) (sym (take-append_more bytes h.fresh h.passed));
    whole = elim h.whole [
      | inl (all, counted) ↦ inl (
        omega (arith, all, length-append bytes h.fresh),
        omega (arith, counted, k, length-append bytes h.fresh),
      )
      | inr failed ↦ inr failed
    ];
  }

  -- A chunk delivered whole, and the end.
  pub Delivered-all :
      (bytes arrived shown : List ℕ) (count : ℕ) (r : Result Error Unit) (d : Context W)
      → v.arrived d.world ≡ arrived ++ bytes
      → v.shown d.world ≡ shown ++ bytes
      → d.statistics.rx ≡ (count + length bytes) % 2 ^ 64
      → Delivered v arrived shown count r d
  Delivered-all bytes arrived shown count r d a s k = record {
    fresh = bytes;
    passed = length bytes;
    fits = omega arith;
    came = a;
    went = s ∙ ap (λ l. shown ++ l) (sym (take-all (length bytes) bytes (omega arith)));
    whole = inl (refl, k);
  }
