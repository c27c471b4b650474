-- ===== src/Session/Tx/Relayed.antt =====
-- The relation of what was read to what went out, and how it composes (src/uart/session.rs).
use glasgow_tool.Prelude.{
  ℕ, zero, suc, ◌+◌, ◌≤◌, ◌≡◌, ◌≢◌, refl, sym, ap, ◌∙◌, List, [], ◌∷◌, ◌++◌, length, take, arith,
  append-nil, append_assoc, length-append, take-append_more,
}
use glasgow_tool.Error.{Error, Result, ok}
use glasgow_tool.Session.{StopReason, rx_idle}
use glasgow_tool.Session.Worker.{Context}
use glasgow_tool.Session.Tx.Laws.{Views, Quiet}

-- From `wire` out and `input` read: a prefix of the input that was read since then went out, in
-- order and unchanged, and all of it if the input ended.
pub record Relayed {W : Type 0} (v : Views W) (wire input : List ℕ) (r : Result Error StopReason)
    (d : Context W) : Type 0 where
  pub fresh : List ℕ
  pub sent : ℕ
  pub fits : sent ≤ length fresh
  pub read : v.consumed d.world ≡ input ++ fresh
  pub wired : v.wire d.world ≡ wire ++ take sent fresh
  pub whole : r ≡ ok rx_idle → sent ≡ length fresh

pub take_of_take : (n m : ℕ) (xs : List ℕ) → n ≤ length (take m xs) → take n (take m xs) ≡ take n xs
take_of_take zero m xs h = refl
take_of_take (suc n) zero xs h = absurd (omega arith)
take_of_take (suc n) (suc m) [] h = refl
take_of_take (suc n) (suc m) (x ∷ xs) h = ap (λ l. x ∷ l) (take_of_take n m xs (omega arith))

module _ {W : Type 0} (v : Views W) where
  -- A chunk relayed whole, and then more.
  pub Relayed-add :
      (bytes wire input wire1 input1 : List ℕ) (r : Result Error StopReason) (d : Context W)
      → wire1 ≡ wire ++ bytes
      → input1 ≡ input ++ bytes
      → Relayed v wire1 input1 r d
      → Relayed v wire input r d
  Relayed-add bytes wire input wire1 input1 r d w i h = record {
    fresh = bytes ++ h.fresh;
    sent = length bytes + h.sent;
    fits = omega (arith, h.fits, length-append bytes h.fresh);
    read = h.read ∙ ap (λ l. l ++ h.fresh) i ∙ append_assoc input bytes h.fresh;
    wired =
        h.wired
        ∙ ap (λ l. l ++ take h.sent h.fresh) w
        ∙ append_assoc wire bytes _
        ∙ ap (λ l. wire ++ l) (sym (take-append_more bytes h.fresh h.sent));
    whole = λ k. omega (arith, h.whole k, length-append bytes h.fresh);
  }

  -- A prefix of the last chunk, when the input has not ended.
  pub Relayed-part :
      (n : ℕ) (bytes wire input : List ℕ) (r : Result Error StopReason) (d : Context W)
      → r ≢ ok rx_idle
      → n ≤ length bytes
      → v.consumed d.world ≡ input ++ bytes
      → v.wire d.world ≡ wire ++ take n bytes
      → Relayed v wire input r d
  Relayed-part n bytes wire input r d more fits i w = record {
    fresh = bytes;
    sent = n;
    fits = fits;
    read = i;
    wired = w;
    whole = λ k. absurd (more k);
  }

  -- Nothing read, nothing sent.
  pub Relayed-none :
      (wire input : List ℕ) (r : Result Error StopReason) (d : Context W)
      → v.consumed d.world ≡ input
      → v.wire d.world ≡ wire
      → Relayed v wire input r d
  Relayed-none wire input r d i w = record {
    fresh = [];
    sent = 0;
    fits = omega arith;
    read = i ∙ sym (append-nil input);
    wired = w ∙ sym (append-nil wire);
    whole = λ k. refl;
  }

  -- Nothing moves after the loop.
  pub Relayed-quiet :
      (wire input : List ℕ) (r r' : Result Error StopReason) (d d' : Context W)
      → Quiet v d.world d'.world
      → (r' ≡ ok rx_idle → r ≡ ok rx_idle)
      → Relayed v wire input r d
      → Relayed v wire input r' d'
  Relayed-quiet wire input r r' d d' quiet back h = record {
    fresh = h.fresh;
    sent = h.sent;
    fits = h.fits;
    read = quiet.same_input ∙ h.read;
    wired = quiet.same_wire ∙ h.wired;
    whole = λ k. h.whole (back k);
  }
