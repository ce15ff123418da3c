-- ===== src/Controller/Can/RoundTrip.antt =====
-- What `SLCan::send` writes, `SLCan::input` reads back.
use pi_industrial_robottools.Base.{
  ℕ, ◌+◌, ◌*◌, ◌≤◌, ◌<◌, ◌≡◌, refl, arith, List, [], ◌∷◌, ◌++◌, none, some, length, false, All,
}
use pi_industrial_robottools.Base.Word.{IsByte}
use pi_industrial_robottools.Controller.Can.{CanRxTab, SlCan, find_item, input, send, line}
use pi_industrial_robottools.Controller.Can.Text.{NoCr, parse-line, line-NoCr, length-line}
use pi_industrial_robottools.Controller.Can.Complete.{Reads, line-Reads, line_overruns}
use pi_industrial_robottools.Controller.Can.Receive.{IsValid}

send_text :
    (id buf : List ℕ) (available : ℕ)
    → length id ≡ 3
    → length buf ≤ 8
    → 6 + length buf * 2 ≤ available
    → send id buf (length buf) available ≡ (false, line id buf (length buf) ++ 13 ∷ [])
unfolding send
send_text id buf available l small room = ground arith

module _ {ℓ} {A : Type ℓ} (stack : SlCan A → List ℕ) (fresh : (s : SlCan A) → length (stack s) ≡ 8)
    (c : SlCan A) (valid : IsValid c) (empty : c.rptr ≡ 0) where
  -- A frame of at most seven bytes that `send` writes, with room for it, for an identifier of the
  -- table that has no carriage return, is read back by a receiver that stands at the start of a
  -- line: it calls that item's callback once, with the number of bytes, and with an array that
  -- begins with exactly these bytes; and it stands at the start of a line again. The receiver's
  -- write position is in its buffer at first.
  pub send-input :
      (a b d : ℕ) (buf : List ℕ) (available : ℕ) {item : CanRxTab A}
      → find_item (0 ∷ a ∷ b ∷ d ∷ []) c.tab ≡ some item
      → NoCr (a ∷ b ∷ d ∷ [])
      → All IsByte buf
      → length buf < 8
      → 6 + length buf * 2 ≤ available
      → Reads stack (send (a ∷ b ∷ d ∷ []) buf (length buf) available).1 c item.cb buf
  send-input a b d buf available {item} found nocr bytes small room =
      rw (send_text (a ∷ b ∷ d ∷ []) buf available refl (omega arith) room) (
        line-Reads stack (line (a ∷ b ∷ d ∷ []) buf (length buf)) buf c fresh valid empty
          (line-NoCr a b d buf nocr) (length-line a b d buf (omega arith)) small
          (parse-line c.tab a b d buf found bytes (omega arith)))

  -- A frame of eight bytes, which `send` accepts without an error when there is room for it,
  -- makes a receiver at the start of a line, with that identifier in its table, write past the
  -- end of the array that it decodes into. The identifier has no carriage return, and the
  -- receiver's write position is in its buffer at first.
  pub send-input_overrun :
      (a b d : ℕ) (buf : List ℕ) (available : ℕ) {item : CanRxTab A}
      → find_item (0 ∷ a ∷ b ∷ d ∷ []) c.tab ≡ some item
      → NoCr (a ∷ b ∷ d ∷ [])
      → All IsByte buf
      → length buf ≡ 8
      → 6 + length buf * 2 ≤ available
      → ((send (a ∷ b ∷ d ∷ []) buf (length buf) available).0 ≡ false)
        × (input stack (send (a ∷ b ∷ d ∷ []) buf (length buf) available).1 c ≡ none)
  send-input_overrun a b d buf available {item} found nocr bytes full room =
      rw (send_text (a ∷ b ∷ d ∷ []) buf available refl (omega arith) room) (
        refl,
        line_overruns stack (line (a ∷ b ∷ d ∷ []) buf (length buf)) buf c fresh valid empty
            (line-NoCr a b d buf nocr) (length-line a b d buf (omega arith)) (omega arith)
            (parse-line c.tab a b d buf found bytes (omega arith)),
      )
