-- ===== src/Papilio/IoBase/Buffer.antt =====
-- The TMS buffer of papilio-prog/iobase.cpp as the row of TMS bits that it stands for.
use mathlib.Core.List.{append-nil, append_assoc}
use pi_industrial_robottools.Base.{
  ℕ, zero, suc, ◌+◌, ◌-◌, ◌≤◌, ◌<◌, ◌≡◌, refl, ap, ap₂, sym, ◌∙◌, inl, inr, arith, Bool, false,
  ◌||◌, List, [], ◌∷◌, ◌++◌, leb, replicate, ◌==◌, if◌then◌else◌, Bool-cases,
}
use pi_industrial_robottools.Papilio.IoBase.{
  IoBase, Event, tx_tms, txrx_block, ok, fault, read_bits, flush_tms, put_bit, make_room,
  chunk_bits,
}

-- The TMS bits of an event: a shift has TMS low but for its last bit.
abbrev pub event_bits : Event → List Bool
event_bits (tx_tms bits) = bits
event_bits (txrx_block tdi reads length last) =
    if length == 0 then [] else replicate (length - 1) false ++ last ∷ []

abbrev pub sent : List Event → List Bool
sent [] = []
sent (e ∷ es) = event_bits e ++ sent es

pub sent-append : (es fs : List Event) → sent (es ++ fs) ≡ sent es ++ sent fs
sent-append [] fs = refl
sent-append (e ∷ es) fs =
    ap (◌++◌ (event_bits e)) (sent-append es fs)
    ∙ sym (append_assoc (event_bits e) (sent es) (sent fs))

-- All TMS bits so far: those sent, and those in the buffer.
abbrev pub stream : IoBase → List Bool
stream io = sent io.out ++ read_bits io.tms_buf io.tms_len

-- The buffer holds what fits, and nothing beyond its length.
pub record IsValid (io : IoBase) : Type 0 where
  pub fits : io.tms_len ≤ chunk_bits
  pub clean : (i : ℕ) → io.tms_len ≤ i → io.tms_buf i ≡ false

read_bits-ext :
    (n : ℕ) (f g : ℕ → Bool) → ((i : ℕ) → i < n → f i ≡ g i) → read_bits f n ≡ read_bits g n
unfolding read_bits
read_bits-ext zero f g h = refl
read_bits-ext (suc n) f g h =
    ap₂ (λ bs b. bs ++ b ∷ []) (read_bits-ext n f g (λ i lt. h i (omega arith))) (h n (omega arith))

pub flush_tms-IsValid : (io : IoBase) → IsValid (flush_tms io)
unfolding flush_tms
flush_tms-IsValid io = record { fits = omega arith; clean = λ i h. refl }

-- Flushing sends the bits and changes nothing else.
pub flush_tms-stream : (io : IoBase) → stream (flush_tms io) ≡ stream io
unfolding flush_tms read_bits
flush_tms-stream io = go io.tms_len
  where
    go :
        (n : ℕ)
        → sent (if n == 0 then io.out else io.out ++ tx_tms (read_bits io.tms_buf n) ∷ [])
            ++ read_bits (λ i. false) 0
          ≡ sent io.out ++ read_bits io.tms_buf n
    go zero = refl
    go (suc n) =
        let some_bits : (suc n == 0) ≡ false = ground arith in
        rw some_bits (
          append-nil _
          ∙ sent-append io.out (tx_tms (read_bits io.tms_buf (suc n)) ∷ [])
          ∙ ap (◌++◌ (sent io.out)) (append-nil _))

pub flush_tms-empty : (io : IoBase) → (flush_tms io).tms_len ≡ 0
unfolding flush_tms
flush_tms-empty io = refl

pub flush_tms-state : (io : IoBase) → (flush_tms io).current_state ≡ io.current_state
unfolding flush_tms
flush_tms-state io = refl

-- Events after a flush add their bits.
pub sent_after_flush :
    (es : List Event) (io : IoBase)
    → stream (record (flush_tms io) { out = (flush_tms io).out ++ es }) ≡ stream io ++ sent es
unfolding flush_tms read_bits
sent_after_flush es io =
    let before = (flush_tms io).out in
    append-nil _
    ∙ sent-append before es
    ∙ ap (λ bs. bs ++ sent es) (sym (append-nil (sent before)) ∙ flush_tms-stream io)

-- The state after the buffer was flushed and an event was sent.
abbrev pub with_event : Event → IoBase → IoBase
with_event e io = record (flush_tms io) { out = (flush_tms io).out ++ e ∷ [] }

pub with_event-stream :
    (e : Event) (io : IoBase) → stream (with_event e io) ≡ stream io ++ event_bits e
unfolding flush_tms read_bits
with_event-stream e io =
    let before = (flush_tms io).out in
    append-nil _
    ∙ sent-append before (e ∷ [])
    ∙ ap (◌++◌ (sent before)) (append-nil _)
    ∙ ap (λ bs. bs ++ event_bits e) (sym (append-nil (sent before)) ∙ flush_tms-stream io)

-- The state after a bit was put.
abbrev pub with_bit : Bool → IoBase → IoBase
with_bit b io = record io {
  tms_buf = λ i. if i == io.tms_len then io.tms_buf i || b else io.tms_buf i;
  tms_len = io.tms_len + 1;
}

pub put_bit_ok :
    (b : Bool) (io : IoBase) → io.tms_len < chunk_bits → put_bit b io ≡ ok (with_bit b io)
unfolding put_bit
put_bit_ok b io h = ground arith

pub put_bit_fault : (b : Bool) (io : IoBase) → chunk_bits ≤ io.tms_len → put_bit b io ≡ fault
unfolding put_bit
put_bit_fault b io h = ground arith

pub with_bit-IsValid :
    (b : Bool) (io : IoBase) → IsValid io → io.tms_len < chunk_bits → IsValid (with_bit b io)
with_bit-IsValid b io v h = record { fits = omega arith; clean = λ i le. ground (arith, v.clean i) }

read_bits_next :
    (n : ℕ) (f : ℕ → Bool) (b : Bool)
    → f n ≡ false
    → read_bits (λ i. if i == n then f i || b else f i) (n + 1) ≡ read_bits f n ++ b ∷ []
unfolding read_bits
read_bits_next n f b h =
    let e : n + 1 ≡ suc n = omega arith in
    rw e (
      ap₂ (λ bs c. bs ++ c ∷ [])
        (read_bits-ext n (λ i. if i == n then f i || b else f i) f (λ i lt. ground arith))
        (ground arith))

-- A bit that is put is the next bit of the row.
pub with_bit-stream :
    (b : Bool) (io : IoBase) → IsValid io → stream (with_bit b io) ≡ stream io ++ b ∷ []
with_bit-stream b io v =
    ap (◌++◌ (sent io.out))
      (read_bits_next io.tms_len io.tms_buf b (v.clean io.tms_len (omega arith)))
    ∙ sym (append_assoc (sent io.out) (read_bits io.tms_buf io.tms_len) (b ∷ []))

-- The buffer with room for one bit.
pub make_room-IsValid : (io : IoBase) → IsValid io → IsValid (make_room io)
make_room-IsValid io v = elim (Bool-cases (leb chunk_bits io.tms_len)) [
  | inl full ↦ rw full (flush_tms-IsValid io)
  | inr room ↦ rw room v
]

pub make_room-lt : (io : IoBase) → (make_room io).tms_len < chunk_bits
make_room-lt io = ground (arith, flush_tms-empty io)

pub make_room-stream : (io : IoBase) → stream (make_room io) ≡ stream io
make_room-stream io = elim (Bool-cases (leb chunk_bits io.tms_len)) [
  | inl full ↦ rw full (flush_tms-stream io)
  | inr room ↦ rw room refl
]

pub make_room-state : (io : IoBase) → (make_room io).current_state ≡ io.current_state
make_room-state io = ground (arith, flush_tms-state io)

-- Bits that are skipped are low.
abbrev pub skip : ℕ → IoBase → IoBase
skip n io = record io { tms_len = io.tms_len + n }

pub skip-IsValid :
    (n : ℕ) (io : IoBase) → IsValid io → io.tms_len + n ≤ chunk_bits → IsValid (skip n io)
skip-IsValid n io v h = record { fits = h; clean = λ i le. v.clean i (omega arith) }

replicate_snoc :
    (n : ℕ) (bs : List Bool)
    → (bs ++ replicate n false) ++ false ∷ [] ≡ bs ++ replicate (suc n) false
replicate_snoc n bs = append_assoc bs (replicate n false) (false ∷ []) ∙ ap (◌++◌ bs) (tail n)
  where
    tail : (n : ℕ) → replicate n false ++ false ∷ [] ≡ false ∷ replicate n false
    tail zero = refl
    tail (suc n) = ap (◌∷◌ false) (tail n)

read_bits_skip :
    (n m : ℕ) (f : ℕ → Bool)
    → ((i : ℕ) → m ≤ i → f i ≡ false)
    → read_bits f (n + m) ≡ read_bits f m ++ replicate n false
unfolding read_bits
read_bits_skip zero m f h =
    let e : 0 + m ≡ m = omega arith in rw e (sym (append-nil (read_bits f m)))
read_bits_skip (suc n) m f h =
    let e : suc n + m ≡ suc (n + m) = omega arith in
    rw e (
      ap₂ (λ bs b. bs ++ b ∷ []) (read_bits_skip n m f h) (h (n + m) (omega arith))
      ∙ replicate_snoc n (read_bits f m))

pub skip-stream :
    (n : ℕ) (io : IoBase) → IsValid io → stream (skip n io) ≡ stream io ++ replicate n false
skip-stream n io v =
    let e : io.tms_len + n ≡ n + io.tms_len = omega arith in
    rw e (
      ap (◌++◌ (sent io.out)) (read_bits_skip n io.tms_len io.tms_buf v.clean)
      ∙ sym (append_assoc (sent io.out) (read_bits io.tms_buf io.tms_len) (replicate n false)))
