-- ===== src/Controller/Can/Receive.antt =====
-- The buffer of `SLCan::input` refines the line buffer, and `SLCan::handle` the parser.
use pi_industrial_robottools.Base.{
  ℕ, zero, suc, ◌+◌, ◌-◌, ◌*◌, ◌≤◌, ◌<◌, ◌≡◌, refl, ap, ◌∙◌, ◌⊎◌, inl, inr, arith, List, [], ◌∷◌,
  ◌++◌, Option, none, some, length, get_or, set, take, ltb, ◌==◌, length-set, length-take,
  length-replicate, Bool-cases,
}
use pi_industrial_robottools.Controller.Can.{
  CanRxTab, SlCan, Outcome, ignored, called, overrun, find_item, hex_to_dec, hex_byte, handle,
  handle_item, handle_found, store, restart, input_byte, slot, slc_mtu, fill, deliver,
}
use pi_industrial_robottools.Controller.Can.Decode.{payload, length-payload, fill-Fills, fill_over}
use pi_industrial_robottools.Controller.Can.Line.{parse, parse_item, extend, push}

get_or-take : (n i : ℕ) (xs : List ℕ) → i < n → get_or (take n xs) i 0 ≡ get_or xs i 0
get_or-take zero i xs h = absurd (omega arith)
get_or-take (suc n) i [] h = refl
get_or-take (suc n) zero (x ∷ xs) h = refl
get_or-take (suc n) (suc i) (x ∷ xs) h = get_or-take n i xs (omega arith)

take-set :
    (i : ℕ) (xs : List ℕ) (v : ℕ) → i < length xs → take (suc i) (set xs i v) ≡ take i xs ++ v ∷ []
take-set i [] v h = absurd (omega arith)
take-set zero (x ∷ xs) v h = refl
take-set (suc i) (x ∷ xs) v h = ap (◌∷◌ x) (take-set i xs v (omega arith))

take_next :
    (i : ℕ) (xs : List ℕ) (v : ℕ) → i < length xs → take (i + 1) (set xs i v) ≡ take i xs ++ v ∷ []
take_next i xs v h = let e : i + 1 ≡ suc i = omega arith in rw e (take-set i xs v h)

hex_byte-take : (n i : ℕ) (xs : List ℕ) → i + 1 < n → hex_byte (take n xs) i ≡ hex_byte xs i
unfolding hex_byte
hex_byte-take n i xs h =
    rw (get_or-take n i xs (omega arith), get_or-take n (i + 1) xs (omega arith))

payload-take : (n i m : ℕ) (xs : List ℕ) → i + m * 2 ≤ n → payload (take n xs) i m ≡ payload xs i m
unfolding payload
payload-take n i zero xs h = refl
payload-take n i (suc m) xs h =
    rw (hex_byte-take n i xs (omega arith), payload-take n (i + 2) m xs (omega arith))

module _ {ℓ} {A : Type ℓ} where
  find_item-take :
      (n : ℕ) (xs : List ℕ) (tab : List (CanRxTab A))
      → 4 ≤ n
      → find_item (take n xs) tab ≡ find_item xs tab
  unfolding find_item
  find_item-take n xs [] h = refl
  find_item-take n xs (item ∷ tab) h = rw (
    get_or-take n 1 xs (omega arith),
    get_or-take n 2 xs (omega arith),
    get_or-take n 3 xs (omega arith),
    find_item-take n xs tab h,
  )

  -- The write position never leaves the buffer.
  pub record IsValid (c : SlCan A) : Type 0 where
    pub in_buffer : c.rptr ≤ slc_mtu
    pub size : length c.rxbuf ≡ slc_mtu

  -- The line received so far.
  abbrev pub pending : SlCan A → List ℕ
  pending c = take c.rptr c.rxbuf

  length-pending : (c : SlCan A) → IsValid c → length (pending c) ≡ c.rptr
  length-pending c v = omega (arith, length-take c.rptr c.rxbuf)

  pub store-IsValid : (bi : ℕ) {c : SlCan A} → IsValid c → IsValid (store bi c)
  unfolding store
  store-IsValid bi {c} v = record {
    in_buffer = ground arith;
    size = length-set c.rxbuf (slot c) bi ∙ v.size;
  }

  pub restart-IsValid : (c : SlCan A) → IsValid (restart c)
  unfolding restart
  restart-IsValid c = record { in_buffer = omega arith; size = length-replicate {A = ℕ} slc_mtu 0 }

  pub store-pending :
      (bi : ℕ) (c : SlCan A) → IsValid c → pending (store bi c) ≡ extend (pending c) bi
  unfolding store extend
  store-pending bi c v =
      ground (arith, length-pending c v, take_next 0 c.rxbuf bi, take_next c.rptr c.rxbuf bi)

  -- With a write position in the buffer, one character is written inside the buffer, leaves the
  -- write position inside, and moves the line that was received as the line buffer moves: a
  -- carriage return ends it, a line that is too long is dropped, and any other character goes to
  -- its end.
  pub input_byte-pending :
      (stack : List ℕ) (bi : ℕ) (c : SlCan A)
      → IsValid c
      → IsValid (input_byte stack bi c).0
        × (slot c < length c.rxbuf)
        × (pending (input_byte stack bi c).0 ≡ push (pending c) bi)
  unfolding input_byte push
  input_byte-pending stack bi c v =
      ground (arith, store-IsValid bi v, restart-IsValid (store bi c), store-pending bi c v)

  -- What `handle` does with a line, given what the parser makes of it.
  abbrev pub Handles : Option (A × List ℕ) → Outcome A → Type ℓ
  Handles none o = o ≡ ignored
  Handles (some (cb, bytes)) o =
      ((length bytes < 8)
        × (d : List ℕ) × (o ≡ called (record { cb = cb; bytes = d; len = length bytes }))
        × (length d ≡ 8)
        × (take (length bytes) d ≡ bytes))
      ⊎ ((8 ≤ length bytes) × (o ≡ overrun))

  deliver-Handles :
      (rx : List ℕ) (cb : A) (n : ℕ) (stack : List ℕ)
      → length stack ≡ 8
      → Handles (some (cb, payload rx 5 n)) (deliver cb n (fill rx n stack))
  deliver-Handles rx cb n stack l = elim (Bool-cases (ltb n 8)) [
    | inl small ↦
        let f = fill-Fills rx n stack l (ground arith) in
        rw (length-payload rx 5 n) (inl (ground arith, f.0, rw (f.1, deliver) refl, f.2, f.3))
    | inr big ↦
        rw (length-payload rx 5 n)
          (inr (ground arith, rw (fill_over rx n stack l (ground arith), deliver) refl))
  ]

  handle_item-Handles :
      (stack : List ℕ) (c : SlCan A) (item : CanRxTab A)
      → length stack ≡ 8
      → IsValid c
      → 6 ≤ c.rptr
      → Handles (parse_item (pending c) (some item)) (handle_item stack c item)
  unfolding handle_item
  handle_item-Handles stack c item l v h =
      let n = hex_to_dec (get_or c.rxbuf 4 0) in
      rw (get_or-take c.rptr 4 c.rxbuf (omega arith), length-pending c v)
        (elim (Bool-cases (n * 2 == c.rptr - 6)) [
          | inl fits ↦
              rw (fits, payload-take c.rptr 5 n c.rxbuf (ground arith))
                (deliver-Handles c.rxbuf item.cb n stack l)
          | inr other ↦ rw other refl
        ])

  handle_found-Handles :
      (stack : List ℕ) (c : SlCan A) (found : Option (CanRxTab A))
      → length stack ≡ 8
      → IsValid c
      → 6 ≤ c.rptr
      → Handles (parse_item (pending c) found) (handle_found stack c found)
  handle_found-Handles stack c none l v h = refl
  handle_found-Handles stack c (some item) l v h = handle_item-Handles stack c item l v h

  -- With a write position in the buffer and an array of eight bytes, `handle` delivers what the
  -- parser of lines makes of the line that was received, overruns its array if that is eight
  -- bytes or more, and ignores a line that does not parse.
  pub handle-Handles :
      (stack : List ℕ) (c : SlCan A)
      → length stack ≡ 8
      → IsValid c
      → Handles (parse c.tab (pending c)) (handle stack c)
  unfolding handle parse
  handle-Handles stack c l v = elim (Bool-cases (ltb c.rptr 6)) [
    | inl short ↦ rw (length-pending c v, short) refl
    | inr long ↦
        rw
          (
            length-pending c v,
            long,
            get_or-take c.rptr 0 c.rxbuf (ground arith),
            find_item-take c.rptr c.rxbuf c.tab (ground arith),
          )
          (elim (Bool-cases (get_or c.rxbuf 0 0 == b't')) [
            | inl data_frame ↦
                rw data_frame
                  (handle_found-Handles stack c (find_item c.rxbuf c.tab) l v (ground arith))
            | inr other ↦ rw other refl
          ])
  ]
