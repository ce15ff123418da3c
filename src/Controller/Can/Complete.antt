-- ===== src/Controller/Can/Complete.antt =====
-- How `SLCan::input` takes a complete line.
use mathlib.Core.List.{append-nil, append_assoc}
use pi_industrial_robottools.Base.{
  ℕ, ◌+◌, ◌≤◌, ◌<◌, ◌≡◌, ◌≢◌, refl, ap, ap₂, sym, subst, ◌∙◌, inl, inr, arith, List, [], ◌∷◌, ◌++◌,
  none, some, length, take, length-append,
}
use pi_industrial_robottools.Controller.Can.{
  SlCan, ignored, handle, store, restart, and_then, input_byte, input,
}
use pi_industrial_robottools.Controller.Can.Line.{parse, extend}
use pi_industrial_robottools.Controller.Can.Text.{NoCr}
use pi_industrial_robottools.Controller.Can.Receive.{
  IsValid, pending, store-IsValid, store-pending, handle-Handles, Handles,
}

extend_room : (l : List ℕ) (x : ℕ) → length l < 33 → extend l x ≡ l ++ x ∷ []
unfolding extend
extend_room l x h = ground arith

module _ {ℓ} {A : Type ℓ} where
  -- The characters of a line that is not complete are only stored.
  stores : List ℕ → SlCan A → SlCan A
  stores [] c = c
  stores (x ∷ xs) c = stores xs (store x c)

  store-tab : (x : ℕ) (c : SlCan A) → (store x c).tab ≡ c.tab
  unfolding store
  store-tab x c = refl

  stores-tab : (xs : List ℕ) (c : SlCan A) → (stores xs c).tab ≡ c.tab
  unfolding stores
  stores-tab [] c = refl
  stores-tab (x ∷ xs) c = stores-tab xs (store x c) ∙ store-tab x c

  stores-IsValid : (xs : List ℕ) (c : SlCan A) → IsValid c → IsValid (stores xs c)
  unfolding stores
  stores-IsValid [] c v = v
  stores-IsValid (x ∷ xs) c v = stores-IsValid xs (store x c) (store-IsValid x v)

  stores-pending :
      (xs : List ℕ) (c : SlCan A) (l : List ℕ)
      → IsValid c
      → pending c ≡ l
      → length l + length xs ≤ 33
      → pending (stores xs c) ≡ l ++ xs
  unfolding stores
  stores-pending [] c l v e h = e ∙ sym (append-nil l)
  stores-pending (x ∷ xs) c l v e h =
      stores-pending xs (store x c) (l ++ x ∷ []) (store-IsValid x v)
        (store-pending x c v ∙ ap (λ k. extend k x) e ∙ extend_room l x (omega arith))
        (omega (arith, length-append l (x ∷ [])))
      ∙ append_assoc l (x ∷ []) xs

  input_byte-store :
      (stack : List ℕ) (x : ℕ) (c : SlCan A) → x ≢ 13 → input_byte stack x c ≡ (store x c, ignored)
  unfolding input_byte
  input_byte-store stack x c h = ground arith

  input_byte-cr :
      (stack : List ℕ) (c : SlCan A)
      → input_byte stack 13 c ≡ (restart (store 13 c), handle stack (store 13 c))
  unfolding input_byte
  input_byte-cr stack c = refl

  input-append :
      (stack : SlCan A → List ℕ) (xs ys : List ℕ) (c : SlCan A)
      → NoCr xs
      → input stack (xs ++ ys) c ≡ input stack ys (stores xs c)
  unfolding input stores
  input-append stack [] ys c h = refl
  input-append stack (x ∷ xs) ys c h =
      rw (input_byte-store (stack c) x c h.0) (input-append stack xs ys (store x c) h.1)

  -- The receiver after a whole line and its carriage return.
  input_line :
      (stack : SlCan A → List ℕ) (xs : List ℕ) (c : SlCan A)
      → NoCr xs
      → input stack (xs ++ 13 ∷ []) c
        ≡ and_then
            (handle (stack (stores xs c)) (store 13 (stores xs c)))
            (some (restart (store 13 (stores xs c)), []))
  unfolding input
  input_line stack xs c h =
      input-append stack xs (13 ∷ []) c h ∙ rw (input_byte-cr (stack (stores xs c)) (stores xs c))

  restart_rptr : (c : SlCan A) → (restart c).rptr ≡ 0
  unfolding restart
  restart_rptr c = refl

  -- What a complete line leads to, when it parses to fewer than eight bytes.
  abbrev pub Reads : (SlCan A → List ℕ) → List ℕ → SlCan A → A → List ℕ → Type ℓ
  Reads stack text c cb buf =
      (c' : SlCan A) × (d : List ℕ) × (input stack text c
        ≡ some (c', record { cb = cb; bytes = d; len = length buf } ∷ []))
      × (take (length buf) d ≡ buf)
      × (c'.rptr ≡ 0)

  Reads-of_handle :
      (stack : SlCan A → List ℕ) (xs : List ℕ) (c : SlCan A) (cb : A) (buf : List ℕ)
      → NoCr xs
      → length buf < 8
      → Handles (some (cb, buf)) (handle (stack (stores xs c)) (store 13 (stores xs c)))
      → Reads stack (xs ++ 13 ∷ []) c cb buf
  Reads-of_handle stack xs c cb buf h small (inr over) = absurd (omega (arith, over.0))
  Reads-of_handle stack xs c cb buf h small (inl fine) = (
    restart (store 13 (stores xs c)),
    fine.1,
    input_line stack xs c h ∙ rw (fine.2, and_then) refl,
    fine.4,
    restart_rptr (store 13 (stores xs c)),
  )

  line_handled :
      (stack : SlCan A → List ℕ) (xs buf : List ℕ) (c : SlCan A) {cb : A}
      → ((s : SlCan A) → length (stack s) ≡ 8)
      → IsValid c
      → c.rptr ≡ 0
      → length xs < 33
      → parse c.tab (xs ++ 13 ∷ []) ≡ some (cb, buf)
      → Handles (some (cb, buf)) (handle (stack (stores xs c)) (store 13 (stores xs c)))
  line_handled stack xs buf c {cb} st v z short parsed =
      let c1 = stores xs c in
      let v1 = stores-IsValid xs c v in
      let p1 : pending c1 ≡ xs = stores-pending xs c [] v (rw z) (omega arith) in
      let p2 : pending (store 13 c1) ≡ xs ++ 13 ∷ [] =
        store-pending 13 c1 v1 ∙ ap (λ k. extend k 13) p1 ∙ extend_room xs 13 short in
      let t2 : (store 13 c1).tab ≡ c.tab = store-tab 13 c1 ∙ stores-tab xs c in
      let parsed2 : parse (store 13 c1).tab (pending (store 13 c1)) ≡ some (cb, buf) =
        ap₂ parse t2 p2 ∙ parsed in
      subst (λ o. Handles o (handle (stack c1) (store 13 c1))) parsed2
        (handle-Handles (stack c1) (store 13 c1) (st c1) (store-IsValid 13 v1))

  -- A line that parses to fewer than eight bytes is delivered.
  pub line-Reads :
      (stack : SlCan A → List ℕ) (xs buf : List ℕ) (c : SlCan A) {cb : A}
      → ((s : SlCan A) → length (stack s) ≡ 8)
      → IsValid c
      → c.rptr ≡ 0
      → NoCr xs
      → length xs < 33
      → length buf < 8
      → parse c.tab (xs ++ 13 ∷ []) ≡ some (cb, buf)
      → Reads stack (xs ++ 13 ∷ []) c cb buf
  line-Reads stack xs buf c {cb} st v z nocr short small parsed =
      Reads-of_handle stack xs c cb buf nocr small (line_handled stack xs buf c st v z short parsed)

  handle_overruns :
      (stack : SlCan A → List ℕ) (xs : List ℕ) (c : SlCan A) (cb : A) (buf : List ℕ)
      → NoCr xs
      → 8 ≤ length buf
      → Handles (some (cb, buf)) (handle (stack (stores xs c)) (store 13 (stores xs c)))
      → input stack (xs ++ 13 ∷ []) c ≡ none
  handle_overruns stack xs c cb buf h big (inl fine) = absurd (omega (arith, fine.0))
  handle_overruns stack xs c cb buf h big (inr over) =
      input_line stack xs c h ∙ rw (over.1, and_then) refl

  -- A line that parses to eight bytes or more makes `handle` leave its array.
  pub line_overruns :
      (stack : SlCan A → List ℕ) (xs buf : List ℕ) (c : SlCan A) {cb : A}
      → ((s : SlCan A) → length (stack s) ≡ 8)
      → IsValid c
      → c.rptr ≡ 0
      → NoCr xs
      → length xs < 33
      → 8 ≤ length buf
      → parse c.tab (xs ++ 13 ∷ []) ≡ some (cb, buf)
      → input stack (xs ++ 13 ∷ []) c ≡ none
  line_overruns stack xs buf c {cb} st v z nocr short big parsed =
      handle_overruns stack xs c cb buf nocr big (line_handled stack xs buf c st v z short parsed)
