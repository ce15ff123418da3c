-- ===== src/Controller/Can/Decode.antt =====
-- The nine assignments of `SLCan::handle`: what the callback is handed.
use pi_industrial_robottools.Base.{
  ℕ, zero, suc, ◌+◌, ◌≤◌, ◌<◌, ◌≡◌, refl, arith, List, [], ◌∷◌, none, some, length, take, ap,
}
use pi_industrial_robottools.Controller.Can.{hex_byte, fill}

-- The first `n` bytes of a frame, whose digits begin at `i`.
unfoldable pub payload : List ℕ → ℕ → ℕ → List ℕ
payload rx i zero = []
payload rx i (suc n) = hex_byte rx i ∷ payload rx (i + 2) n

pub length-payload : (rx : List ℕ) (i n : ℕ) → length (payload rx i n) ≡ n
unfolding payload
length-payload rx i zero = refl
length-payload rx i (suc n) = ap suc (length-payload rx (i + 2) n)

-- The array `data` after the assignments: it begins with the bytes of the frame.
abbrev pub Fills : List ℕ → ℕ → List ℕ → Type 0
Fills rx len d =
    (d' : List ℕ) × (fill rx len d ≡ some d') × (length d' ≡ 8) × (take len d' ≡ payload rx 5 len)

fill_array :
    (rx : List ℕ) (len a b c d e f g h : ℕ)
    → len < 8
    → Fills rx len (a ∷ b ∷ c ∷ d ∷ e ∷ f ∷ g ∷ h ∷ [])
unfolding fill payload
fill_array rx zero a b c d e f g h lt = (_, refl, refl, refl)
fill_array rx (suc zero) a b c d e f g h lt = (_, refl, refl, refl)
fill_array rx (suc (suc zero)) a b c d e f g h lt = (_, refl, refl, refl)
fill_array rx (suc (suc (suc zero))) a b c d e f g h lt = (_, refl, refl, refl)
fill_array rx (suc (suc (suc (suc zero)))) a b c d e f g h lt = (_, refl, refl, refl)
fill_array rx (suc (suc (suc (suc (suc zero))))) a b c d e f g h lt = (_, refl, refl, refl)
fill_array rx (suc (suc (suc (suc (suc (suc zero)))))) a b c d e f g h lt = (_, refl, refl, refl)
fill_array rx (suc (suc (suc (suc (suc (suc (suc zero))))))) a b c d e f g h lt =
    (_, refl, refl, refl)
fill_array rx (suc (suc (suc (suc (suc (suc (suc (suc n)))))))) a b c d e f g h lt =
    absurd (omega arith)

fill_array_over :
    (rx : List ℕ) (len a b c d e f g h : ℕ)
    → 8 ≤ len
    → fill rx len (a ∷ b ∷ c ∷ d ∷ e ∷ f ∷ g ∷ h ∷ []) ≡ none
unfolding fill
fill_array_over rx len a b c d e f g h le = ground arith

-- A list of eight entries, entry by entry.
by_entries {ℓ} :
    (P : List ℕ → Type ℓ)
    → ((a b c d e f g h : ℕ) → P (a ∷ b ∷ c ∷ d ∷ e ∷ f ∷ g ∷ h ∷ []))
    → (xs : List ℕ) → length xs ≡ 8
    → P xs
by_entries P p (a ∷ b ∷ c ∷ d ∷ e ∷ f ∷ g ∷ h ∷ []) l = p a b c d e f g h
by_entries P p [] l = absurd (omega arith)
by_entries P p (a ∷ []) l = absurd (omega arith)
by_entries P p (a ∷ b ∷ []) l = absurd (omega arith)
by_entries P p (a ∷ b ∷ c ∷ []) l = absurd (omega arith)
by_entries P p (a ∷ b ∷ c ∷ d ∷ []) l = absurd (omega arith)
by_entries P p (a ∷ b ∷ c ∷ d ∷ e ∷ []) l = absurd (omega arith)
by_entries P p (a ∷ b ∷ c ∷ d ∷ e ∷ f ∷ []) l = absurd (omega arith)
by_entries P p (a ∷ b ∷ c ∷ d ∷ e ∷ f ∷ g ∷ []) l = absurd (omega arith)
by_entries P p (a ∷ b ∷ c ∷ d ∷ e ∷ f ∷ g ∷ h ∷ x ∷ xs) l = absurd (omega arith)

-- Up to seven bytes fit the array, and are handed on in order.
pub fill-Fills : (rx : List ℕ) (len : ℕ) (d : List ℕ) → length d ≡ 8 → len < 8 → Fills rx len d
fill-Fills rx len d l lt =
    by_entries (λ xs. Fills rx len xs) (λ a b c d e f g h. fill_array rx len a b c d e f g h lt) d l

-- The eighth assignment of a frame of eight bytes or more goes past the end of the array.
pub fill_over : (rx : List ℕ) (len : ℕ) (d : List ℕ) → length d ≡ 8 → 8 ≤ len → fill rx len d ≡ none
fill_over rx len d l le =
    by_entries (λ xs. fill rx len xs ≡ none)
      (λ a b c d e f g h. fill_array_over rx len a b c d e f g h le) d l
