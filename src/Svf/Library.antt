-- ===== src/Svf/Library.antt =====
-- What the program relies on of libxsvf's player for SVF files, by its own file play.c and the
-- comments of its interface: it sets the host up first, and stops with an error when a callback
-- reports one, but for the clocks that walk to a state, whose results it does not read; it reads of
-- the result of a callback other than `getbyte` only whether it is
-- negative; and the counts of clocks that it asks for are not negative.
use pi_industrial_robottools.Base.{◌≡◌, ◌⊎◌, true, false}
use pi_industrial_robottools.Base.Int.{ℤ}
use pi_industrial_robottools.Svf.Gpio.{failed, negative}
use pi_industrial_robottools.Svf.Program.{Callback, Script, finish, call}

-- Whatever the callbacks return, the script ends with an error.
unfoldable pub Fails : Script → Type 0
Fails (finish rc) = failed rc ≡ true
Fails (call c k) = (r : ℤ) → Fails (k r)

-- The continuation reads only whether a result is negative, which is an error.
pub record IsChecked (k : ℤ → Script) : Type 0 where
  pub negative_fails : (r : ℤ) → negative r ≡ true → Fails (k r)
  pub sign_only : (r s : ℤ) → negative r ≡ false → negative s ≡ false → k r ≡ k s

abbrev pub Obeys : Callback → (ℤ → Script) → Type 0
Obeys Callback.setup k = ⊥
Obeys Callback.shutdown k = IsChecked k
Obeys (Callback.udelay usecs tms num_tck) k = negative num_tck ≡ false
Obeys (Callback.pulse_tck tms tdi tdo rmask sync) k = IsChecked k ⊎ ((r s : ℤ) → k r ≡ k s)
Obeys _ k = Unit

-- What follows the setup.
unfoldable pub IsBody : Script → Type 0
IsBody (finish rc) = Unit
IsBody (call c k) = Obeys c k × ((r : ℤ) → IsBody (k r))

pub data IsPlayer : Script → Type 0 where
  begins :
      (k : ℤ → Script) → IsChecked k → ((r : ℤ) → IsBody (k r)) → IsPlayer (call Callback.setup k)
