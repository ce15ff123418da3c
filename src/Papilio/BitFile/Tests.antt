-- ===== src/Papilio/BitFile/Tests.antt =====
-- Runs on a small .bit file: papilio-prog/bitfile.cpp.
use pi_industrial_robottools.Base.{
  ℕ, ◌≡◌, ◌≢◌, refl, arith, true, false, List, [], ◌∷◌, ◌++◌, some, length, replicate, map, ◌==◌,
}
use pi_industrial_robottools.Papilio.BitFile.{
  BitFile, Result, bit_rev, flip_bits, init, read_file, save_as,
}
use pi_industrial_robottools.Papilio.BitFile.Format.{
  Section, encode, data_section, store, loaded, read_file-encode,
}
use pi_industrial_robottools.Papilio.BitFile.Length.{IsSized, Returns, Edit, edit, edit-IsSized}
use pi_industrial_robottools.Papilio.BitFile.Save.{save_as-drops_last}

ne_of_test : (a b : ℕ) → (a == b) ≡ false → a ≢ b
ne_of_test a b h e = ground (arith, h, e)

abbrev part : List Section
part = record { key = b'b'; text = b's' ∷ b'6' ∷ [] } ∷ record { key = b'z'; text = 1 ∷ [] } ∷ []

read_file-encode_example :
    read_file true
      (some (replicate 13 0 ++ (encode part ++ data_section 3 (1 ∷ 2 ∷ 128 ∷ []))))
      init
    ≡ loaded true 3 (1 ∷ 2 ∷ 128 ∷ []) (store part init)
read_file-encode_example =
    read_file-encode true (replicate 13 0) part 3 (1 ∷ 2 ∷ 128 ∷ []) init refl
      ((refl, omega arith), ((refl, omega arith), tt)) (omega arith)

loaded_ok :
    loaded true 3 (1 ∷ 2 ∷ 128 ∷ []) (store part init)
    ≡ Result.ok (record init {
      part_name = b's' ∷ b'6' ∷ [];
      size = 3;
      buffer = map some (128 ∷ 64 ∷ 1 ∷ []);
    })
unfolding bit_rev flip_bits
loaded_ok = refl

abbrev kept : List ℕ
kept = 1 ∷ 2 ∷ []

abbrev small : BitFile
small = record init { size = 4; buffer = map some (1 ∷ 2 ∷ 3 ∷ 0xff ∷ []) }

edit-IsSized_example : Returns IsSized (edit (Edit.zeros 6) small)
edit-IsSized_example = edit-IsSized (Edit.zeros 6) small refl

save_as-drops_last_example : save_as 0 0 small ≡ (length kept, map bit_rev kept)
save_as-drops_last_example = save_as-drops_last 0 small kept 3 1 (ne_of_test 3 0xff refl) refl refl
