-- ===== src/PasswordHash/Encoding.antt =====
-- The length of the texts that src/libs/services/phpass.service.ts makes of bytes.
use Prim.Native.Nat.{◌%◌}
use starsyncbackend.Prelude.{
  ℕ, zero, suc, ◌+◌, ◌*◌, ◌/◌, ◌<◌, ◌≡◌, refl, arith, length, length-append, length-take,
  length-drop, drop,
}
use starsyncbackend.PasswordHash.{Text, Libraries, itoa64, digit, encode64}

length-itoa64 : length itoa64 ≡ 64
unfolding itoa64
length-itoa64 = refl

length-digit : (v : ℕ) → length (digit v) ≡ 1
unfolding digit
length-digit v =
    ground (arith, length-itoa64, length-take 1 (drop (v % 64) itoa64), length-drop (v % 64) itoa64)

-- How long an encoding is.
pub length-encode64 :
    (l : Libraries) (input : Text) (n : ℕ) → 0 < n → length (encode64 l input n) ≡ (4 * n + 2) / 3
unfolding encode64
length-encode64 l input zero h = absurd (omega (arith, h))
length-encode64 l input (suc zero) h = simp (length-append, length-digit) refl
length-encode64 l input (suc (suc zero)) h = simp (length-append, length-digit) refl
length-encode64 l input (suc (suc (suc zero))) h = simp (length-append, length-digit) refl
length-encode64 l input (suc (suc (suc (suc n)))) h =
    simp (length-append, length-digit)
      (omega (arith, length-encode64 l (drop 3 input) (suc n) (omega arith)))
