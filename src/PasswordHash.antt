-- ===== src/PasswordHash.antt =====
-- src/libs/services/phpass.service.ts: hashes of passwords. A text is the list of its code units. The
-- libraries are parameters: MD5, `ord` and `strpos` of locutus, and TripleDES.
pub mod Encoding
pub mod Check
pub mod Sample
mod Examples
use Prim.Native.Char.{code}
use Prim.Native.Nat.{◌%◌, ◌^◌}
use starsyncbackend.Prelude.{
  ℕ, zero, suc, ◌+◌, ◌*◌, ◌/◌, ◌<◌, String, Bool, true, false, not, ◌&&◌, ◌||◌, List, [], ◌∷◌, ◌++◌,
  Option, none, some, ◌≡◌, if◌then◌else◌, length, take, drop, ltb, All,
}

abbrev pub Text : Type 0
Text = List ℕ

abbrev pub codes : String → Text
codes String.[] = []
codes (String.◌∷◌ c s) = code c ∷ codes s

-- `a === b` of texts.
abbrev pub equal_codes : ℕ → ℕ → Bool
equal_codes a b = not (ltb a b) && not (ltb b a)

unfoldable pub equal_texts : Text → Text → Bool
equal_texts [] [] = true
equal_texts [] (y ∷ ys) = false
equal_texts (x ∷ xs) [] = false
equal_texts (x ∷ xs) (y ∷ ys) = equal_codes x y && equal_texts xs ys

-- `text.charAt(i)` and `text.substr(i, n)`
abbrev pub char_at : Text → ℕ → Text
char_at text i = take 1 (drop i text)

abbrev pub substr : Text → ℕ → ℕ → Text
substr text i n = take n (drop i text)

abbrev pub has_code : ℕ → Text → Bool
has_code c [] = false
has_code c (x ∷ xs) = equal_codes x c || has_code c xs

-- `md5` is the digest as a text of 16 bytes; `strpos` is `none` where it answers `false`.
pub record Libraries : Type 0 where
  pub md5 : Text → Text
  pub ord : Text → ℕ
  pub strpos : Text → Text → Option ℕ
  pub triple_des : Text → Text → Text
  pub ord-byte : (c : ℕ) → c < 256 → ord (c ∷ []) ≡ c
  pub strpos-first :
      (before after : Text) (c : ℕ)
      → has_code c before ≡ false
      → strpos (before ++ c ∷ after) (c ∷ []) ≡ some (length before)

unfoldable pub itoa64 : Text
itoa64 = codes "./0123456789ABCDEFGHIJKLMNOPQRSTUVWXYZabcdefghijklmnopqrstuvwxyz"

-- `this.itoa64.charAt(v & 0x3f)`
unfoldable pub digit : ℕ → Text
unfolding itoa64
digit v = char_at itoa64 (v % 64)

module _ (l : Libraries) where
  -- The loop of `encode64`, where `n` bytes are left of the count at the first of the input. Bytes do
  -- not overlap when they are shifted, so `|` adds. The loop runs at least once.
  unfoldable pub encode64 : Text → ℕ → Text
  unfolding digit
  encode64 input zero = let value = l.ord (char_at input 0) in digit value ++ digit (value / 64)
  encode64 input (suc zero) =
      let value = l.ord (char_at input 0) in digit value ++ digit (value / 64)
  encode64 input (suc (suc zero)) =
      let value = l.ord (char_at input 0) in
      let value2 = value + l.ord (char_at input 1) * 2 ^ 8 in
      digit value ++ digit (value2 / 2 ^ 6) ++ digit (value2 / 2 ^ 12)
  encode64 input (suc (suc (suc zero))) =
      let value = l.ord (char_at input 0) in
      let value2 = value + l.ord (char_at input 1) * 2 ^ 8 in
      let value3 = value2 + l.ord (char_at input 2) * 2 ^ 16 in
      digit value ++ digit (value2 / 2 ^ 6) ++ digit (value3 / 2 ^ 12) ++ digit (value3 / 2 ^ 18)
  encode64 input (suc (suc (suc (suc n)))) =
      let value = l.ord (char_at input 0) in
      let value2 = value + l.ord (char_at input 1) * 2 ^ 8 in
      let value3 = value2 + l.ord (char_at input 2) * 2 ^ 16 in
      digit value
      ++ digit (value2 / 2 ^ 6)
      ++ digit (value3 / 2 ^ 12)
      ++ digit (value3 / 2 ^ 18)
      ++ encode64 (drop 3 input) (suc n)

  -- The loop of `getRandomBytes`, from the numbers that are drawn, each below 62.
  unfoldable pub random_text : List ℕ → Text
  random_text [] = []
  random_text (v ∷ vs) =
      char_at (codes "ABCDEFGHIJKLMNOPQRSTUVWXYZabcdefghijklmnopqrstuvwxyz0123456789") v
      ++ random_text vs

  -- `genSalt`, with the six numbers drawn.
  unfoldable pub gen_salt : List ℕ → Text
  unfolding random_text encode64 itoa64
  gen_salt draws =
      codes "$P$"
      ++ char_at itoa64 (if ltb 30 (8 + 5) then 30 else 8 + 5)
      ++ encode64 (random_text draws) 6

  -- The second loop of `cryptPrivate`, which runs as often as the count says.
  unfoldable pub stretch : ℕ → Text → Text → Text
  stretch zero password hash = hash
  stretch (suc n) password hash = stretch n password (l.md5 (hash ++ password))

  -- `count_log2 < 7 || count_log2 > 30`, where `false` counts as 0.
  abbrev pub bad_count : Option ℕ → Bool
  bad_count none = true
  bad_count (some n) = ltb n 7 || ltb 30 n

  abbrev pub count_of : Option ℕ → ℕ
  count_of none = 0
  count_of (some n) = n

  -- What `cryptPrivate` answers where the setting is none.
  unfoldable pub failure : Text → Text
  unfolding equal_texts
  failure setting = if equal_texts (substr setting 0 2) (codes "*0") then codes "*1" else codes "*0"

  -- The setting is one that `cryptPrivate` goes on with.
  unfoldable pub is_setting : Text → Bool
  unfolding equal_texts itoa64
  is_setting setting =
      (equal_texts (substr setting 0 3) (codes "$P$")
        || equal_texts (substr setting 0 3) (codes "$H$"))
      && not (bad_count (l.strpos itoa64 (char_at setting 3)))
      && not (ltb (length (substr setting 4 8)) 8)

  unfoldable pub crypt_private : Text → Text → Text
  unfolding failure is_setting stretch encode64 itoa64
  crypt_private password setting =
      if not (is_setting setting)
      then failure setting
      else let count = 2 ^ count_of (l.strpos itoa64 (char_at setting 3)) in
        let salt = substr setting 4 8 in
        substr setting 0 12 ++ encode64 (stretch count password (l.md5 (salt ++ password))) 16

  unfoldable pub hash_password : List ℕ → Text → Text
  unfolding gen_salt crypt_private
  hash_password draws password = crypt_private password (gen_salt draws)

  unfoldable pub check_password : Text → Text → Bool
  unfolding crypt_private equal_texts
  check_password password stored_hash =
      if ltb 4096 (length password)
      then false
      else let hash = crypt_private password stored_hash in
        if equal_texts (char_at hash 0) (codes "*")
        then equal_texts (l.triple_des password stored_hash) stored_hash
        else equal_texts hash stored_hash
