-- ===== src/PasswordHash/Check.antt =====
-- Hashing and checking passwords in src/libs/services/phpass.service.ts.
use Prim.Native.Nat.{◌^◌}
use starsyncbackend.Prelude.{
  ℕ, ◌≤◌, true, false, List, [], ◌∷◌, ◌++◌, some, ◌≡◌, refl, arith, if◌then◌else◌, length,
  length-append, length-take, length-drop, take, drop, ltb, take-drop-prefix, take-all, ◌∙◌,
}
use starsyncbackend.PasswordHash.{
  Text, Libraries, codes, char_at, substr, equal_texts, itoa64, encode64, random_text, gen_salt,
  failure, is_setting, crypt_private, hash_password, check_password, count_of, stretch,
}
use starsyncbackend.PasswordHash.Encoding.{length-encode64}

equal_texts_refl : (xs : Text) → equal_texts xs xs ≡ true
unfolding equal_texts
equal_texts_refl [] = refl
equal_texts_refl (x ∷ xs) = ground (arith, equal_texts_refl xs)

module _ (l : Libraries) where
  -- A setting has twelve code units at least.
  is_setting-length : (s : Text) → is_setting l s ≡ true → 12 ≤ length s
  unfolding is_setting
  is_setting-length s h = ground (arith, h, length-take 8 (drop 4 s), length-drop 4 s)

  -- What is read of a setting is the same of its first twelve with anything behind them.
  is_setting-prefix :
      (s rest : Text) → is_setting l s ≡ true → is_setting l (take 12 s ++ rest) ≡ true
  unfolding is_setting
  is_setting-prefix s rest h =
      let long = is_setting-length s h in
      rw
        (
          take-drop-prefix 12 0 3 s rest (omega arith) long,
          take-drop-prefix 12 3 1 s rest (omega arith) long,
          take-drop-prefix 12 4 8 s rest (omega arith) long,
          is_setting,
        )
        h

  crypt_private-prefix :
      (password s rest : Text)
      → is_setting l s ≡ true
      → crypt_private l password (take 12 s ++ rest) ≡ crypt_private l password s
  unfolding crypt_private
  crypt_private-prefix password s rest h =
      let long = is_setting-length s h in
      rw (is_setting-prefix s rest h, h, crypt_private)
        (rw
          (
            take-drop-prefix 12 3 1 s rest (omega arith) long,
            take-drop-prefix 12 4 8 s rest (omega arith) long,
            take-drop-prefix 12 0 12 s rest (omega arith) long,
          )
          refl)

  -- A setting begins with a dollar sign, so it is not taken for a failure.
  is_setting-first : (s : Text) → is_setting l s ≡ true → equal_texts (take 1 s) (codes "*") ≡ false
  unfolding is_setting equal_texts
  is_setting-first [] h = ground (arith, h)
  is_setting-first (x ∷ s) h = ground (arith, h)

  -- What `cryptPrivate` puts behind the setting.
  encoded : Text → Text → Text
  encoded password s =
      encode64 l
        (stretch l (2 ^ count_of l (l.strpos itoa64 (char_at s 3))) password
          (l.md5 (substr s 4 8 ++ password)))
        16

  crypt_private-shape :
      (password s : Text)
      → is_setting l s ≡ true
      → crypt_private l password s ≡ take 12 s ++ encoded password s
  unfolding crypt_private encoded
  crypt_private-shape password s h = rw (h, crypt_private) refl

  length-crypt_private :
      (password s : Text) → is_setting l s ≡ true → length (crypt_private l password s) ≡ 34
  unfolding encoded
  length-crypt_private password s h =
      let long = is_setting-length s h in
      rw (crypt_private-shape password s h) (
        ground (
          arith,
          long,
          length-append (take 12 s) (encoded password s),
          length-take 12 s,
          length-encode64 l
              (stretch l (2 ^ count_of l (l.strpos itoa64 (char_at s 3))) password
                (l.md5 (substr s 4 8 ++ password)))
              16 (omega arith),
        ))

  crypt_private-again :
      (password s : Text)
      → is_setting l s ≡ true
      → crypt_private l password (crypt_private l password s) ≡ crypt_private l password s
  crypt_private-again password s h =
      let shape = crypt_private-shape password s h in
      rw shape (crypt_private-prefix password s (encoded password s) h ∙ shape)

  crypt_private-first :
      (password s : Text)
      → is_setting l s ≡ true
      → equal_texts (char_at (crypt_private l password s) 0) (codes "*") ≡ false
  unfolding crypt_private
  crypt_private-first password s h =
      rw (h, crypt_private)
        (rw (take-drop-prefix 12 0 1 s _ (omega arith) (is_setting-length s h))
          (is_setting-first s h))

  -- Whatever the setting, a password is found right for what it was hashed to.
  check_password-crypt_private :
      (password s : Text)
      → is_setting l s ≡ true
      → length password ≤ 4096
      → check_password l password (crypt_private l password s) ≡ true
  unfolding check_password
  check_password-crypt_private password s h short =
      let fits : ltb 4096 (length password) ≡ false = ground (arith, short) in
      rw (fits, crypt_private-again password s h, crypt_private-first password s h, check_password)
        (equal_texts_refl (crypt_private l password s))

  salt-is_setting : (salt : Text) → length salt ≡ 8 → is_setting l (36 ∷ 80 ∷ 36 ∷ 66 ∷ salt) ≡ true
  unfolding is_setting equal_texts itoa64
  salt-is_setting salt h =
      let found : l.strpos itoa64 (66 ∷ []) ≡ some 13 =
        l.strpos-first (codes "./0123456789A")
          (codes "CDEFGHIJKLMNOPQRSTUVWXYZabcdefghijklmnopqrstuvwxyz") 66 refl in
      rw (found, take-all 8 salt (omega (arith, h)), is_setting) (ground (arith, h))

  -- A salt that is made is a setting.
  gen_salt-is_setting : (draws : List ℕ) → is_setting l (gen_salt l draws) ≡ true
  unfolding gen_salt
  gen_salt-is_setting draws =
      salt-is_setting (encode64 l (random_text l draws) 6)
        (length-encode64 l (random_text l draws) 6 (omega arith))

  -- Hashing a password with any salt that genSalt makes returns a text of 34 code units, so every
  -- loop on the way ends, and a password of at most 4096 code units is found right for its hash;
  -- for any MD5, and any salt.
  pub check_password-hash_password :
      (draws : List ℕ) (password : Text)
      → length password ≤ 4096
      → (check_password l password (hash_password l draws password) ≡ true)
        × (length (hash_password l draws password) ≡ 34)
  unfolding hash_password
  check_password-hash_password draws password short =
      let setting = gen_salt-is_setting draws in
      (
        check_password-crypt_private password (gen_salt l draws) setting short,
        length-crypt_private password (gen_salt l draws) setting,
      )

  -- A failure is another text than the setting.
  failure-other : (s : Text) → equal_texts (failure l s) s ≡ false
  unfolding failure equal_texts
  failure-other [] = refl
  failure-other (x ∷ []) = ground arith
  failure-other (x ∷ y ∷ []) = ground arith
  failure-other (x ∷ y ∷ z ∷ s) = ground arith

  failure-first : (s : Text) → equal_texts (char_at (failure l s) 0) (codes "*") ≡ true
  unfolding failure equal_texts
  failure-first s = ground arith

  crypt_private-failure :
      (password s : Text) → is_setting l s ≡ false → crypt_private l password s ≡ failure l s
  unfolding crypt_private
  crypt_private-failure password s h = rw (h, crypt_private) refl

  -- Where a stored text is no setting, the text by which cryptPrivate tells its failure is another
  -- than the stored one, and checkPassword says yes only to a password of at most 4096 code units
  -- whose TripleDES encryption under the stored text is that text.
  malformed :
      (password stored : Text)
      → is_setting l stored ≡ false
      → (equal_texts (crypt_private l password stored) stored ≡ false)
        × (check_password l password stored ≡ (
            if ltb 4096 (length password)
            then false
            else equal_texts (l.triple_des password stored) stored))
  unfolding check_password
  malformed password stored h =
      let fails = crypt_private-failure password stored h in
      let taken : equal_texts (char_at (crypt_private l password stored) 0) (codes "*") ≡ true =
        rw fails (failure-first stored) in
      (rw fails (failure-other stored), rw (taken, check_password) refl)
