-- ===== src/Auth/Refresh/Mint.antt =====
-- A minted token is found again by its plaintext.
use Prim.Native.Char.{code}
use Prim.Native.String.{◌++◌ as append}
use text.Mathlib.TextLemmas.{nil-append, cons-append}
use actioneer_pulse.Common.{
  Bool, true, not, String, Option, some, List, [], ◌∷◌, ◌++◌, ◌&&◌, all, str_eq, str_eq_refl, ◌≡◌,
  refl, ℕ, ◌==◌, arith,
}
use actioneer_pulse.Auth.Refresh.{
  Hasher, RefreshToken, Fresh, find_row, find_token, mint_refresh, minted, prefix_of, plaintext_of,
  before_underscore, after,
}

-- No character is "_".
abbrev pub plain : String → Bool
plain String.[] = true
plain (String.◌∷◌ ch s) = not (code ch == 95) && plain s

before_underscore-append :
    (p s : String) → plain p ≡ true → before_underscore (append p (append "_" s)) ≡ some p
unfolding before_underscore
before_underscore-append String.[] s ok = rw (nil-append (append "_" s), cons-append "_" "" s) refl
before_underscore-append (String.◌∷◌ ch p) s ok =
    ground (arith, ok, cons-append ch p (append "_" s), before_underscore-append p s)

prefix_of-plaintext_of :
    (new : Fresh) → plain new.prefix ≡ true → prefix_of (plaintext_of new) ≡ some new.prefix
unfolding prefix_of plaintext_of after
prefix_of-plaintext_of new ok =
    let t = append new.prefix (append "_" new.secret) in
    rw
      (
        cons-append "v" "or_" t,
        cons-append "o" "r_" t,
        cons-append "r" "_" t,
        cons-append "_" "" t,
        nil-append t,
      )
      (before_underscore-append new.prefix new.secret ok)

module _ ⦃h : Hasher⦄ where
  find_row-append :
      (prefix plaintext : String) (r : RefreshToken) (rows : List RefreshToken)
      → all (λ s. not (str_eq s.token_prefix prefix && h.verify s.token_hash plaintext)) rows ≡ true
      → str_eq r.token_prefix prefix && h.verify r.token_hash plaintext ≡ true
      → find_row prefix plaintext (rows ++ r ∷ []) ≡ some r
  unfolding find_row
  find_row-append prefix plaintext r [] unmatched hit = rw hit refl
  find_row-append prefix plaintext r (s ∷ rows) unmatched hit =
      ground (arith, unmatched, find_row-append prefix plaintext r rows)

  -- When the hasher verifies what it has hashed, the drawn prefix has no underscore, and no older
  -- row matches the new plaintext, then the plaintext that `mint_refresh` returns finds exactly the
  -- row that it has added.
  pub mint_refresh-find_token :
      ((salt p : String) → h.verify (h.hash salt p) p ≡ true)
      → (ttl now : ℕ) (new : Fresh) (user : String) (family agent : Option String)
        (rows : List RefreshToken)
      → plain new.prefix ≡ true
      → all
          (λ s. not (str_eq s.token_prefix new.prefix && h.verify s.token_hash (plaintext_of new)))
          rows
        ≡ true
      → let m = mint_refresh ttl now new user family agent rows in
        find_token (some m.0) m.1 ≡ some (minted ttl now new user family agent)
  unfolding mint_refresh find_token
  mint_refresh-find_token verifies ttl now new user family agent rows ok unmatched =
      rw (find_token, prefix_of-plaintext_of new ok)
        (find_row-append new.prefix (plaintext_of new) (minted ttl now new user family agent) rows
          unmatched (rw (str_eq_refl new.prefix, verifies new.salt (plaintext_of new)) refl))
