-- ===== src/Health/Scrub/Laws.antt =====
-- What masking hides, and what it does not: fastapi_m8/_health.py, `_scrub_text` and `_scrub_meta`.
use fastapi_m.Base.{
  ℕ, ◌+◌, ◌-◌, ◌≡◌, ◌≢◌, ◌⊎◌, refl, ap, sym, ◌∙◌, Bool, true, false, none, some, List, [], ◌∷◌,
  ◌++◌, nat_eq, map, All, arith, length, length-append, Bool-cases, inl, inr,
}
use mathlib.Core.List.{append_assoc, append-nil}
use fastapi_m.Health.Scrub.{
  span, after, scheme_end, mask, closed, is_user, is_password, match_length, sub_from, sub,
  scrub_text, MetaValue, Meta, is_sensitive, scrub_item, scrub_meta,
}

-- A run stops at the first character that does not pass.
span-append :
    (p : ℕ → Bool) (u : List ℕ) (c : ℕ) (rest : List ℕ)
    → All (λ x. p x ≡ true) u
    → p c ≡ false
    → span p (u ++ c ∷ rest) ≡ (length u, c ∷ rest)
unfolding span
span-append p [] c rest h stop = ground arith
span-append p (x ∷ u) c rest (h, hs) stop = ground (arith, span-append p u c rest hs stop)

-- a run of at least one character
closed-append :
    (p : ℕ → Bool) (x : ℕ) (u : List ℕ) (stop : ℕ) (rest : List ℕ)
    → All (λ x. p x ≡ true) (x ∷ u)
    → p stop ≡ false
    → closed stop (span p ((x ∷ u) ++ stop ∷ rest)) ≡ some (length (x ∷ u) + 1, rest)
unfolding closed
closed-append p x u stop rest h end = rw (span-append p (x ∷ u) stop rest h end) (ground arith)

module _ (is_space : ℕ → Bool) where
  is_user_end : is_user is_space b':' ≡ false
  is_user_end = ground (arith, Bool-cases (is_space b':'))

  is_password_end : is_password is_space b'@' ≡ false
  is_password_end = ground (arith, Bool-cases (is_space b'@'))

  match_length-credentials :
      (x y : ℕ) (u p rest : List ℕ)
      → All (λ c. is_user is_space c ≡ true) (x ∷ u)
      → All (λ c. is_password is_space c ≡ true) (y ∷ p)
      → match_length is_space (scheme_end ++ ((x ∷ u) ++ b':' ∷ ((y ∷ p) ++ b'@' ∷ rest)))
        ≡ some (3 + (length (x ∷ u) + 1) + (length (y ∷ p) + 1))
  unfolding match_length after
  match_length-credentials x y u p rest hu hp = ground (
    arith,
    closed-append (is_user is_space) x u b':' ((y ∷ p) ++ b'@' ∷ rest) hu is_user_end,
    closed-append (is_password is_space) y p b'@' rest hp is_password_end,
  )

  sub_from-drop : (s t : List ℕ) → sub_from is_space (length s) (s ++ t) ≡ sub_from is_space 0 t
  unfolding sub_from
  sub_from-drop [] t = refl
  sub_from-drop (c ∷ s) t = sub_from-drop s t

  sub_from-match :
      (c n : ℕ) (s t : List ℕ)
      → match_length is_space (c ∷ (s ++ t)) ≡ some n
      → n ≡ length s + 1
      → sub_from is_space 0 (c ∷ (s ++ t)) ≡ mask ++ sub_from is_space 0 t
  unfolding sub_from
  sub_from-match c n s t found e =
      ground (arith, found, sub_from-drop s t, ap (λ k. sub_from is_space (k - 1) (s ++ t)) e)

  match_length-other : (c : ℕ) (s : List ℕ) → c ≢ b':' → match_length is_space (c ∷ s) ≡ none
  unfolding match_length after
  match_length-other c s ne = ground arith

  -- text without a colon is passed over
  sub_from-append :
      (pre t : List ℕ)
      → All (λ c. c ≢ b':') pre
      → sub_from is_space 0 (pre ++ t) ≡ pre ++ sub_from is_space 0 t
  unfolding sub_from
  sub_from-append [] t h = refl
  sub_from-append (c ∷ pre) t (ne, h) =
      ground (arith, match_length-other c (pre ++ t) ne, sub_from-append pre t h)

  scrub_text-sub : (s : List ℕ) → scrub_text is_space (some s) ≡ some (sub is_space s)
  unfolding scrub_text sub sub_from
  scrub_text-sub [] = refl
  scrub_text-sub (c ∷ s) = refl

  -- `://user:password@`
  abbrev pub credentials : List ℕ → List ℕ → List ℕ
  credentials user password = scheme_end ++ (user ++ b':' ∷ (password ++ b'@' ∷ []))

  credentials-append :
      (u p rest : List ℕ) → credentials u p ++ rest ≡ scheme_end ++ (u ++ b':' ∷ (p ++ b'@' ∷ rest))
  credentials-append u p rest =
      ap (λ t. scheme_end ++ t)
        (append_assoc u (b':' ∷ (p ++ b'@' ∷ [])) rest
          ∙ ap (λ t. u ++ b':' ∷ t) (append_assoc p (b'@' ∷ []) rest))

  length-credentials :
      (u p : List ℕ) → length (credentials u p) ≡ 3 + (length u + 1) + (length p + 1)
  length-credentials u p =
      omega (arith, length-append u (b':' ∷ (p ++ b'@' ∷ [])), length-append p (b'@' ∷ []))

  sub-credentials :
      (x y : ℕ) (u p rest : List ℕ)
      → All (λ c. is_user is_space c ≡ true) (x ∷ u)
      → All (λ c. is_password is_space c ≡ true) (y ∷ p)
      → sub_from is_space 0 (credentials (x ∷ u) (y ∷ p) ++ rest) ≡ mask ++ sub_from is_space 0 rest
  sub-credentials x y u p rest hu hp =
      sub_from-match b':' _ (b'/' ∷ b'/' ∷ ((x ∷ u) ++ b':' ∷ ((y ∷ p) ++ b'@' ∷ []))) rest
        (ap (match_length is_space) (credentials-append (x ∷ u) (y ∷ p) rest)
          ∙ match_length-credentials x y u p rest hu hp)
        (omega (arith, length-credentials (x ∷ u) (y ∷ p)))

  -- The first URL of a text loses its credentials whole, whatever they are: a user and a password that
  -- are not empty and hold no slash, no space and no at sign, the user no colon, come out as stars, with the
  -- text before them, which holds no colon, kept, and the text after them scrubbed in its turn.
  pub scrub_text-credentials :
      (pre : List ℕ) (x y : ℕ) (u p post : List ℕ)
      → All (λ c. c ≢ b':') pre
      → All (λ c. is_user is_space c ≡ true) (x ∷ u)
      → All (λ c. is_password is_space c ≡ true) (y ∷ p)
      → scrub_text is_space (some (pre ++ (credentials (x ∷ u) (y ∷ p) ++ post)))
        ≡ some (pre ++ (mask ++ sub is_space post))
  unfolding sub
  scrub_text-credentials pre x y u p post plain hu hp =
      scrub_text-sub (pre ++ (credentials (x ∷ u) (y ∷ p) ++ post))
      ∙ ap some (
          sub_from-append pre (credentials (x ∷ u) (y ∷ p) ++ post) plain
          ∙ ap (λ t. pre ++ t) (sub-credentials x y u p post hu hp))

  no_user : (t : List ℕ) → match_length is_space (b':' ∷ b'/' ∷ b'/' ∷ b':' ∷ t) ≡ none
  unfolding match_length after span closed
  no_user t = ground (arith, is_user_end)

  no_slash :
      (p post : List ℕ)
      → All (λ c. is_password is_space c ≡ true) p
      → match_length is_space (b':' ∷ (p ++ b'@' ∷ post)) ≡ none
  unfolding match_length after
  no_slash [] post h = refl
  no_slash (c ∷ p) post (h, hs) = ground arith

  sub_from-plain : (t : List ℕ) → All (λ c. c ≢ b':') t → sub_from is_space 0 t ≡ t
  unfolding sub_from
  sub_from-plain t h =
      ap (sub_from is_space 0) (sym (append-nil t)) ∙ sub_from-append t [] h ∙ append-nil t

  sub-no_user :
      (p post : List ℕ)
      → All (λ c. c ≢ b':') (p ++ b'@' ∷ post)
      → All (λ c. is_password is_space c ≡ true) p
      → sub_from is_space 0 (scheme_end ++ (b':' ∷ (p ++ b'@' ∷ post)))
        ≡ scheme_end ++ (b':' ∷ (p ++ b'@' ∷ post))
  unfolding sub_from
  sub-no_user p post rest hp = ground (
    arith,
    no_user (p ++ b'@' ∷ post),
    no_slash p post hp,
    sub_from-plain (p ++ b'@' ∷ post) rest,
    match_length-other b'/' (b'/' ∷ b':' ∷ (p ++ b'@' ∷ post)),
    match_length-other b'/' (b':' ∷ (p ++ b'@' ∷ post)),
  )

  -- A URL with a password and no user, `://:password@`, is not masked at all: the password is put out
  -- as it is, where neither the text before it, nor the password, nor the text after it has a colon.
  scrub_text-no_user :
      (pre p post : List ℕ)
      → All (λ c. c ≢ b':') pre
      → All (λ c. c ≢ b':') (p ++ b'@' ∷ post)
      → All (λ c. is_password is_space c ≡ true) p
      → scrub_text is_space (some (pre ++ (scheme_end ++ (b':' ∷ (p ++ b'@' ∷ post)))))
        ≡ some (pre ++ (scheme_end ++ (b':' ∷ (p ++ b'@' ∷ post))))
  unfolding sub
  scrub_text-no_user pre p post plain rest hp =
      scrub_text-sub (pre ++ (scheme_end ++ (b':' ∷ (p ++ b'@' ∷ post))))
      ∙ ap some (
          sub_from-append pre (scheme_end ++ (b':' ∷ (p ++ b'@' ∷ post))) plain
          ∙ ap (λ t. pre ++ t) (sub-no_user p post rest hp))

module _ {X : Type 0} (is_space : ℕ → Bool) (same_letter : ℕ → ℕ → Bool) where
  -- the same keys, and the same values where the key is not sensitive
  abbrev pub Agree : Meta X → Meta X → Type 0
  Agree [] [] = Unit {0}
  Agree ((k, v) ∷ m) ((j, w) ∷ n) =
      (k ≡ j) × ((is_sensitive same_letter k ≡ true) ⊎ (v ≡ w)) × Agree m n
  Agree _ _ = ⊥

  scrub_item-Agree :
      (k j : List ℕ) (v w : MetaValue X)
      → k ≡ j
      → (is_sensitive same_letter k ≡ true) ⊎ (v ≡ w)
      → scrub_item is_space same_letter (k, v) ≡ scrub_item is_space same_letter (j, w)
  unfolding scrub_item
  scrub_item-Agree k j v w e (inl hidden) = ground arith
  scrub_item-Agree k j v w e (inr same) = ground arith

  map-Agree :
      (m n : Meta X)
      → Agree m n
      → map (scrub_item is_space same_letter) m ≡ map (scrub_item is_space same_letter) n
  map-Agree [] [] h = refl
  map-Agree ((k, v) ∷ m) ((j, w) ∷ n) (e, hidden, h) =
      ground (arith, scrub_item-Agree k j v w e hidden, map-Agree m n h)
  map-Agree [] (x ∷ n) h = absurd h
  map-Agree (x ∷ m) [] h = absurd h

  -- What is put out of `meta` does not depend on the values of sensitive keys.
  pub scrub_meta-Agree :
      (m n : Meta X)
      → Agree m n
      → scrub_meta is_space same_letter (some m) ≡ scrub_meta is_space same_letter (some n)
  unfolding scrub_meta
  scrub_meta-Agree m n h = ap some (map-Agree m n h)
