-- ===== src/Tests/Health.antt =====
-- Runs of fastapi_m8/_health.py: what is masked.
use fastapi_m.Base.{ℕ, ◌≡◌, refl, Bool, true, some, [], ◌∷◌, ◌++◌, arith, ◌==◌, nat_eq, inl, inr}
use fastapi_m.Http.{codes}
use fastapi_m.Health.Scrub.{
  span, after, closed, match_length, sub_from, sub, scrub_text, mask, Meta, text, other,
  starts_word, word_inside, is_sensitive, scrub_meta,
}
use fastapi_m.Health.Scrub.Laws.{credentials, scrub_text-credentials, scrub_meta-Agree}

program : Unit {0}
unfolding span after closed match_length sub_from sub scrub_text starts_word word_inside
    is_sensitive
program = tt

abbrev is_space : ℕ → Bool
is_space c = c == 32

abbrev same_letter : ℕ → ℕ → Bool
same_letter c d = c == d

scrub_text-credentials_example :
    scrub_text is_space
      (some (codes "db" ++ (credentials is_space (codes "ann") (codes "pw") ++ codes "host")))
    ≡ some (codes "db" ++ (mask ++ sub is_space (codes "host")))
scrub_text-credentials_example =
    scrub_text-credentials is_space (codes "db") b'a' b'p' (codes "nn") (codes "w") (codes "host")
      (λ e. absurd (omega (arith, e)), (λ e. absurd (omega (arith, e)), tt))
      (refl, (refl, (refl, tt))) (refl, (refl, tt))

masked : scrub_text is_space (some (codes "db://ann:pw@h")) ≡ some (codes "db://***:***@h")
unfolding program
masked = refl

abbrev one : Meta ℕ
one = (codes "db_password", text (codes "hunter2")) ∷ (codes "pool", other 5) ∷ []

abbrev other_one : Meta ℕ
other_one = (codes "db_password", other 7) ∷ (codes "pool", other 5) ∷ []

hidden : is_sensitive same_letter (codes "db_password") ≡ true
unfolding program
hidden = refl

scrub_meta-Agree_example :
    scrub_meta is_space same_letter (some one) ≡ scrub_meta is_space same_letter (some other_one)
scrub_meta-Agree_example =
    scrub_meta-Agree is_space same_letter one other_one ((refl, inl hidden, (refl, inr refl, tt)))
