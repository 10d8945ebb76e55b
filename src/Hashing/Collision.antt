-- ===== src/Hashing/Collision.antt =====
-- Two byte strings with the same hash are equal, or they are a collision.
use bit_vm.Prelude.{
  ℕ, ◌≡◌, ◌≢◌, refl, ap, ap₂, ◌⊎◌, inl, inr, Bool-cases, [], ◌∷◌, ◌++◌, length, length-append,
  bytes_eq, bytes_eq→eq, bytes_eq_refl, arith,
}
use bit_vm.Hashing.{Bytes, calculate_double_sha256, hash_pair}

pub record Collision (sha256 : Bytes → Bytes) : Type 0 where
  pub one : Bytes
  pub other : Bytes
  pub different : one ≢ other
  pub same_hash : sha256 one ≡ sha256 other

abbrev rest_of : Bytes → Bytes
rest_of [] = []
rest_of (x ∷ xs) = xs

append-cancel_left : (xs ys zs : Bytes) → xs ++ ys ≡ xs ++ zs → ys ≡ zs
append-cancel_left [] ys zs e = e
append-cancel_left (x ∷ xs) ys zs e = append-cancel_left xs ys zs (ap rest_of e)

abbrev first_of : Bytes → ℕ
first_of [] = 0
first_of (x ∷ xs) = x

append-cancel_right : (xs ys zs : Bytes) → xs ++ zs ≡ ys ++ zs → xs ≡ ys
append-cancel_right [] [] zs e = refl
append-cancel_right [] (y ∷ ys) zs e = absurd (omega (arith, ap length e, length-append ys zs))
append-cancel_right (x ∷ xs) [] zs e = absurd (omega (arith, ap length e, length-append xs zs))
append-cancel_right (x ∷ xs) (y ∷ ys) zs e =
    ap₂ (λ h t. h ∷ t) (ap first_of e) (append-cancel_right xs ys zs (ap rest_of e))

module _ (sha256 : Bytes → Bytes) where
  pub sha256-injective : (a b : Bytes) → sha256 a ≡ sha256 b → (a ≡ b) ⊎ Collision sha256
  sha256-injective a b e = elim (Bool-cases (bytes_eq a b)) [
    | inl same ↦ inl (bytes_eq→eq a b same)
    | inr differ ↦ inr (record {
      one = a;
      other = b;
      different = λ (p : a ≡ b). let same = bytes_eq_refl b in cc;
      same_hash = e;
    })
  ]

  pub hash_pair-injective_left :
      (a b s : Bytes) → hash_pair sha256 a s ≡ hash_pair sha256 b s → (a ≡ b) ⊎ Collision sha256
  unfolding hash_pair
  hash_pair-injective_left a b s e = elim (sha256-injective (a ++ s) (b ++ s) e) [
    | inl same ↦ inl (append-cancel_right a b s same)
    | inr c ↦ inr c
  ]

  pub hash_pair-injective_right :
      (a b s : Bytes) → hash_pair sha256 s a ≡ hash_pair sha256 s b → (a ≡ b) ⊎ Collision sha256
  unfolding hash_pair
  hash_pair-injective_right a b s e = elim (sha256-injective (s ++ a) (s ++ b) e) [
    | inl same ↦ inl (append-cancel_left s a b same)
    | inr c ↦ inr c
  ]

  pub calculate_double_sha256-injective :
      (a b : Bytes)
      → calculate_double_sha256 sha256 a ≡ calculate_double_sha256 sha256 b
      → (a ≡ b) ⊎ Collision sha256
  unfolding calculate_double_sha256
  calculate_double_sha256-injective a b e = elim (sha256-injective (sha256 a) (sha256 b) e) [
    | inl same ↦ sha256-injective a b same
    | inr c ↦ inr c
  ]

  pub double_sha256-injective_left :
      (a b s : Bytes)
      → calculate_double_sha256 sha256 (a ++ s) ≡ calculate_double_sha256 sha256 (b ++ s)
      → (a ≡ b) ⊎ Collision sha256
  double_sha256-injective_left a b s e =
      elim (calculate_double_sha256-injective (a ++ s) (b ++ s) e) [
        | inl same ↦ inl (append-cancel_right a b s same)
        | inr c ↦ inr c
      ]

  pub double_sha256-injective_right :
      (a b s : Bytes)
      → calculate_double_sha256 sha256 (s ++ a) ≡ calculate_double_sha256 sha256 (s ++ b)
      → (a ≡ b) ⊎ Collision sha256
  double_sha256-injective_right a b s e =
      elim (calculate_double_sha256-injective (s ++ a) (s ++ b) e) [
        | inl same ↦ inl (append-cancel_left s a b same)
        | inr c ↦ inr c
      ]
