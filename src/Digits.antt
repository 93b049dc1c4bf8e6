-- ===== src/Digits.antt =====
-- Positional numerals, most significant digit first: the reference for `big.Int` in
-- internal/nip5a/label.go (SetBytes, FillBytes, Text, SetString) and for package hex.
use native.Mathlib.Nat.{
  pow-suc, suc-sub-suc, sub-zero, pow-zero, mul-one, one-mul, zero-mul, add-zero, mul_assoc,
  mul_comm, zero-add, suc-add, add-suc, div-add-mod', div-lt_iff_lt-mul, div-lt_self, div-eq_of_lt,
  mul-add-div_right, mod-lt, zero-mod, zero-div,
}
use nostrhost_nsite.Prelude.{
  ℕ, zero, suc, ◌+◌, ◌-◌, ◌*◌, ◌/◌, ◌%◌, ◌^◌, ◌≤◌, ◌<◌, ◌≡◌, refl, sym, ap, ◌∙◌, true, List, [],
  ◌∷◌, ◌++◌, append_assoc, append-nil, arith, ◌==◌, if◌then◌else◌, Bool-cases, inl, inr, length,
  length-append, replicate, replicate-concat, All, All-append,
}

-- the number that digits spell behind `acc`, in base `b`
unfoldable pub value_from : ℕ → ℕ → List ℕ → ℕ
value_from b acc [] = acc
value_from b acc (d ∷ ds) = value_from b (acc * b + d) ds

-- exactly `k` digits of `n`, the leading ones dropped or padded with 0
unfoldable pub fixed : ℕ → ℕ → ℕ → List ℕ
fixed b zero n = []
fixed b (suc k) n = fixed b k (n / b) ++ n % b ∷ []

-- `for n > 0 { out = append([]Digit{n % b}, out...); n /= b }`, with fuel
unfoldable pub shortest : ℕ → ℕ → ℕ → List ℕ → List ℕ
shortest b zero n out = out
shortest b (suc f) n out =
    let rest = shortest b f (n / b) ((n % b) ∷ out) in if n == 0 then out else rest

module _ (b : ℕ) (one_lt : 1 < b) where
  b_pos : 0 < b
  b_pos = omega arith

  div_pow_lt : (n k : ℕ) → n < b ^ suc k → n / b < b ^ k
  div_pow_lt n k h = (div-lt_iff_lt-mul b_pos).1 (rw pow-suc at h)

  shift_div : (acc d : ℕ) → d < b → (acc * b + d) / b ≡ acc
  shift_div acc d h = mul-add-div_right b_pos acc d ∙ rw (div-eq_of_lt h) (omega arith)

  shift_mod : (acc d : ℕ) → d < b → (acc * b + d) % b ≡ d
  shift_mod acc d h =
      omega (arith, div-add-mod' (acc * b + d) b, ap (λ (t : ℕ). t * b) (shift_div acc d h))

  value_from-append :
      (acc : ℕ) (xs ys : List ℕ)
      → value_from b acc (xs ++ ys) ≡ value_from b (value_from b acc xs) ys
  unfolding value_from
  value_from-append acc [] ys = refl
  value_from-append acc (x ∷ xs) ys = value_from-append (acc * b + x) xs ys

  pub length-fixed : (k n : ℕ) → length (fixed b k n) ≡ k
  unfolding fixed
  length-fixed zero n = refl
  length-fixed (suc k) n =
      omega (arith, length-append (fixed b k (n / b)) (n % b ∷ []), length-fixed k (n / b))

  pub fixed_digits : (k n : ℕ) → All (λ d. d < b) (fixed b k n)
  unfolding fixed
  fixed_digits zero n = tt
  fixed_digits (suc k) n =
      All-append _ (fixed b k (n / b)) (n % b ∷ []) (fixed_digits k (n / b)) (mod-lt n b_pos, tt)

  -- The number that `k` digits of `n` spell is `n`, when `k` digits suffice.
  pub value-fixed : (k n : ℕ) → n < b ^ k → value_from b 0 (fixed b k n) ≡ n
  unfolding fixed value_from
  value-fixed zero n h = omega (arith, pow-zero b)
  value-fixed (suc k) n h =
      value_from-append 0 (fixed b k (n / b)) (n % b ∷ [])
      ∙ rw (value-fixed k (n / b) (div_pow_lt n k h)) (div-add-mod' n b)

  fixed-value_from :
      (k acc : ℕ) (xs : List ℕ)
      → All (λ d. d < b) xs
      → fixed b (length xs + k) (value_from b acc xs) ≡ fixed b k acc ++ xs
  unfolding value_from
  fixed-value_from k acc [] _ = rw zero-add (sym (append-nil _))
  fixed-value_from k acc (x ∷ xs) (p, h) =
      rw (suc-add, ← add-suc, fixed-value_from (suc k) (acc * b + x) xs h)
        (unfold fixed in rw (shift_div acc x p, shift_mod acc x p, append_assoc))

  value_from-lt :
      (p acc : ℕ) (xs : List ℕ)
      → acc < p
      → All (λ d. d < b) xs
      → value_from b acc xs < p * b ^ length xs
  unfolding value_from
  value_from-lt p acc [] lt _ = rw (pow-zero, mul-one) lt
  value_from-lt p acc (x ∷ xs) lt (h, hs) =
      let step : acc * b + x < p * b = grind arith in
      rw (pow-suc, mul_comm (b ^ length xs) b, ← mul_assoc)
        (value_from-lt (p * b) (acc * b + x) xs step hs)

  pub value-lt : (xs : List ℕ) → All (λ d. d < b) xs → value_from b 0 xs < b ^ length xs
  value-lt xs h = rw (one-mul _) at (value_from-lt 1 0 xs (omega arith) h)

  -- Digits below the base are the fixed digits of the number that they spell.
  pub fixed-value :
      (xs : List ℕ) → All (λ d. d < b) xs → fixed b (length xs) (value_from b 0 xs) ≡ xs
  fixed-value xs h = rw add-zero at (fixed-value_from 0 0 xs h) ∙ unfold fixed in refl

  value_from-ge : (acc : ℕ) (xs : List ℕ) → acc * b ^ length xs ≤ value_from b acc xs
  unfolding value_from
  value_from-ge acc [] = rw (pow-zero, mul-one) (omega arith)
  value_from-ge acc (x ∷ xs) =
      let rest = value_from-ge (acc * b + x) xs in
      rw (pow-suc, mul_comm (b ^ length xs) b, ← mul_assoc) (grind (arith, rest))

  -- The first digit counts with its full weight.
  pub first_digit-le : (d : ℕ) (ds : List ℕ) → d * b ^ length ds ≤ value_from b 0 (d ∷ ds)
  unfolding value_from
  first_digit-le d ds = rw (zero-mul, zero-add) (value_from-ge d ds)

  shortest-append : (f n : ℕ) (out : List ℕ) → shortest b f n out ≡ shortest b f n [] ++ out
  unfolding shortest
  shortest-append zero n out = refl
  shortest-append (suc f) n out = elim (Bool-cases (n == 0)) [
    | inl e ↦ rw (e, if◌then◌else◌)
    | inr e ↦ rw (
      e,
      shortest-append f (n / b) (n % b ∷ out),
      shortest-append f (n / b) (n % b ∷ []),
      append_assoc,
    )
  ]

  pub fixed_zero : (k : ℕ) → fixed b k 0 ≡ replicate k 0
  unfolding fixed
  fixed_zero zero = refl
  fixed_zero (suc k) = rw (zero-div, zero-mod, fixed_zero k) (replicate-concat k 0)

  fixed_next :
      (k n : ℕ) (out : List ℕ)
      → (length out ≤ k) × (replicate (k - length out) 0 ++ out ≡ fixed b k (n / b))
      → (length (out ++ n % b ∷ []) ≤ suc k)
        × (replicate (suc k - length (out ++ n % b ∷ [])) 0 ++ (out ++ n % b ∷ [])
            ≡ fixed b (suc k) n)
  unfolding fixed
  fixed_next k n out (short, e) =
      let len : length (out ++ n % b ∷ []) ≡ suc (length out) =
        omega (arith, length-append out (n % b ∷ [])) in
      (omega arith, rw (len, suc-sub-suc, ← append_assoc, e))

  -- Padding the shortest numeral with zeros gives the fixed one.
  pub shortest-fixed :
      (k f n : ℕ)
      → n ≤ f
      → n < b ^ k
      → (length (shortest b f n []) ≤ k)
        × (replicate (k - length (shortest b f n [])) 0 ++ shortest b f n [] ≡ fixed b k n)
  unfolding shortest
  shortest-fixed k zero n h lt =
      let e : n ≡ 0 = omega arith in
      (omega arith, rw (e, sub-zero, append-nil) (sym (fixed_zero k)))
  shortest-fixed zero (suc f) n h lt =
      let e : (n == 0) ≡ true = ground (arith, pow-zero b) in
      (rw (e, if◌then◌else◌) (omega arith), rw (e, if◌then◌else◌) (unfold fixed in refl))
  shortest-fixed (suc k) (suc f) n h lt = elim (Bool-cases (n == 0)) [
    | inl e ↦
        let n_zero : n ≡ 0 = ground arith in
        (
          rw (e, if◌then◌else◌) (omega arith),
          rw (e, if◌then◌else◌, n_zero, sub-zero, append-nil) (sym (fixed_zero (suc k))),
        )
    | inr e ↦
        let small : n / b < n = div-lt_self (ground arith) one_lt in
        rw (e, if◌then◌else◌, shortest-append f (n / b) (n % b ∷ []))
          (fixed_next k n (shortest b f (n / b) [])
            (shortest-fixed k f (n / b) (omega arith) (div_pow_lt n k lt)))
  ]
