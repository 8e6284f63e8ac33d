-- ===== src/Exporter/History/Key.antt =====
-- The key of a process tells pids and start times apart.
use gitlab_procs_exporter.Prelude.{
  ℕ, ◌+◌, ◌≡◌, ◌≢◌, refl, sym, ap, ◌∙◌, [], ◌∷◌, ◌++◌, append-nil, arith, All,
}
use gitlab_procs_exporter.Prelude.Int.{ℤ, pos, negsuc}
use gitlab_procs_exporter.Prelude.Text.{Text}
use gitlab_procs_exporter.Prelude.Decimal.{
  IsDigit, format_nat, format_int, format_nat_inj, format_nat-IsDigit, format_nat-ne-nil,
}
use gitlab_procs_exporter.Exporter.History.{process_key}

-- Digits end where the dash stands.
split_at_dash :
    (ds es r t : Text)
    → All IsDigit ds
    → All IsDigit es
    → ds ++ (b'-' ∷ r) ≡ es ++ (b'-' ∷ t)
    → (ds ≡ es) × (r ≡ t)
split_at_dash [] [] r t _ _ h = ground arith
split_at_dash [] (e ∷ es) r t _ he h = ground arith
split_at_dash (d ∷ ds) [] r t hd _ h = ground arith
split_at_dash (d ∷ ds) (e ∷ es) r t hd he h = ground (arith, split_at_dash ds es r t hd.1 he.1)

-- What begins with a digit does not begin with a dash.
digits-ne-dash : (ds r t : Text) → ds ≢ [] → All IsDigit ds → ds ++ r ≡ b'-' ∷ t → ⊥
digits-ne-dash [] r t h _ e = h refl
digits-ne-dash (d ∷ ds) r t _ hd e = ground arith

format_nat-ne-dash : (n : ℕ) (r t : Text) → format_nat n ++ r ≡ b'-' ∷ t → ⊥
format_nat-ne-dash n r t =
    digits-ne-dash (format_nat n) r t (format_nat-ne-nil n) (format_nat-IsDigit n)

split_format_nat :
    (m n : ℕ) (r t : Text)
    → format_nat m ++ (b'-' ∷ r) ≡ format_nat n ++ (b'-' ∷ t)
    → (m ≡ n) × (r ≡ t)
split_format_nat m n r t h =
    let (same, rest) =
      split_at_dash (format_nat m) (format_nat n) r t (format_nat-IsDigit m) (format_nat-IsDigit n)
        h in
    (format_nat_inj m n same, rest)

pub format_int_inj : (a b : ℤ) → format_int a ≡ format_int b → a ≡ b
unfolding format_int
format_int_inj (pos m) (pos n) h = ground (arith, format_nat_inj m n)
format_int_inj (negsuc m) (negsuc n) h = ground (arith, format_nat_inj (m + 1) (n + 1))
format_int_inj (pos m) (negsuc n) h =
    absurd (format_nat-ne-dash m [] (format_nat (n + 1)) (append-nil _ ∙ h))
format_int_inj (negsuc m) (pos n) h =
    absurd (format_nat-ne-dash n [] (format_nat (m + 1)) (append-nil _ ∙ sym h))

-- Two processes with one key have the same pid and the same start time.
pub process_key_inj : (p q c d : ℤ) → process_key p c ≡ process_key q d → (p ≡ q) × (c ≡ d)
unfolding process_key format_int
process_key_inj (pos m) (pos n) c d h =
    let (same, rest) = split_format_nat m n (format_int c) (format_int d) h in
    (ap pos same, format_int_inj c d rest)
process_key_inj (negsuc m) (negsuc n) c d h =
    let (same, rest) =
      split_format_nat (m + 1) (n + 1) (format_int c) (format_int d) (ground arith) in
    (ground arith, format_int_inj c d rest)
process_key_inj (pos m) (negsuc n) c d h = absurd (format_nat-ne-dash m _ _ h)
process_key_inj (negsuc m) (pos n) c d h = absurd (format_nat-ne-dash n _ _ (sym h))
