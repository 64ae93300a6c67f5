-- ===== src/Tests/Validator.antt =====
-- A validator for the quality gates: the four expectations, computed.
use spark_dev.Base.{
  ℕ, ◌==◌, ==_iff, ◌≡◌, ◌≢◌, ◌↔◌, refl, ap, true, false, Bool, not, ◌&&◌, any, all, String, List,
  [], ◌∷◌, All, In, str_eq, eq_iff, arith,
}
use spark_dev.Base.Int.{ℤ, pos, negsuc, leb_ℤ}
use spark_dev.Capstone.Quality.{
  Cell, null, whole, decimal, text, Table, Expectation, not_be_null, be_unique, be_between,
  be_in_set, IsUnique, IsBetween, IsInSet, IsValidator,
}

abbrev pub is_cell : Cell → Bool
is_cell null = false
is_cell (whole n) = true
is_cell (decimal n) = true
is_cell (text s) = true

abbrev pub int_eq : ℤ → ℤ → Bool
int_eq (pos m) (pos n) = m == n
int_eq (pos m) (negsuc n) = false
int_eq (negsuc m) (pos n) = false
int_eq (negsuc m) (negsuc n) = m == n

abbrev pub cell_eq : Cell → Cell → Bool
cell_eq null null = true
cell_eq (whole m) (whole n) = m == n
cell_eq (decimal m) (decimal n) = int_eq m n
cell_eq (text s) (text t) = str_eq s t
cell_eq c d = false

abbrev pub unique : List Cell → Bool
unique [] = true
unique (null ∷ cells) = unique cells
unique (cell ∷ cells) = not (any (cell_eq cell) cells) && unique cells

abbrev pub between : ℤ → ℤ → Cell → Bool
between low high null = true
between low high (decimal n) = leb_ℤ low n && leb_ℤ n high
between low high (whole n) = false
between low high (text s) = false

abbrev pub in_set : List String → Cell → Bool
in_set values null = true
in_set values (text s) = any (str_eq s) values
in_set values (whole n) = false
in_set values (decimal n) = false

abbrev pub meets : Expectation → Table → Bool
meets (not_be_null c) t = all is_cell (t c)
meets (be_unique c) t = unique (t c)
meets (be_between c low high) t = all (between low high) (t c)
meets (be_in_set c values) t = all (in_set values) (t c)

all_iff :
    {A : Type 0} (p : A → Bool) (P : A → Type 0)
    → ((a : A) → (p a ≡ true) ↔ P a)
    → (xs : List A) → (all p xs ≡ true) ↔ All P xs
all_iff p P h [] = (λ _. tt, λ _. refl)
all_iff p P h (x ∷ xs) = ground (arith, h x, all_iff p P h xs)

any_iff :
    {A : Type 0} (p : A → Bool) (a : A)
    → ((x : A) → (p x ≡ true) ↔ (a ≡ x))
    → (xs : List A) → (any p xs ≡ true) ↔ In a xs
any_iff p a h [] = (λ e. ground arith, λ m. absurd m)
any_iff p a h (x ∷ xs) = ground (arith, h x, any_iff p a h xs)

is_cell_iff : (c : Cell) → (is_cell c ≡ true) ↔ (c ≢ null)
is_cell_iff null = (λ e. ground arith, λ ne. absurd (ne refl))
is_cell_iff (whole n) = (λ _ e. ground arith, λ _. refl)
is_cell_iff (decimal n) = (λ _ e. ground arith, λ _. refl)
is_cell_iff (text s) = (λ _ e. ground arith, λ _. refl)

abbrev pub size : ℤ → ℕ
size (pos n) = n
size (negsuc n) = n

int_eq_iff : (m n : ℤ) → (int_eq m n ≡ true) ↔ (m ≡ n)
int_eq_iff (pos m) (pos n) = (λ e. ap pos ((==_iff m n).0 e), λ e. (==_iff m n).1 (ap size e))
int_eq_iff (pos m) (negsuc n) = (λ e. ground arith, λ e. ground arith)
int_eq_iff (negsuc m) (pos n) = (λ e. ground arith, λ e. ground arith)
int_eq_iff (negsuc m) (negsuc n) =
    (λ e. ap negsuc ((==_iff m n).0 e), λ e. (==_iff m n).1 (ap size e))

between_iff : (low high : ℤ) (c : Cell) → (between low high c ≡ true) ↔ IsBetween low high c
between_iff low high null = (λ _. tt, λ _. refl)
between_iff low high (decimal n) = ground arith
between_iff low high (whole n) = (λ e. ground arith, λ m. absurd m)
between_iff low high (text s) = (λ e. ground arith, λ m. absurd m)

in_set_iff : (values : List String) (c : Cell) → (in_set values c ≡ true) ↔ IsInSet values c
in_set_iff values null = (λ _. tt, λ _. refl)
in_set_iff values (text s) = any_iff (str_eq s) s (eq_iff s) values
in_set_iff values (whole n) = (λ e. ground arith, λ m. absurd m)
in_set_iff values (decimal n) = (λ e. ground arith, λ m. absurd m)

abbrev pub number_of : Cell → ℕ
number_of null = 0
number_of (whole n) = n
number_of (decimal z) = 0
number_of (text s) = 0

abbrev pub decimal_of : Cell → ℤ
decimal_of null = pos 0
decimal_of (whole n) = pos 0
decimal_of (decimal z) = z
decimal_of (text s) = pos 0

abbrev pub text_of : Cell → String
text_of null = ""
text_of (whole n) = ""
text_of (decimal z) = ""
text_of (text s) = s

cell_eq_iff : (c d : Cell) → (cell_eq c d ≡ true) ↔ (c ≡ d)
cell_eq_iff null null = (λ _. refl, λ _. refl)
cell_eq_iff null (whole n) = (λ e. ground arith, λ e. ground arith)
cell_eq_iff null (decimal n) = (λ e. ground arith, λ e. ground arith)
cell_eq_iff null (text t) = (λ e. ground arith, λ e. ground arith)
cell_eq_iff (whole m) null = (λ e. ground arith, λ e. ground arith)
cell_eq_iff (whole m) (whole n) =
    (λ e. ap whole ((==_iff m n).0 e), λ e. (==_iff m n).1 (ap number_of e))
cell_eq_iff (whole m) (decimal n) = (λ e. ground arith, λ e. ground arith)
cell_eq_iff (whole m) (text t) = (λ e. ground arith, λ e. ground arith)
cell_eq_iff (decimal m) null = (λ e. ground arith, λ e. ground arith)
cell_eq_iff (decimal m) (whole n) = (λ e. ground arith, λ e. ground arith)
cell_eq_iff (decimal m) (decimal n) =
    (λ e. ap decimal ((int_eq_iff m n).0 e), λ e. (int_eq_iff m n).1 (ap decimal_of e))
cell_eq_iff (decimal m) (text t) = (λ e. ground arith, λ e. ground arith)
cell_eq_iff (text s) null = (λ e. ground arith, λ e. ground arith)
cell_eq_iff (text s) (whole n) = (λ e. ground arith, λ e. ground arith)
cell_eq_iff (text s) (decimal n) = (λ e. ground arith, λ e. ground arith)
cell_eq_iff (text s) (text t) =
    (λ e. ap text ((eq_iff s t).0 e), λ e. (eq_iff s t).1 (ap text_of e))

new_iff :
    (c : Cell) (cells : List Cell) (b : Bool) (B : Type 0)
    → (b ≡ true) ↔ B
    → ((not (any (cell_eq c) cells) && b) ≡ true) ↔ (¬ (In c cells) × B)
new_iff c cells b B h = ground (arith, any_iff (cell_eq c) c (cell_eq_iff c) cells, h)

unique_iff : (cells : List Cell) → (unique cells ≡ true) ↔ IsUnique cells
unique_iff [] = (λ _. tt, λ _. refl)
unique_iff (null ∷ cells) = unique_iff cells
unique_iff (whole n ∷ cells) =
    new_iff (whole n) cells (unique cells) (IsUnique cells) (unique_iff cells)
unique_iff (decimal z ∷ cells) =
    new_iff (decimal z) cells (unique cells) (IsUnique cells) (unique_iff cells)
unique_iff (text s ∷ cells) =
    new_iff (text s) cells (unique cells) (IsUnique cells) (unique_iff cells)

pub meets-IsValidator : IsValidator meets
meets-IsValidator = record {
  null_law = λ c t. all_iff is_cell (λ cell. cell ≢ null) is_cell_iff (t c);
  unique_law = λ c t. unique_iff (t c);
  between_law =
      λ c low high t. all_iff (between low high) (IsBetween low high) (between_iff low high) (t c);
  in_set_law = λ c values t. all_iff (in_set values) (IsInSet values) (in_set_iff values) (t c);
}
