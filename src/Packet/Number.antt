-- ===== src/Packet/Number.antt =====
-- Numbers in decimal: what `to_string` writes is what the parser's `stoul` reads.
use gcc_chrome.Common.{
  ℕ, zero, suc, ◌+◌, ◌-◌, ◌*◌, ◌/◌, ◌%◌, ◌^◌, ◌<◌, ◌≤◌, ◌≡◌, refl, ◌∙◌, ap, [], ◌∷◌, ◌++◌, arith,
  Bool-cases, inl, inr, ltb, leb, if◌then◌else◌,
}
use gcc_chrome.Common.Lists.{
  length, length-append, length-replicate, take, replicate, All, All-append,
}
use gcc_chrome.Common.Result.{ok}
use gcc_chrome.Packet.{
  Text, digits, to_string, number_to_fix_len_string, written_cells, before_nul, read_digits,
  read_number, read_signed, stoul,
}

abbrev pub IsDigit : ℕ → Type 0
IsDigit c = (48 ≤ c) × (c < 58)

abbrev pub pow10 : ℕ → ℕ
pow10 zero = 1
pow10 (suc k) = 10 * pow10 k

digits-All : (fuel n : ℕ) → All IsDigit (digits fuel n)
unfolding digits
digits-All zero n = tt
digits-All (suc fuel) n = ground (
  arith,
  digits-All fuel (n / 10),
  All-append IsDigit (digits fuel (n / 10)) ((n % 10 + 48) ∷ []),
)

pub read_digits-append :
    (n : ℕ) (xs ys : Text)
    → All IsDigit xs
    → read_digits n (xs ++ ys) ≡ read_digits (read_digits n xs) ys
unfolding read_digits
read_digits-append n [] ys _ = refl
read_digits-append n (x ∷ xs) ys (p, ps) =
    ground (arith, read_digits-append (n * 10 + (x - 48)) xs ys ps)

read_digits-digits : (fuel n : ℕ) → n < pow10 fuel → read_digits 0 (digits fuel n) ≡ n
unfolding digits read_digits
read_digits-digits zero n h = omega arith
read_digits-digits (suc fuel) n h = ground (
  arith,
  read_digits-digits fuel (n / 10) (omega arith),
  read_digits-append 0 (digits fuel (n / 10)) ((n % 10 + 48) ∷ []) (digits-All fuel (n / 10)),
)

pub to_string-All : (n : ℕ) → All IsDigit (to_string n)
unfolding to_string
to_string-All n = digits-All 20 n

pub read_digits-to_string : (n : ℕ) → n < 2 ^ 64 → read_digits 0 (to_string n) ≡ n
unfolding to_string
read_digits-to_string n small = read_digits-digits 20 n (omega arith)

length-digits : (fuel k n : ℕ) → n < pow10 (suc k) → length (digits fuel n) ≤ suc k
unfolding digits
length-digits zero k n h = omega arith
length-digits (suc fuel) zero n h = ground arith
length-digits (suc fuel) (suc k) n h = ground (
  arith,
  length-append (digits fuel (n / 10)) ((n % 10 + 48) ∷ []),
  length-digits fuel k (n / 10) (omega arith),
)

pow10-positive : (k : ℕ) → 1 ≤ pow10 k
pow10-positive zero = omega arith
pow10-positive (suc k) = omega (arith, pow10-positive k)

digits-length : (fuel k n : ℕ) → pow10 k ≤ n → k < fuel → suc k ≤ length (digits fuel n)
unfolding digits
digits-length zero k n h b = omega arith
digits-length (suc fuel) zero n h b =
    ground (arith, length-append (digits fuel (n / 10)) ((n % 10 + 48) ∷ []))
digits-length (suc fuel) (suc k) n h b = ground (
  arith,
  length-append (digits fuel (n / 10)) ((n % 10 + 48) ∷ []),
  pow10-positive k,
  digits-length fuel k (n / 10) (omega arith) (omega arith),
)

abbrev zeros : ℕ → Text
zeros n = replicate n 48

-- Zeros before a number do not change it.
read_digits-zeros : (k : ℕ) (t : Text) → read_digits 0 (zeros k ++ t) ≡ read_digits 0 t
unfolding read_digits
read_digits-zeros zero t = refl
read_digits-zeros (suc k) t = ground (arith, read_digits-zeros k t)

read_digits-only_zeros : (k : ℕ) → read_digits 0 (zeros k) ≡ 0
unfolding read_digits
read_digits-only_zeros zero = refl
read_digits-only_zeros (suc k) = ground (arith, read_digits-only_zeros k)

length-zeros : (k : ℕ) → length (zeros k) ≡ k
length-zeros k = length-replicate {A = ℕ} k 48

take-zeros : (k n : ℕ) → k ≤ n → take k (zeros n) ≡ zeros k
take-zeros zero n h = refl
take-zeros (suc k) zero h = ground arith
take-zeros (suc k) (suc n) h = ap (λ t. 48 ∷ t) (take-zeros k n (omega arith))

zeros-All : (k : ℕ) → All IsDigit (zeros k)
zeros-All zero = tt
zeros-All (suc k) = ((omega arith, omega arith), zeros-All k)

-- A text of at least one digit and of a number below 2^64.
stoul-digits :
    (t : Text) (k : ℕ)
    → All IsDigit t
    → length t ≡ suc k
    → read_digits 0 t < 2 ^ 64
    → stoul t ≡ ok (read_digits 0 t)
unfolding stoul read_signed read_number
stoul-digits [] k ds l small = ground arith
stoul-digits (c ∷ cs) k ((lo, hi), ds) l small = ground arith

padded-All : (k : ℕ) (t : Text) → All IsDigit t → All IsDigit (zeros k ++ t)
padded-All k t = All-append IsDigit (zeros k) t (zeros-All k)

before_nul-append : (t : Text) → All IsDigit t → before_nul (t ++ 0 ∷ []) ≡ t
unfolding before_nul
before_nul-append [] ds = refl
before_nul-append (c ∷ cs) (d, ds) = ground (arith, before_nul-append cs ds)

-- The characters before the closing NUL.
abbrev body : ℕ → ℕ → Text
body n len =
    let s = to_string n in
    if leb (length s) len then take (len - length s) (replicate len 48) ++ s else replicate len 48

body-string :
    (n len : ℕ) (t : Text) → body n len ≡ t → All IsDigit t → number_to_fix_len_string n len ≡ t
unfolding number_to_fix_len_string written_cells
body-string n len t e ds = ap (λ b. before_nul (b ++ 0 ∷ [])) e ∙ before_nul-append t ds

padded :
    (n len : ℕ)
    → length (to_string n) ≤ len
    → number_to_fix_len_string n len ≡ zeros (len - length (to_string n)) ++ to_string n
padded n len h =
    body-string n len (zeros (len - length (to_string n)) ++ to_string n)
      (ground (arith, take-zeros (len - length (to_string n)) len (omega arith)))
      (padded-All (len - length (to_string n)) (to_string n) (to_string-All n))

overflowed : (n len : ℕ) → len < length (to_string n) → number_to_fix_len_string n len ≡ zeros len
overflowed n len h = body-string n len (zeros len) (ground arith) (zeros-All len)

body-IsField : (n len : ℕ) → All IsDigit (body n len) × (length (body n len) ≡ len)
unfolding to_string
body-IsField n len =
    let s = to_string n in
    ground (
      arith,
      take-zeros (len - length s) len,
      zeros-All len,
      padded-All (len - length s) s (digits-All 20 n),
      length-append (zeros (len - length s)) s,
      length-zeros len,
      length-zeros (len - length s),
    )

-- A field is as long as it should be, and of digits only, whatever its number is.
pub number_to_fix_len_string-IsField :
    (n len : ℕ) → let t = number_to_fix_len_string n len in All IsDigit t × (length t ≡ len)
number_to_fix_len_string-IsField n len =
    let (ds, l) = body-IsField n len in
    let same = body-string n len (body n len) refl ds in rw (same) (ds, l)

-- The source's bug: whatever the number is, one cell more is written than `malloc(len)` allocates.
pub written_cells-outside : (n len : ℕ) → length (written_cells n len) ≡ len + 1
unfolding written_cells
written_cells-outside n len =
    let (ds, l) = body-IsField n len in omega (arith, length-append (body n len) (0 ∷ []), l)

-- Read back, a field is its number, if that fits in it.
pub stoul-number_to_fix_len_string :
    (n k : ℕ) → n < 2 ^ 64 → n < pow10 (suc k) → stoul (number_to_fix_len_string n (suc k)) ≡ ok n
unfolding to_string
stoul-number_to_fix_len_string n k small fits =
    let (ds, l) = number_to_fix_len_string-IsField n (suc k) in
    let value =
      ap (read_digits 0) (padded n (suc k) (length-digits 20 k n fits))
      ∙ read_digits-zeros (suc k - length (to_string n)) (to_string n)
      ∙ read_digits-digits 20 n (omega arith) in
    stoul-digits (number_to_fix_len_string n (suc k)) k ds l (omega (arith, value)) ∙ ap ok value

-- A number that does not fit is written as zeros, and read as 0.
stoul-overflowed :
    (n k : ℕ) → k < 19 → pow10 (suc k) ≤ n → stoul (number_to_fix_len_string n (suc k)) ≡ ok 0
unfolding to_string
stoul-overflowed n k short big =
    let (ds, l) = number_to_fix_len_string-IsField n (suc k) in
    let value =
      ap (read_digits 0) (overflowed n (suc k) (digits-length 20 (suc k) n big (omega arith)))
      ∙ read_digits-only_zeros (suc k) in
    stoul-digits (number_to_fix_len_string n (suc k)) k ds l (omega (arith, value)) ∙ ap ok value

-- What a field of `suc k` digits shows of a number.
unfoldable pub shown : ℕ → ℕ → ℕ
shown k n = if ltb n (pow10 (suc k)) then n else 0

pub stoul-shown :
    (n k : ℕ)
    → k < 19
    → pow10 (suc k) ≤ 2 ^ 64
    → stoul (number_to_fix_len_string n (suc k)) ≡ ok (shown k n)
unfolding shown
stoul-shown n k short fits = elim (Bool-cases (ltb n (pow10 (suc k)))) [
  | inl less ↦
      stoul-number_to_fix_len_string n k (ground arith) (ground arith) ∙ ap ok (ground arith)
  | inr more ↦ stoul-overflowed n k short (ground arith) ∙ ap ok (ground arith)
]
