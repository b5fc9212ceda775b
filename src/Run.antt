-- ===== src/Run.antt =====
-- The outcome of a piece of C code: it returns, it reads outside an array, or the fuel of a loop
-- of the model is spent.
use usb_hid_tool.Prelude.{ℕ, zero, suc, ◌+◌, ◌<◌, ◌≡◌, refl, ap, List, [], ◌∷◌, ◌++◌, arith, length}

pub data Run {ℓ} (A : Type ℓ) : Type ℓ where
  done : A → Run A
  fault : Run A
  spent : Run A

infixl 5 ◌>>=◌
abbrev pub ◌>>=◌ {ℓ κ} : {A : Type ℓ} {B : Type κ} → Run A → (A → Run B) → Run B
done a >>= f = f a
fault >>= f = fault
spent >>= f = spent

-- `a[i]` of an array that holds `xs`.
abbrev pub read {ℓ} : {A : Type ℓ} → List A → ℕ → Run A
read [] i = fault
read (x ∷ xs) zero = done x
read (x ∷ xs) (suc i) = read xs i

-- The code returns, and what it returns satisfies `P`.
abbrev pub Returns {ℓ} : {A : Type ℓ} → (A → Type 0) → Run A → Type 0
Returns P (done a) = P a
Returns P fault = ⊥
Returns P spent = ⊥

pub Returns-bind {ℓ κ} :
    {A : Type ℓ} {B : Type κ} (P : A → Type 0) (Q : B → Type 0) (m : Run A) (f : A → Run B)
    → Returns P m
    → ((a : A) → m ≡ done a → P a → Returns Q (f a))
    → Returns Q (m >>= f)
Returns-bind P Q (done a) f h k = k a refl h
Returns-bind P Q fault f h k = absurd h
Returns-bind P Q spent f h k = absurd h

-- Every element of a list satisfies `P`.
abbrev pub All {ℓ κ} : {A : Type ℓ} → (A → Type κ) → List A → Type κ
All P [] = Unit
All P (x ∷ xs) = P x × All P xs

-- A read in range returns an element.
pub Returns-read {ℓ} :
    {A : Type ℓ} (P : A → Type 0) (xs : List A) (i : ℕ)
    → All P xs
    → i < length xs
    → Returns P (read xs i)
Returns-read P [] i a h = absurd (omega arith)
Returns-read P (x ∷ xs) zero a h = a.0
Returns-read P (x ∷ xs) (suc i) a h = Returns-read P xs i a.1 (omega arith)

pub Returns-mono {ℓ} :
    {A : Type ℓ} {P Q : A → Type 0} (m : Run A) → ((a : A) → P a → Q a) → Returns P m → Returns Q m
Returns-mono (done a) k h = k a h
Returns-mono fault k h = h
Returns-mono spent k h = h

pub Returns-and {ℓ} :
    {A : Type ℓ} (P Q : A → Type 0) (m : Run A)
    → Returns P m
    → Returns Q m
    → Returns (λ a. P a × Q a) m
Returns-and P Q (done a) h k = (h, k)
Returns-and P Q fault h k = absurd h
Returns-and P Q spent h k = absurd h

pub All-append {ℓ} :
    {A : Type ℓ} (P : A → Type 0) (xs ys : List A) → All P xs → All P ys → All P (xs ++ ys)
All-append P [] ys a b = b
All-append P (x ∷ xs) ys a b = (a.0, All-append P xs ys a.1 b)

-- A read behind the first list of an append.
pub read_at {ℓ} :
    {A : Type ℓ} (front xs : List A) (k m : ℕ)
    → m ≡ length front + k
    → read (front ++ xs) m ≡ read xs k
read_at [] xs k m e = ap (read xs) (omega arith)
read_at (x ∷ front) xs k zero e = absurd (omega arith)
read_at (x ∷ front) xs k (suc m) e = read_at front xs k m (omega arith)

pub append_assoc {ℓ} : {A : Type ℓ} (xs ys zs : List A) → (xs ++ ys) ++ zs ≡ xs ++ (ys ++ zs)
append_assoc [] ys zs = refl
append_assoc (x ∷ xs) ys zs = ap (λ l. x ∷ l) (append_assoc xs ys zs)
