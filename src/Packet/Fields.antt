-- ===== src/Packet/Fields.antt =====
-- Where the fields of a packet's text stand.
use gcc_chrome.Common.{ℕ, suc, ◌+◌, ◌≡◌, refl, ap, ◌∙◌, [], ◌∷◌, ◌++◌, arith}
use gcc_chrome.Common.Lists.{length, length-append, take, drop}
use gcc_chrome.Common.Result.{ok, ◌>>=◌}
use gcc_chrome.Packet.{Text, substr, stoul, field}

drop_eq : (s : Text) {j k : ℕ} → j ≡ k → drop j s ≡ drop k s
drop_eq s h = ap (λ i. drop i s) h

drop-append : (a s : Text) (k : ℕ) → drop (length a + k) (a ++ s) ≡ drop k s
drop-append [] s k = drop_eq s (omega arith)
drop-append (x ∷ a) s k =
    drop_eq (x ∷ (a ++ s)) {k = suc (length a + k)} (omega arith) ∙ drop-append a s k

take-append : (a s : Text) → take (length a) (a ++ s) ≡ a
take-append [] s = refl
take-append (x ∷ a) s = ap (λ t. x ∷ t) (take-append a s)

take-all : (a : Text) → take (length a) a ≡ a
take-all [] = refl
take-all (x ∷ a) = ap (λ t. x ∷ t) (take-all a)

substr-skip : (a s : Text) (m k n : ℕ) → length a ≡ m → substr (a ++ s) (m + k) n ≡ substr s k n
unfolding substr
substr-skip a s m k n h =
    ground (arith, ap (λ j. drop (j + k) (a ++ s)) h, drop-append a s k, length-append a s)

-- Past the first field of a text, positions count from its end.
pub field-skip : (a s : Text) (m k n : ℕ) → length a ≡ m → field (a ++ s) (m + k) n ≡ field s k n
unfolding field
field-skip a s m k n h = ap (λ t. t >>= stoul) (substr-skip a s m k n h)

-- The first field.
pub substr-first : (f s : Text) (n : ℕ) → length f ≡ n → substr (f ++ s) 0 n ≡ ok f
unfolding substr
substr-first f s n h = ground (arith, ap (λ j. take j (f ++ s)) h, take-append f s)

pub field-first : (f s : Text) (n : ℕ) → length f ≡ n → field (f ++ s) 0 n ≡ stoul f
unfolding field
field-first f s n h = ap (λ t. t >>= stoul) (substr-first f s n h)

-- The only field that is left.
pub field-last : (f : Text) (n : ℕ) → length f ≡ n → field f 0 n ≡ stoul f
unfolding field substr
field-last f n h = ground (arith, ap (λ j. take j f) h, take-all f)
