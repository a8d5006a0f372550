-- ===== src/Json/Lexical/Rests.antt =====
-- How much of a text the scanners of literals leave.
use rook_servicechannel_gate.Base.{
  ℕ, suc, ◌≤◌, ◌<◌, ◌≡◌, refl, Bool, true, false, Option, none, some, [], ◌∷◌, length, arith,
  if◌then◌else◌,
}
use rook_servicechannel_gate.Base.Text.{Bytes}
use rook_servicechannel_gate.Json.Lexical.{
  Waits, plain, Lexed, refused, closing, goes_on, lex, push, raw_string, unquote, scan_string,
  Number, start, next_number, number_from, scan_number, may_end,
}

-- What is left is shorter than `n`.
unfoldable pub Shrinks : {A : Type 0} → ℕ → Option (A × Bytes) → Type 0
Shrinks n none = Unit
Shrinks n (some (a, r)) = length r < n

pub weaken : {A : Type 0} (n m : ℕ) (o : Option (A × Bytes)) → n ≤ m → Shrinks n o → Shrinks m o
unfolding Shrinks
weaken n m none b h = tt
weaken n m (some (a, r)) b h = omega (arith, b, h)

push-Shrinks : (c n : ℕ) (o : Option (Bytes × Bytes)) → Shrinks n o → Shrinks n (push c o)
unfolding Shrinks
push-Shrinks c n none h = tt
push-Shrinks c n (some (a, r)) h = h

raw_string-Shrinks : (w : Waits) (s : Bytes) → Shrinks (length s) (raw_string w s)
unfolding raw_string Shrinks
raw_string-Shrinks w [] = tt
raw_string-Shrinks w (c ∷ s) = by_byte (lex w c) refl (λ v. raw_string-Shrinks v s)
  where
    by_byte :
        (l : Lexed)
        → lex w c ≡ l
        → ((v : Waits) → Shrinks (length s) (raw_string v s))
        → Shrinks (suc (length s)) (raw_string w (c ∷ s))
    by_byte refused e rest = rw (raw_string, e) tt
    by_byte closing e rest = rw (raw_string, e) (omega arith)
    by_byte (goes_on v) e rest =
        rw (raw_string, e)
          (push-Shrinks c _ (raw_string v s)
            (weaken (length s) _ (raw_string v s) (omega arith) (rest v)))

pub scan_string-Shrinks : (s : Bytes) → Shrinks (length s) (scan_string s)
unfolding scan_string Shrinks
scan_string-Shrinks s = of_raw (raw_string plain s) (raw_string-Shrinks plain s)
  where
    of_raw :
        (o : Option (Bytes × Bytes))
        → Shrinks (length s) o
        → Shrinks (length s) (elim o [ none ↦ none | some (a, r) ↦ some (unquote 0 a, r) ])
    of_raw none h = tt
    of_raw (some (a, r)) h = h

ended :
    (c : ℕ) (s : Bytes) (b : Bool)
    → Shrinks {A = Bytes} (suc (suc (length s))) (if b then some ([], c ∷ s) else none)
unfolding Shrinks
ended c s true = omega arith
ended c s false = tt

at_end : (b : Bool) → Shrinks {A = Bytes} 1 (if b then some ([], []) else none)
unfolding Shrinks
at_end true = omega arith
at_end false = tt

-- A number may end before the first byte that is left.
number_from-Shrinks : (n : Number) (s : Bytes) → Shrinks (suc (length s)) (number_from n s)
unfolding number_from Shrinks
number_from-Shrinks n [] = at_end (may_end n)
number_from-Shrinks n (c ∷ s) = by_byte (next_number n c) refl (λ m. number_from-Shrinks m s)
  where
    by_byte :
        (o : Option Number)
        → next_number n c ≡ o
        → ((m : Number) → Shrinks (suc (length s)) (number_from m s))
        → Shrinks (suc (suc (length s))) (number_from n (c ∷ s))
    by_byte none e rest = rw (number_from, e) (ended c s (may_end n))
    by_byte (some m) e rest =
        rw (number_from, e)
          (push-Shrinks c _ (number_from m s)
            (weaken (suc (length s)) _ (number_from m s) (omega arith) (rest m)))

number_step :
    (n m : Number) (c : ℕ) (s : Bytes)
    → next_number n c ≡ some m
    → number_from n (c ∷ s) ≡ push c (number_from m s)
unfolding number_from
number_step n m c s e = rw (number_from, e)

number_stop : (c : ℕ) (s : Bytes) → next_number start c ≡ none → number_from start (c ∷ s) ≡ none
unfolding number_from may_end
number_stop c s e = rw (number_from, e)

pub scan_number-Shrinks : (s : Bytes) → Shrinks (length s) (scan_number s)
unfolding scan_number Shrinks
scan_number-Shrinks [] = unfold number_from may_end in tt
scan_number-Shrinks (c ∷ s) = by_byte (next_number start c) refl
  where
    by_byte :
        (o : Option Number)
        → next_number start c ≡ o
        → Shrinks (suc (length s)) (number_from start (c ∷ s))
    by_byte none e = rw (number_stop c s e) tt
    by_byte (some m) e =
        rw (number_step start m c s e)
          (push-Shrinks c _ (number_from m s) (number_from-Shrinks m s))
