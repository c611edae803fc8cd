-- ===== src/Flow/Runtime/Keys.antt =====
-- crates/robine-flow-runtime/src/lib.rs: the keys by which a gateway tells the calls of a run apart.
use robine.Prelude.{
  ℕ, zero, suc, ◌+◌, ◌-◌, ◌*◌, ◌/◌, ◌%◌, ◌≤◌, ◌<◌, ◌≡◌, refl, sym, ap, subst, ◌∙◌, String, ◌<>◌,
  decimal, digits, digit, Char, code, false, ltb, eqb, eqb_iff, List, [], ◌∷◌, ◌++◌, arith,
  Bool-cases, inl, inr, chars, chars-of_chars, passes_below, passes_below_sound, append_assoc, is,
}
use Prim.Native.String.append
use robine.Flow.Runtime.{action_key, attempt_key}

-- The number that digits denote, behind the digits before them
abbrev value_from : ℕ → List Char → ℕ
value_from n [] = n
value_from n (c ∷ s) = value_from (n * 10 + (code c - 48)) s

value_from-append :
    (n : ℕ) (s : List Char) (c : Char)
    → value_from n (s ++ c ∷ []) ≡ value_from n s * 10 + (code c - 48)
value_from-append n [] c = refl
value_from-append n (d ∷ s) c = value_from-append (n * 10 + (code d - 48)) s c

code-digit : (d : ℕ) → d < 10 → code (digit d) ≡ d + 48
unfolding digit chars passes_below
code-digit d lt =
    (eqb_iff (code (digit d)) (d + 48)).0
      (passes_below_sound (λ d. eqb (code (digit d)) (d + 48)) 10 d lt refl)

value_from-digits : (f n : ℕ) → n ≤ f → value_from 0 (digits f n) ≡ n
unfolding digits
value_from-digits zero n le = omega (arith, code-digit n (omega (arith, le)))
value_from-digits (suc f) n le = elim (Bool-cases (ltb n 10)) [
  | inl e ↦ let small : n < 10 = ground arith in rw e (omega (arith, code-digit n small))
  | inr e ↦
      let large : 10 ≤ n = ground arith in
      let back = value_from-digits f (n / 10) (omega (arith, le, large)) in
      let last = code-digit (n % 10) (omega arith) in
      rw e (value_from-append 0 (digits f (n / 10)) (digit (n % 10)) ∙ omega (arith, back, last))
]

chars-concat : (s t : String) → chars (s <> t) ≡ chars s ++ chars t
unfolding chars
chars-concat String.[] t = ap chars (append.nil t)
chars-concat (String.◌∷◌ c s) t = ap chars (append.cons c s t) ∙ ap (λ l. c ∷ l) (chars-concat s t)

append-cancel {ℓ} : {A : Type ℓ} (s t u : List A) → s ++ t ≡ s ++ u → t ≡ u
append-cancel [] t u e = e
append-cancel (c ∷ s) t u e = append-cancel s t u (cc e)

concat-cancel : (s t u : String) → s <> t ≡ s <> u → chars t ≡ chars u
concat-cancel s t u e =
    append-cancel (chars s) (chars t) (chars u)
      (sym (chars-concat s t) ∙ ap chars e ∙ chars-concat s u)

chars-decimal : (n : ℕ) → chars (decimal n) ≡ digits n n
unfolding decimal
chars-decimal n = chars-of_chars (digits n n)

digits-injective : (m n : ℕ) → digits m m ≡ digits n n → m ≡ n
digits-injective m n e =
    sym (value_from-digits m m (omega arith))
    ∙ ap (value_from 0) e
    ∙ value_from-digits n n (omega arith)

-- No character of the list is a colon.
abbrev NoColon : List Char → Type 0
NoColon [] = Unit
NoColon (c ∷ s) = (is c b':' ≡ false) × NoColon s

NoColon-append : (s : List Char) (c : Char) → NoColon s → is c b':' ≡ false → NoColon (s ++ c ∷ [])
NoColon-append [] c h k = (k, tt)
NoColon-append (d ∷ s) c h k = (h.0, NoColon-append s c h.1 k)

digit-colon : (d : ℕ) → d < 10 → is (digit d) b':' ≡ false
digit-colon d lt = let e = code-digit d lt in ground arith

digits-NoColon : (f n : ℕ) → n ≤ f → NoColon (digits f n)
unfolding digits
digits-NoColon zero n le = (digit-colon n (omega (arith, le)), tt)
digits-NoColon (suc f) n le = elim (Bool-cases (ltb n 10)) [
  | inl e ↦ let small : n < 10 = ground arith in rw e (digit-colon n small, tt)
  | inr e ↦
      let large : 10 ≤ n = ground arith in
      rw e (
        NoColon-append (digits f (n / 10)) (digit (n % 10))
          (digits-NoColon f (n / 10) (omega (arith, le, large)))
          (digit-colon (n % 10) (omega arith)))
]

-- What stands before the first colon, and behind it
split-colon :
    (s t u v : List Char) → NoColon s → NoColon t → s ++ ":" ∷ u ≡ t ++ ":" ∷ v → (s ≡ t) × (u ≡ v)
split-colon [] [] u v h k e = (refl, cc e)
split-colon [] (d ∷ t) u v h k e =
    let same : ":" ≡ d = cc e in
    let clash = subst (λ c. is c b':' ≡ false) (sym same) k.0 in cc clash
split-colon (c ∷ s) [] u v h k e =
    let same : c ≡ ":" = cc e in let clash = subst (λ c. is c b':' ≡ false) same h.0 in cc clash
split-colon (c ∷ s) (d ∷ t) u v h k e =
    let (front, back) = split-colon s t u v h.1 k.1 (cc e) in
    let same : c ≡ d = cc e in (cc (same, front), back)

-- the key of an action, as the characters before its index and the digits of the index
chars-action_key :
    (run : String) (i : ℕ)
    → chars (action_key run i) ≡ (chars "flow:" ++ (chars run ++ chars "/")) ++ digits i i
chars-action_key run i =
    chars-concat "flow:" (run <> "/" <> decimal i)
    ∙ ap (λ l. chars "flow:" ++ l)
        (chars-concat run ("/" <> decimal i)
          ∙ ap (λ l. chars run ++ l)
              (chars-concat "/" (decimal i) ∙ ap (λ l. chars "/" ++ l) (chars-decimal i))
          ∙ sym (append_assoc (chars run) (chars "/") (digits i i)))
    ∙ sym (append_assoc (chars "flow:") (chars run ++ chars "/") (digits i i))

attempt_digits : ℕ → List Char
attempt_digits a = chars "attempt:" ++ chars (decimal ((a + 1) % 256))

chars-attempt_key :
    (run : String) (i a : ℕ)
    → chars (attempt_key run i a)
      ≡ (chars "flow:" ++ (chars run ++ chars "/")) ++ (digits i i ++ ":" ∷ attempt_digits a)
unfolding attempt_digits chars
chars-attempt_key run i a =
    chars-concat (action_key run i) (":attempt:" <> decimal ((a + 1) % 256))
    ∙ ap (λ l. l ++ chars (":attempt:" <> decimal ((a + 1) % 256))) (chars-action_key run i)
    ∙ append_assoc (chars "flow:" ++ (chars run ++ chars "/")) (digits i i)
        (chars (":attempt:" <> decimal ((a + 1) % 256)))
    ∙ ap (λ l. (chars "flow:" ++ (chars run ++ chars "/")) ++ (digits i i ++ l))
        (chars-concat ":attempt:" (decimal ((a + 1) % 256)))

attempt_digits-injective :
    (a b : ℕ) → a < 255 → b < 255 → attempt_digits a ≡ attempt_digits b → a ≡ b
unfolding attempt_digits
attempt_digits-injective a b small bounded e =
    let same =
      append-cancel (chars "attempt:") (chars (decimal ((a + 1) % 256)))
        (chars (decimal ((b + 1) % 256))) e in
    let equal =
      digits-injective ((a + 1) % 256) ((b + 1) % 256)
        (sym (chars-decimal ((a + 1) % 256)) ∙ same ∙ chars-decimal ((b + 1) % 256)) in
    omega (arith, equal, small, bounded)

-- Two attempts of one run whose numbers are below 255 have the same key only if they are the same
-- attempt of the same action.
pub attempt_key-injective :
    (run : String) (i j a b : ℕ)
    → a < 255
    → b < 255
    → attempt_key run i a ≡ attempt_key run j b
    → (i ≡ j) × (a ≡ b)
attempt_key-injective run i j a b small bounded e =
    let before = chars "flow:" ++ (chars run ++ chars "/") in
    let rest =
      append-cancel before (digits i i ++ ":" ∷ attempt_digits a)
        (digits j j ++ ":" ∷ attempt_digits b)
        (sym (chars-attempt_key run i a) ∙ ap chars e ∙ chars-attempt_key run j b) in
    let (indices, attempts) =
      split-colon (digits i i) (digits j j) (attempt_digits a) (attempt_digits b)
        (digits-NoColon i i (omega arith)) (digits-NoColon j j (omega arith)) rest in
    (digits-injective i j indices, attempt_digits-injective a b small bounded attempts)
