-- ===== src/Providence/Encoding/Pieces.antt =====
-- Each piece of an encoding ends where it says, so bytes that were put together from such pieces were put
-- together in one way.
use Prim.Native.Char.{code}
use text.Mathlib.TextEquality.{Char-path}
use openclaw_nie_guard.Common.{
  ℕ, zero, suc, ◌/◌, ◌%◌, ◌^◌, ◌<◌, ◌≡◌, refl, sym, ap, ap₂, ◌∙◌, inl, inr, String, Option, none,
  some, List, [], ◌∷◌, ◌++◌, length, nat_eq, Option-cases, arith,
}
use openclaw_nie_guard.Providence.Encoding.{Bytes, utf8_char, utf8, big_endian, lp, u64, joined}

-- The two pieces have the same bytes if their bytes are a beginning of the same bytes.
abbrev pub Splits : Option Bytes → Option Bytes → Type 0
Splits p q = (a b xs ys : Bytes) → p ≡ some a → q ≡ some b → a ++ xs ≡ b ++ ys → (a ≡ b) × (xs ≡ ys)

abbrev pub AllSplit : List (Option Bytes) → List (Option Bytes) → Type 0
AllSplit [] [] = Unit
AllSplit (p ∷ ps) (q ∷ qs) = Splits p q × AllSplit ps qs
AllSplit _ _ = ⊥

pub joined-cons :
    (p : Option Bytes) (ps : List (Option Bytes)) (whole : Bytes)
    → joined (p ∷ ps) ≡ some whole
    → (piece : Bytes) × (rest : Bytes) × (p ≡ some piece)
      × (joined ps ≡ some rest)
      × (whole ≡ piece ++ rest)
unfolding joined
joined-cons none ps whole e = absurd (cc)
joined-cons (some piece) ps whole e = elim (Option-cases (joined ps)) [
  | inl stuck ↦ absurd (ground arith)
  | inr (rest, is_rest) ↦ (piece, rest, refl, is_rest, ground arith)
]

-- Both lists of pieces are bytes, and the same ones.
abbrev pub Agree : List (Option Bytes) → List (Option Bytes) → Type 0
Agree [] [] = Unit
Agree (p ∷ ps) (q ∷ qs) = ((b : Bytes) × (p ≡ some b) × (q ≡ some b)) × Agree ps qs
Agree _ _ = ⊥

pub joined-Agree :
    (ps qs : List (Option Bytes)) (whole : Bytes)
    → AllSplit ps qs
    → joined ps ≡ some whole
    → joined qs ≡ some whole
    → Agree ps qs
joined-Agree [] [] whole splits e e' = tt
joined-Agree [] (q ∷ qs) whole splits e e' = absurd splits
joined-Agree (p ∷ ps) [] whole splits e e' = absurd splits
joined-Agree (p ∷ ps) (q ∷ qs) whole (split, splits) e e' =
    let (a, xs, pa, pxs, pw) = joined-cons p ps whole e in
    let (b, ys, qb, qys, qw) = joined-cons q qs whole e' in
    let (same, rest) = split a b xs ys pa qb (sym pw ∙ qw) in
    ((a, pa, qb ∙ ap some (sym same)), joined-Agree ps qs xs splits pxs (qys ∙ ap some (sym rest)))

pub big_endian-append :
    (width n : ℕ) (bytes rest : Bytes)
    → big_endian width n bytes ++ rest ≡ big_endian width n (bytes ++ rest)
unfolding big_endian
big_endian-append zero n bytes rest = refl
big_endian-append (suc width) n bytes rest =
    big_endian-append width (n / 256) ((n % 256) ∷ bytes) rest

pub big_endian_unique :
    (width n m : ℕ) (xs ys : Bytes)
    → n < 256 ^ width
    → m < 256 ^ width
    → big_endian width n xs ≡ big_endian width m ys
    → (n ≡ m) × (xs ≡ ys)
unfolding big_endian
big_endian_unique zero n m xs ys hn hm e = (omega arith, e)
big_endian_unique (suc width) n m xs ys hn hm e =
    let (high, rest) =
      big_endian_unique width (n / 256) (m / 256) ((n % 256) ∷ xs) ((m % 256) ∷ ys) (omega arith)
        (omega arith) e in
    ground (arith, high, rest)

pub append_unique :
    (a b xs ys : Bytes) → length a ≡ length b → a ++ xs ≡ b ++ ys → (a ≡ b) × (xs ≡ ys)
append_unique [] [] xs ys same e = (refl, e)
append_unique [] (y ∷ b) xs ys same e = absurd (omega arith)
append_unique (x ∷ a) [] xs ys same e = absurd (omega arith)
append_unique (x ∷ a) (y ∷ b) xs ys same e =
    let (here, later) : (x ≡ y) × (a ++ xs ≡ b ++ ys) = ground (arith, e) in
    let (heads, rest) = append_unique a b xs ys (omega arith) later in
    (ap₂ (λ z c. z ∷ c) here heads, rest)

lp-some : (x a : Bytes) → lp x ≡ some a → (length x < 2 ^ 32) × (a ≡ big_endian 4 (length x) x)
unfolding lp
lp-some x a e = ground arith

pub lp-Splits : (x y : Bytes) → Splits (lp x) (lp y)
lp-Splits x y a b xs ys pa qb e =
    let (short, is_a) = lp-some x a pa in
    let (short', is_b) = lp-some y b qb in
    let (same, rest) =
      big_endian_unique 4 (length x) (length y) (x ++ xs) (y ++ ys) (omega arith) (omega arith) (
        sym (big_endian-append 4 (length x) x xs)
        ∙ sym (ap (λ c. c ++ xs) is_a)
        ∙ e
        ∙ ap (λ c. c ++ ys) is_b
        ∙ big_endian-append 4 (length y) y ys) in
    let (texts, after) = append_unique x y xs ys same rest in
    (is_a ∙ ap₂ (big_endian 4) same texts ∙ sym is_b, after)

-- The bytes of a piece of `lp` determine what it holds.
pub lp_injective : (x y a : Bytes) → lp x ≡ some a → lp y ≡ some a → x ≡ y
lp_injective x y a pa qa =
    let (short, is_a) = lp-some x a pa in
    let (short', is_a') = lp-some y a qa in
    (big_endian_unique 4 (length x) (length y) x y (omega arith) (omega arith) (sym is_a ∙ is_a')).1

u64-some : (n : ℕ) (a : Bytes) → u64 n ≡ some a → (n < 2 ^ 53) × (a ≡ big_endian 8 n [])
unfolding u64
u64-some n a e = ground arith

pub u64-Splits : (n m : ℕ) → Splits (u64 n) (u64 m)
u64-Splits n m a b xs ys pa qb e =
    let (small, is_a) = u64-some n a pa in
    let (small', is_b) = u64-some m b qb in
    let (same, rest) = big_endian_unique 8 n m xs ys (omega arith) (omega arith) (
      sym (big_endian-append 8 n [] xs)
      ∙ sym (ap (λ c. c ++ xs) is_a)
      ∙ e
      ∙ ap (λ c. c ++ ys) is_b
      ∙ big_endian-append 8 m [] ys) in
    (is_a ∙ ap (λ k. big_endian 8 k []) same ∙ sym is_b, rest)

pub u64_injective : (n m : ℕ) (a : Bytes) → u64 n ≡ some a → u64 m ≡ some a → n ≡ m
u64_injective n m a pa qa =
    let (small, is_a) = u64-some n a pa in
    let (small', is_a') = u64-some m a qa in
    (big_endian_unique 8 n m [] [] (omega arith) (omega arith) (sym is_a ∙ is_a')).0

-- A piece that is written out splits from itself.
pub constant-Splits : (piece : Bytes) → Splits (some piece) (some piece)
constant-Splits piece a b xs ys pa qb e =
    let is_a : piece ≡ a = ground arith in
    let is_b : piece ≡ b = ground arith in append_unique a b xs ys (cc) e

utf8_char_unique : (n m : ℕ) (xs ys : Bytes) → utf8_char n xs ≡ utf8_char m ys → (n ≡ m) × (xs ≡ ys)
utf8_char_unique n m xs ys e = ground arith

pub utf8_injective : (s t : String) → utf8 s ≡ utf8 t → s ≡ t
unfolding utf8
utf8_injective String.[] String.[] e = refl
utf8_injective String.[] (String.◌∷◌ d t) e = absurd (ground arith)
utf8_injective (String.◌∷◌ c s) String.[] e = absurd (ground arith)
utf8_injective (String.◌∷◌ c s) (String.◌∷◌ d t) e =
    let (same, rest) = utf8_char_unique (code c) (code d) (utf8 s) (utf8 t) e in
    ap₂ (λ x y. String.◌∷◌ x y) (Char-path c d same) (utf8_injective s t rest)
