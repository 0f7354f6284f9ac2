-- ===== src/Providence/Encoding/Hex.antt =====
-- Digests in hexadecimal: 64 digits are 32 bytes, and the bytes determine the digits.
use Prim.Native.Char.{Char}
use text.Mathlib.TextEquality.{Char-path}
use openclaw_nie_guard.Common.{
  ℕ, zero, suc, ◌+◌, ◌*◌, ◌<◌, ◌≡◌, refl, sym, ap, ap₂, ◌∙◌, String, some, true, length, nat_eq,
  arith,
}
use openclaw_nie_guard.Types.{utf16_length}
use openclaw_nie_guard.Broker.Audit.{is_hex_digit, all_chars, is_device_fingerprint}
use openclaw_nie_guard.Providence.Records.{hex64}
use openclaw_nie_guard.Providence.Encoding.{Bytes, hex_value, hex_pairs, hex32}
use openclaw_nie_guard.Providence.Encoding.Pieces.{Splits, append_unique}

abbrev AllHex : String → Type 0
AllHex s = all_chars is_hex_digit s ≡ true

AllHex-pair :
    (c d : Char) (s : String)
    → AllHex (String.◌∷◌ c (String.◌∷◌ d s))
    → (is_hex_digit c ≡ true) × (is_hex_digit d ≡ true) × AllHex s
unfolding all_chars
AllHex-pair c d s h = ground arith

hex_units :
    (c : Char) (s : String)
    → is_hex_digit c ≡ true
    → utf16_length (String.◌∷◌ c s) ≡ 1 + utf16_length s
unfolding is_hex_digit utf16_length
hex_units c s h = ground arith

length-hex_pairs :
    (k : ℕ) (s : String) → AllHex s → utf16_length s ≡ k + k → length (hex_pairs s) ≡ k
unfolding hex_pairs all_chars utf16_length
length-hex_pairs zero String.[] h e = refl
length-hex_pairs (suc k) String.[] h e = absurd (ground arith)
length-hex_pairs k (String.◌∷◌ c String.[]) h e =
    absurd (ground (arith, hex_units c "" (ground arith)))
length-hex_pairs zero (String.◌∷◌ c (String.◌∷◌ d s)) h e = absurd (ground arith)
length-hex_pairs (suc k) (String.◌∷◌ c (String.◌∷◌ d s)) h e =
    let (hc, hd, hs) = AllHex-pair c d s h in
    ground (arith, hex_units c (String.◌∷◌ d s) hc, hex_units d s hd, length-hex_pairs k s hs)

hex_value_bound : (c : Char) → is_hex_digit c ≡ true → hex_value c < 16
unfolding is_hex_digit
hex_value_bound c h = ground arith

hex_value_injective :
    (c d : Char) → is_hex_digit c ≡ true → is_hex_digit d ≡ true → hex_value c ≡ hex_value d → c ≡ d
unfolding is_hex_digit
hex_value_injective c d hc hd e = Char-path c d (ground arith)

pair_unique :
    (c d c' d' : Char)
    → is_hex_digit c ≡ true
    → is_hex_digit d ≡ true
    → is_hex_digit c' ≡ true
    → is_hex_digit d' ≡ true
    → 16 * hex_value c + hex_value d ≡ 16 * hex_value c' + hex_value d'
    → (c ≡ c') × (d ≡ d')
pair_unique c d c' d' hc hd hc' hd' e =
    let low = hex_value_bound d hd in
    let low' = hex_value_bound d' hd' in
    (hex_value_injective c c' hc hc' (omega arith), hex_value_injective d d' hd hd' (omega arith))

no_odd_end :
    {A : Type 0} (k : ℕ) (c : Char)
    → AllHex (String.◌∷◌ c "")
    → utf16_length (String.◌∷◌ c "") ≡ k + k
    → A
unfolding all_chars utf16_length
no_odd_end k c h e = absurd (ground (arith, hex_units c "" (ground arith)))

pair_units :
    (k : ℕ) (c d : Char) (s : String)
    → is_hex_digit c ≡ true
    → is_hex_digit d ≡ true
    → utf16_length (String.◌∷◌ c (String.◌∷◌ d s)) ≡ k + k
    → (j : ℕ) × (k ≡ suc j) × (utf16_length s ≡ j + j)
pair_units zero c d s hc hd e =
    absurd (ground (arith, hex_units c (String.◌∷◌ d s) hc, hex_units d s hd))
pair_units (suc j) c d s hc hd e =
    (j, refl, ground (arith, hex_units c (String.◌∷◌ d s) hc, hex_units d s hd))

hex_pairs_injective :
    (k : ℕ) (s t : String)
    → AllHex s
    → AllHex t
    → utf16_length s ≡ k + k
    → utf16_length t ≡ k + k
    → hex_pairs s ≡ hex_pairs t
    → s ≡ t
unfolding hex_pairs
hex_pairs_injective k String.[] String.[] hs ht es et e = refl
hex_pairs_injective k (String.◌∷◌ c String.[]) t hs ht es et e = no_odd_end k c hs es
hex_pairs_injective k String.[] (String.◌∷◌ c String.[]) hs ht es et e = no_odd_end k c ht et
hex_pairs_injective k (String.◌∷◌ c (String.◌∷◌ d s)) (String.◌∷◌ c' String.[]) hs ht es et e =
    no_odd_end k c' ht et
hex_pairs_injective k String.[] (String.◌∷◌ c (String.◌∷◌ d t)) hs ht es et e =
    absurd (ground arith)
hex_pairs_injective k (String.◌∷◌ c (String.◌∷◌ d s)) String.[] hs ht es et e =
    absurd (ground arith)
hex_pairs_injective k (String.◌∷◌ c (String.◌∷◌ d s)) (String.◌∷◌ c' (String.◌∷◌ d' t)) hs ht es et
      e =
    let (hc, hd, rest) = AllHex-pair c d s hs in
    let (hc', hd', rest') = AllHex-pair c' d' t ht in
    let (j, is_j, units) = pair_units k c d s hc hd es in
    let (j', is_j', units') = pair_units k c' d' t hc' hd' et in
    let (heads, tails) : (16 * hex_value c + hex_value d ≡ 16 * hex_value c' + hex_value d')
        × (hex_pairs s ≡ hex_pairs t) =
      ground (arith, e) in
    let (first, second) = pair_unique c d c' d' hc hd hc' hd' heads in
    ap₂ (λ x y. String.◌∷◌ x y) first
      (ap₂ (λ x y. String.◌∷◌ x y) second
        (hex_pairs_injective j s t rest rest' units (omega arith) tails))

hex64-parts : (s : String) → hex64 s ≡ true → (utf16_length s ≡ 32 + 32) × AllHex s
unfolding is_device_fingerprint
hex64-parts s h = ground arith

hex32-some : (s : String) (a : Bytes) → hex32 s ≡ some a → (hex64 s ≡ true) × (a ≡ hex_pairs s)
unfolding hex32
hex32-some s a e = ground arith

length-hex32 : (s : String) (a : Bytes) → hex32 s ≡ some a → length a ≡ 32
length-hex32 s a e =
    let (fits, is_a) = hex32-some s a e in
    let (units, digits) = hex64-parts s fits in
    ap (λ b. length b) is_a ∙ length-hex_pairs 32 s digits units

pub hex32-Splits : (s t : String) → Splits (hex32 s) (hex32 t)
hex32-Splits s t a b xs ys pa qb e =
    append_unique a b xs ys (length-hex32 s a pa ∙ sym (length-hex32 t b qb)) e

pub hex32_injective : (s t : String) (a : Bytes) → hex32 s ≡ some a → hex32 t ≡ some a → s ≡ t
hex32_injective s t a e e' =
    let (fits, is_a) = hex32-some s a e in
    let (fits', is_a') = hex32-some t a e' in
    let (units, digits) = hex64-parts s fits in
    let (units', digits') = hex64-parts t fits' in
    hex_pairs_injective 32 s t digits digits' units units' (sym is_a ∙ is_a')
