-- ===== src/Tests/Tokens.antt =====
-- Session tokens over concrete libraries: digits above 100 for base64, and an encoding of payloads of
-- integers in which a value is an odd number in front of the even numbers of its key.
use google_ads_intelligence.Base.{
  ℕ, ◌+◌, ◌-◌, ◌*◌, ◌/◌, ◌%◌, ◌≡◌, refl, ap, ◌∙◌, false, some, [], ◌∷◌, ◌++◌, if◌then◌else◌, ◌==◌,
  length, arith,
}
use google_ads_intelligence.Base.Int.{ℤ, pos, negsuc}
use google_ads_intelligence.Base.Eq.{mem, nat_eq, list_eq}
use google_ads_intelligence.Base.Dict.{lookup}
use google_ads_intelligence.Base.Text.{Text, codes}
use google_ads_intelligence.Auth.Tokens.{
  Bytes, Payload, Libraries, Loaded, Verified, TokenLaws, rstrip_code, repeat, pad_length, sign,
  verify, with_expiry, b64e, b64d, split_once, unexpired,
}
use google_ads_intelligence.Auth.Tokens.Laws.{
  rstrip_code-append, verify-sign, Authentic, verify-Authentic,
}

abbrev digits_of : Bytes → Text
digits_of [] = []
digits_of (b ∷ bs) = (b + 100) ∷ digits_of bs

abbrev bytes_of : Text → Bytes
bytes_of [] = []
bytes_of (c ∷ cs) = (c - 100) ∷ bytes_of cs

abbrev value_code : ℤ → ℕ
value_code (pos n) = 4 * n + 1
value_code (negsuc n) = 4 * n + 3

abbrev key_codes : Text → Bytes
key_codes [] = []
key_codes (c ∷ s) = (2 * c) ∷ key_codes s

abbrev write : Payload ℤ → Bytes
write [] = []
write ((key, v) ∷ d) = value_code v ∷ (key_codes key ++ write d)

-- The key that the numbers start with, and the entries behind it.
abbrev read : Bytes → Text × Payload ℤ
read [] = ([], [])
read (x ∷ xs) =
    let rest = read xs in
    if x % 2 == 0
    then (x / 2 ∷ rest.0, rest.1)
    else if x % 4 == 1
    then ([], (rest.0, pos (x / 4)) ∷ rest.1)
    else ([], (rest.0, negsuc (x / 4)) ∷ rest.1)

even_mod : (n : ℕ) → 2 * n % 2 ≡ 0
even_mod n = omega arith

even_half : (n : ℕ) → 2 * n / 2 ≡ n
even_half n = omega arith

odd_mod : (n : ℕ) → (4 * n + 1) % 2 ≡ 1
odd_mod n = omega arith

odd_mod3 : (n : ℕ) → (4 * n + 3) % 2 ≡ 1
odd_mod3 n = omega arith

sign_mod : (n : ℕ) → (4 * n + 1) % 4 ≡ 1
sign_mod n = omega arith

sign_mod3 : (n : ℕ) → (4 * n + 3) % 4 ≡ 3
sign_mod3 n = omega arith

value_half : (n : ℕ) → (4 * n + 1) / 4 ≡ n
value_half n = omega arith

value_half3 : (n : ℕ) → (4 * n + 3) / 4 ≡ n
value_half3 n = omega arith

read-key :
    (key : Text) (b : Bytes) (d : Payload ℤ)
    → read b ≡ ([], d)
    → read (key_codes key ++ b) ≡ (key, d)
read-key [] b d h = h
read-key (c ∷ key) b d h = rw (even_mod c, even_half c, read-key key b d h) refl

read-write : (d : Payload ℤ) → read (write d) ≡ ([], d)
read-write [] = refl
read-write ((key, pos n) ∷ d) =
    rw (odd_mod n, sign_mod n, value_half n, read-key key (write d) d (read-write d)) refl
read-write ((key, negsuc n) ∷ d) =
    rw (odd_mod3 n, sign_mod3 n, value_half3 n, read-key key (write d) d (read-write d)) refl

abbrev toy : Libraries ℤ
toy = record {
  b64encode = λ b. digits_of b ++ repeat (pad_length (length (digits_of b))) 61;
  b64decode = λ t. some (bytes_of (rstrip_code 61 t));
  utf8 = λ s. s;
  dumps = write;
  loads = λ b. Loaded.object (read b).1;
  digest = λ key message. key ++ message;
  of_int = λ n. n;
  int_of = some;
}

digits_equals : (b : Bytes) → mem 61 (digits_of b) ≡ false
digits_equals [] = refl
digits_equals (x ∷ b) = ground (arith, digits_equals b)

digits_dot : (b : Bytes) → mem 46 (digits_of b) ≡ false
digits_dot [] = refl
digits_dot (x ∷ b) = ground (arith, digits_dot b)

bytes_of-digits_of : (b : Bytes) → bytes_of (digits_of b) ≡ b
bytes_of-digits_of [] = refl
bytes_of-digits_of (x ∷ b) = grind (arith, bytes_of-digits_of b)

abbrev toy_laws : TokenLaws toy
toy_laws = record {
  digits = digits_of;
  digits_equals = digits_equals;
  digits_dot = digits_dot;
  encode = λ b. refl;
  decode = λ b. ap some (
      ap bytes_of (rstrip_code-append 61 _ (digits_of b) (digits_equals b)) ∙ bytes_of-digits_of b);
  load = λ d u. d;
  loads_dumps = λ d u. ap (λ p. Loaded.object p.1) (read-write d);
  load_lookup = λ d u key. refl;
  int_of_int = λ n. refl;
}

abbrev session : Payload ℤ
session = (codes "uid", pos 3) ∷ []

verify-sign_example :
    (loaded : Payload ℤ) × (((key : Text)
        → lookup key loaded ≡ lookup key (with_expiry toy session (1000 + 60)))
      × (verify toy 1010 (sign toy 1000 session (codes "key") 60) (codes "key")
          ≡ Verified.payload loaded))
verify-sign_example = verify-sign toy_laws 1000 1010 session (codes "key") 60 (refl, tt) refl

verify-Authentic_example :
    Authentic toy 1010
      (sign toy 1000 session (codes "key") 60)
      (codes "key")
      (with_expiry toy session 1060)
unfolding verify sign b64e b64d rstrip_code repeat split_once unexpired
verify-Authentic_example =
    verify-Authentic toy 1010 (sign toy 1000 session (codes "key") 60) (codes "key")
      (with_expiry toy session 1060) refl

-- The token of the session is of no use after its minute.
expired_token :
    verify toy 1061 (sign toy 1000 session (codes "key") 60) (codes "key") ≡ Verified.absent
expired_token = (verify-sign toy_laws 1000 1061 session (codes "key") 60 (refl, tt) refl).1.1
